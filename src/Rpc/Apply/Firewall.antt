-- ===== src/Rpc/Apply/Firewall.antt =====
-- applyFirewall and applyNetconfig, from a domain at rest.
use ghostd.Prelude.{String, ◌≡◌, true, Option, some, inl, ap}
use ghostd.Env.{Env, IsJson}
use ghostd.Nft.Owned.{nft_owned}
use ghostd.Effect.{Host, M, Code, internal, invalid_argument, failed_precondition, advance}
use ghostd.Effect.Triple.{
  Triple, Triple-bind, Triple-recode, Triple-require, Triple-or_fail, Triple-or_fail_last,
  Triple-weaken, Triple-read,
}
use ghostd.State.Records.{IsPlaced, Triple-probe}
use ghostd.Rpc.Server.{Server, ApplyRequest, legacy_name}
use ghostd.Rpc.Executors.{validate_syntax, read_ruleset, commit, net_snapshot, net_apply}
use ghostd.Rpc.Cover.{Quiet, Covered, Leased}
use ghostd.Rpc.Lease.{recover_expired}
use ghostd.Rpc.Lease.Recover.{Triple-recover-Quiet}
use ghostd.Rpc.Apply.Safety.{AtRest-advance, Triple-mutate}
use ghostd.Rpc.Apply.{firewall_snapshot, apply_firewall, apply_netconfig}

-- The part of the live ruleset that is ours, as it was before the mutation.
abbrev pub FirewallSnapshot : (e : Env) → e.Kernel → e.Blob → Type 0
FirewallSnapshot e k snapshot = nft_owned e (e.nft_list k) ≡ some snapshot

-- What undoes the request, taken from the host as it was before the mutation.
abbrev pub NetconfigSnapshot : (e : Env) → e.Blob → e.Kernel → e.Blob → Type 0
NetconfigSnapshot e wanted k snapshot =
    (desired : e.Netconfig) × (e.net_parse wanted ≡ some desired)
    × (snapshot ≡ e.net_snapshot desired k)

module _ {e : Env} (json : IsJson e) (s : Server e) (addr : String) (confirmed : e.Blob)
    (k : e.Kernel) where
  module _ (req : ApplyRequest e) (placed : IsPlaced e req.domain (legacy_name s req.domain))
      (IsSnapshot : e.Blob → Type 0) where
    abbrev AtRest : Host e → Type 0
    AtRest = Quiet req.domain (legacy_name s req.domain) confirmed k

    abbrev Ended : Option Code → Host e → Type 0
    Ended o h = Covered req.domain (legacy_name s req.domain) confirmed k IsSnapshot h

    timeless : (h : Host e) → AtRest h → AtRest (advance h)
    timeless = AtRest-advance json s addr req placed confirmed k IsSnapshot

    Triple-recover : Triple AtRest (recover_expired s req.domain) (λ _. AtRest) Ended
    Triple-recover =
        Triple-weaken AtRest _ _ _ (Triple-recover-Quiet s req.domain confirmed k) (λ h q. q)
          (λ _ h q. q) (λ o h q. inl q)

    Triple-firewall_snapshot :
        (desired : e.Firewall)
        → Triple AtRest
            (firewall_snapshot desired)
            (λ snapshot h. AtRest h × FirewallSnapshot e k snapshot)
            Ended
    unfolding firewall_snapshot read_ruleset
    Triple-firewall_snapshot desired =
        Triple-bind (λ raw h. AtRest h × (raw ≡ e.nft_list k)) _ _
          (Triple-recode AtRest internal _
            (Triple-bind (λ _. AtRest) _ _ (Triple-probe timeless (λ o h q. q))
              λ _. Triple-read _ (λ h q. (q, ap e.nft_list q.kernel)))
            (λ o h q. inl q))
          λ raw.
            Triple-require _ failed_precondition _
              (λ _.
                Triple-or_fail_last internal (nft_owned e raw)
                  (λ snapshot h found q. (q.0, rw (← q.1) found)) (λ h q. inl q.0))
              (λ h q _. inl q.0)

    Triple-net_snapshot :
        (desired : e.Netconfig)
        → Triple AtRest
            (net_snapshot desired)
            (λ snapshot h. AtRest h × (snapshot ≡ e.net_snapshot desired k))
            (λ _. AtRest)
    unfolding net_snapshot
    Triple-net_snapshot desired =
        Triple-bind (λ _. AtRest) _ _ (Triple-probe timeless (λ o h q. q))
          λ _. Triple-read _ (λ h q. (q, ap (e.net_snapshot desired) q.kernel))

  -- A pure fact beside the precondition is at hand for the rest.
  Triple-fact :
      {A X : Type 0} {P : Host e → Type 0} {Q : A → Host e → Type 0}
      {E : Option Code → Host e → Type 0} (m : M e A)
      → (X → Triple P m Q E)
      → Triple (λ h. P h × X) m Q E
  Triple-fact m t = record { run = λ h p. (t p.1).run h p.0 }

  module _ (req₀ : ApplyRequest e) where
    abbrev firewall_req : ApplyRequest e
    firewall_req = record req₀ { domain = "firewall" }

    pub Triple-apply_firewall :
        (placed : IsPlaced e "firewall" (legacy_name s "firewall"))
        → Triple
            (Quiet "firewall" (legacy_name s "firewall") confirmed k)
            (apply_firewall s addr firewall_req)
            (λ id.
              Leased "firewall"
                (legacy_name s "firewall")
                confirmed
                (FirewallSnapshot e k)
                addr
                firewall_req
                true
                id)
            (λ _. Covered "firewall" (legacy_name s "firewall") confirmed k (FirewallSnapshot e k))
    unfolding apply_firewall commit validate_syntax
    Triple-apply_firewall placed =
        let at_rest : Host e → Type 0 = AtRest firewall_req placed (FirewallSnapshot e k) in
        Triple-or_fail invalid_argument _ _
          (λ desired _.
            Triple-or_fail invalid_argument _ _
              (λ script _.
                Triple-bind (λ _. at_rest) _ _
                  (Triple-recode at_rest invalid_argument _
                    (Triple-probe (timeless firewall_req placed (FirewallSnapshot e k))
                      (λ o h q. q))
                    (λ o h q. inl q))
                  λ _.
                    Triple-bind (λ _. at_rest) _ _
                      (Triple-recover firewall_req placed (FirewallSnapshot e k))
                      λ _.
                        Triple-bind (λ snapshot h. at_rest h × FirewallSnapshot e k snapshot) _ _
                          (Triple-firewall_snapshot firewall_req placed (FirewallSnapshot e k)
                            desired)
                          λ snapshot. Triple-fact _ (
                            Triple-mutate json s addr firewall_req placed confirmed k
                              (FirewallSnapshot e k) (e.nft_commit script) snapshot))
              (λ h q _. inl q))
          (λ h q _. inl q)

    abbrev netconfig_req : ApplyRequest e
    netconfig_req = record req₀ { domain = "netconfig" }

    abbrev Undoes : e.Blob → Type 0
    Undoes = NetconfigSnapshot e req₀.desired_state_json k

    pub Triple-apply_netconfig :
        (placed : IsPlaced e "netconfig" (legacy_name s "netconfig"))
        → Triple
            (Quiet "netconfig" (legacy_name s "netconfig") confirmed k)
            (apply_netconfig s addr netconfig_req)
            (λ id.
              Leased "netconfig"
                (legacy_name s "netconfig")
                confirmed
                (NetconfigSnapshot e req₀.desired_state_json k)
                addr
                netconfig_req
                true
                id)
            (λ _.
              Covered "netconfig"
                (legacy_name s "netconfig")
                confirmed
                k
                (NetconfigSnapshot e req₀.desired_state_json k))
    unfolding apply_netconfig net_apply
    Triple-apply_netconfig placed =
        let at_rest : Host e → Type 0 = AtRest netconfig_req placed Undoes in
        Triple-or_fail invalid_argument _ _
          (λ desired parsed.
            Triple-require _ invalid_argument _
              (λ _.
                Triple-bind (λ _. at_rest) _ _ (Triple-recover netconfig_req placed Undoes)
                  λ _.
                    Triple-bind (λ snapshot h. at_rest h × (snapshot ≡ e.net_snapshot desired k)) _
                      _
                      (Triple-recode at_rest internal _
                        (Triple-net_snapshot netconfig_req placed Undoes desired) (λ o h q. inl q))
                      λ snapshot. Triple-fact _ λ taken.
                        Triple-mutate json s addr netconfig_req placed confirmed k Undoes
                          (e.net_apply desired) snapshot (desired, parsed, taken))
              (λ h q _. inl q))
          (λ h q _. inl q)
