-- ===== src/Rpc/Apply/Whole.antt =====
-- Apply as a caller meets it: from the connection to the lease.
use ghostd.Prelude.{
  String, ◌==◌, ◌≡◌, refl, sym, Bool, true, ◌||◌, Option, none, some, inl, arith, eq_iff, lookup,
  subst,
}
use ghostd.Env.{Env, IsJson}
use ghostd.Effect.{
  Host, Code, unauthenticated, permission_denied, invalid_argument, failed_precondition, internal,
}
use ghostd.Effect.Triple.{
  After, Triple, Triple-bind, Triple-recode, Triple-require, Triple-or_fail, Triple-weaken,
}
use ghostd.State.Domain.{lock}
use ghostd.State.Records.{IsPlaced, firewall_IsPlaced, netconfig_IsPlaced, Triple-probe, Timeless}
use ghostd.Auth.Grants.{Triple-authorize_deployer}
use ghostd.Rpc.Server.{
  Server, ApplyRequest, legacy_name, legacy-firewall, legacy-netconfig, peer_addr,
}
use ghostd.Rpc.Cover.{Quiet, Covered, Leased}
use ghostd.Rpc.Apply.Firewall.{
  FirewallSnapshot, NetconfigSnapshot, Triple-apply_firewall, Triple-apply_netconfig,
}
use ghostd.Rpc.Apply.{apply_firewall, apply_netconfig, dispatch, apply}

-- The three names under which a request is one of the firewall domain.
abbrev pub wants_firewall : String → Bool
wants_firewall domain =
    domain == "firewall" || (domain == "firewall-output-v1" || domain == "firewall-redirect-v1")

module _ {e : Env} where
  with_domain :
      (req : ApplyRequest e) (name : String)
      → req.domain ≡ name
      → record req { domain = name } ≡ req
  with_domain req name p = λ i. record {
    domain = sym p i;
    desired_state_json = req.desired_state_json;
    dead_man_switch_seconds = req.dead_man_switch_seconds;
  }

  pub dispatch-firewall :
      (s : Server e) (addr : String) (req : ApplyRequest e)
      → wants_firewall req.domain ≡ true
      → dispatch s addr req ≡ apply_firewall s addr (record req { domain = "firewall" })
  unfolding dispatch
  dispatch-firewall s addr req w =
      ground (arith, eq_iff req.domain "firewall", with_domain req "firewall")

  pub dispatch-netconfig :
      (s : Server e) (addr : String) (req : ApplyRequest e)
      → req.domain ≡ "netconfig"
      → dispatch s addr req ≡ apply_netconfig s addr (record req { domain = "netconfig" })
  unfolding dispatch
  dispatch-netconfig s addr req p =
      subst (λ r. dispatch s addr r ≡ apply_netconfig s addr (record r { domain = "netconfig" }))
        (with_domain req "netconfig" p) refl

  -- The gate before the dispatch: what keeps P through it is kept by Apply.
  Triple-apply :
      {P : Host e → Type 0} {Q : String → Host e → Type 0} {E : Option Code → Host e → Type 0}
      (s : Server e) (peer : Option String) (req : ApplyRequest e)
      → Timeless P
      → ((o : Option Code) (h : Host e) → P h → E o h)
      → ((addr : String) → peer ≡ some addr → Triple P (dispatch s addr req) Q E)
      → Triple P (apply s peer req) Q E
  unfolding apply peer_addr lock
  Triple-apply {P} s peer req timeless ends inside =
      Triple-require _ failed_precondition _
        (λ _.
          Triple-or_fail unauthenticated peer _
            (λ addr from.
              Triple-bind (λ _. P) _ _
                (Triple-recode P permission_denied _
                  (Triple-authorize_deployer timeless s.authenticator addr) ends)
                λ id.
                  Triple-require _ invalid_argument _
                    (λ _.
                      Triple-bind (λ _. P) _ _
                        (Triple-recode P internal _ (Triple-probe timeless (λ o h p. p)) ends)
                        λ _. inside addr from)
                    (λ h p _. ends (some invalid_argument) h p))
            (λ h p _. ends (some unauthenticated) h p))
        (λ h p _. ends (some failed_precondition) h p)

module _ {e : Env} (s : Server e) (peer : Option String) (req : ApplyRequest e) (confirmed : e.Blob)
    (k : e.Kernel) (domain legacy : String) where
  abbrev pub AtRest : Host e → Type 0
  AtRest = Quiet domain legacy confirmed k

  -- A lease for this connection and request, with an armed timer.
  abbrev pub Granted : (e.Blob → Type 0) → String → Host e → Type 0
  Granted IsSnapshot id h =
      (addr : String) × (peer ≡ some addr)
      × Leased domain legacy confirmed IsSnapshot addr (record req { domain = domain }) true id h

  abbrev pub Ended : (e.Blob → Type 0) → Option Code → Host e → Type 0
  Ended IsSnapshot o = Covered domain legacy confirmed k IsSnapshot

  AtRest-timeless : Timeless AtRest
  AtRest-timeless h q = record { record_is = q.record_is; kernel = q.kernel }

  -- Apply keeps its promise from rest.
  abbrev pub Applies : (e.Blob → Type 0) → Type 0
  Applies IsSnapshot =
      (h : Host e) → AtRest h → After (Granted IsSnapshot) (Ended IsSnapshot) (apply s peer req h)

module _ {e : Env} (json : IsJson e) (s : Server e) (peer : Option String) (req : ApplyRequest e)
    (confirmed : e.Blob) (k : e.Kernel) where
  firewall_Applies :
      IsPlaced e "firewall" (legacy_name s "firewall")
      → wants_firewall req.domain ≡ true
      → Applies s peer req confirmed k "firewall" (legacy_name s "firewall") (FirewallSnapshot e k)
  firewall_Applies placed wants =
      let E : Option Code → Host e → Type 0 =
        Ended s peer req confirmed k "firewall" (legacy_name s "firewall") (FirewallSnapshot e k) in
      let rest : Host e → Type 0 =
        AtRest s peer req confirmed k "firewall" (legacy_name s "firewall") in
      (Triple-apply {P = rest} {E = E} s peer req
        (AtRest-timeless s peer req confirmed k "firewall" (legacy_name s "firewall"))
        (λ o h q. inl q)
        λ addr from. rw (dispatch-firewall s addr req wants) (
          Triple-weaken rest _ _ _ (Triple-apply_firewall json s addr confirmed k req placed)
            (λ h q. q) (λ id h l. (addr, from, l)) (λ o h c. c))).run

  netconfig_Applies :
      IsPlaced e "netconfig" (legacy_name s "netconfig")
      → req.domain ≡ "netconfig"
      → Applies s peer req confirmed k "netconfig"
          (legacy_name s "netconfig")
          (NetconfigSnapshot e req.desired_state_json k)
  netconfig_Applies placed wants =
      let E : Option Code → Host e → Type 0 =
        Ended s peer req confirmed k "netconfig" (legacy_name s "netconfig")
          (NetconfigSnapshot e req.desired_state_json k) in
      let rest : Host e → Type 0 =
        AtRest s peer req confirmed k "netconfig" (legacy_name s "netconfig") in
      (Triple-apply {P = rest} {E = E} s peer req
        (AtRest-timeless s peer req confirmed k "netconfig" (legacy_name s "netconfig"))
        (λ o h q. inl q)
        λ addr from. rw (dispatch-netconfig s addr req wants) (
          Triple-weaken rest _ _ _ (Triple-apply_netconfig json s addr confirmed k req placed)
            (λ h q. q) (λ id h l. (addr, from, l)) (λ o h c. c))).run

  -- Apply of a firewall request, under any of its three names, on a domain at rest, whatever each
  -- system call and command does and wherever the process dies. If it succeeds, the record has a
  -- confirmable lease for this connection, with the deadline and target asked for and our part of
  -- the ruleset as it was, and the timer of that lease is armed. If it does not, either no lease is
  -- pending and the kernel is as it was, or a lease is pending that holds that snapshot. The
  -- confirmed state is the same in every case. It is assumed that encoding/json reads back what it
  -- wrote, and that no optional feature takes the name of the domain.
  pub apply_firewall-Covered :
      lookup "firewall" s.extra_domains ≡ none
      → wants_firewall req.domain ≡ true
      → (h : Host e) → Quiet "firewall" "nft-ruleset.json" confirmed k h
      → After
          (Granted s peer req confirmed k "firewall" "nft-ruleset.json" (FirewallSnapshot e k))
          (Ended s peer req confirmed k "firewall" "nft-ruleset.json" (FirewallSnapshot e k))
          (apply s peer req h)
  apply_firewall-Covered core wants =
      subst
        (λ legacy.
          IsPlaced e "firewall" legacy
          → Applies s peer req confirmed k "firewall" legacy (FirewallSnapshot e k))
        (legacy-firewall s core) (λ placed. firewall_Applies placed wants) (firewall_IsPlaced e)

  -- Apply of a netconfig request, on a domain at rest, whatever each system call and command does
  -- and wherever the process dies. If it succeeds, the record has a confirmable lease for this
  -- connection, with the deadline and target asked for and the snapshot that undoes the parsed
  -- request on the host as it was, and the timer of that lease is armed. If it does not, either no
  -- lease is pending and the kernel is as it was, or a lease is pending that holds that snapshot.
  -- The confirmed state is the same in every case. It is assumed that encoding/json reads back what
  -- it wrote, and that no optional feature takes the name of the domain.
  pub apply_netconfig-Covered :
      lookup "netconfig" s.extra_domains ≡ none
      → req.domain ≡ "netconfig"
      → (h : Host e) → Quiet "netconfig" "netconfig-state.json" confirmed k h
      → After
          (Granted s peer req confirmed k "netconfig" "netconfig-state.json"
            (NetconfigSnapshot e req.desired_state_json k))
          (Ended s peer req confirmed k "netconfig" "netconfig-state.json"
            (NetconfigSnapshot e req.desired_state_json k))
          (apply s peer req h)
  apply_netconfig-Covered core wants =
      subst
        (λ legacy.
          IsPlaced e "netconfig" legacy
          → Applies s peer req confirmed k "netconfig" legacy
              (NetconfigSnapshot e req.desired_state_json k))
        (legacy-netconfig s core) (λ placed. netconfig_Applies placed wants) (netconfig_IsPlaced e)
