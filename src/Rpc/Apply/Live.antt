-- ===== src/Rpc/Apply/Live.antt =====
-- Apply in internal/rpc/server.go, where nothing stands against a firewall request.
use ghostd.Prelude.{
  ℕ, ℤ, pos, negsuc, ◌*◌, String, ◌≡◌, refl, sym, ◌∙◌, true, false, not, ◌||◌, Option, none, some,
  arith, is_positive, pos_part, ltb, lookup, subst, some_inj, ap,
}
use ghostd.Env.{Env, IsJson, Caller}
use ghostd.Nft.Owned.{nft_owned}
use ghostd.Effect.{
  Host, Code, Outcome, done, failed, crashed, unauthenticated, permission_denied, invalid_argument,
  failed_precondition, internal, ◌>>◌, require, or_fail,
}
use ghostd.Effect.Triple.{
  After, Triple, Triple-bind, Triple-recode, Triple-require, Triple-or_fail, Triple-read, Triple-at,
}
use ghostd.State.Domain.{lock}
use ghostd.State.Leases.{second}
use ghostd.State.Records.{IsPlaced, firewall_IsPlaced, Timeless}
use ghostd.State.Live.{AllFine, Returns, Triple-probe_live, Triple-returned}
use ghostd.Auth.{Authenticator, authorize_deployer}
use ghostd.Auth.Grants.{MayDeploy, authorize_deployer_iff}
use ghostd.Rpc.Server.{Server, ApplyRequest, legacy_name, legacy-firewall, peer_addr}
use ghostd.Rpc.Executors.{validate_syntax, read_ruleset, commit}
use ghostd.Rpc.Cover.{Quiet}
use ghostd.Rpc.Lease.Live.{InTime, Never, Triple-recover_live, Triple-mutate_live}
use ghostd.Rpc.Apply.Firewall.{FirewallSnapshot}
use ghostd.Rpc.Apply.Whole.{
  wants_firewall, dispatch-firewall, Granted, Ended, apply_firewall-Covered,
}
use ghostd.Rpc.Apply.{firewall_snapshot, apply_firewall, apply}

timeout-positive : (z : ℤ) → is_positive z ≡ true → ltb 0 (pos_part z * second) ≡ true
timeout-positive (pos n) h = ground arith
timeout-positive (negsuc n) h = cc

-- The overlay names a caller for this address that may deploy, whenever it is asked.
abbrev pub Admitted : (e : Env) → Authenticator → String → Type 0
Admitted e a addr =
    (n : ℕ) → (c : Caller e.Blob) × (e.whois n addr ≡ some (some c)) × MayDeploy e a c

-- A document that the firewall takes while its rules are those of k.
pub record IsAcceptable (e : Env) (k : e.Kernel) (document : e.Blob) : Type 0 where
  pub desired : e.Firewall
  pub script : e.Script
  pub snapshot : e.Blob
  pub parses : e.nft_parse document ≡ some desired
  pub renders : e.nft_render desired ≡ some script
  pub coexists : (not (e.nft_redirect_only desired) || e.nft_coexists (e.nft_list k)) ≡ true
  pub owned : FirewallSnapshot e k snapshot

module _ {e : Env} {A : Type 0} where
  After-done :
      (P : Host e → Type 0) (E : Option Code → Host e → Type 0) (a : A) (r : Outcome A × Host e)
      → r.0 ≡ done a
      → P r.1
      → After (λ _. P) E r
  After-done P E a (done x, h) q p = p
  After-done P E a (failed c, h) q p = cc
  After-done P E a (crashed, h) q p = cc

module _ {e : Env} {P : Host e → Type 0} {E : Option Code → Host e → Type 0}
    (timeless : Timeless P) where
  Triple-authorize_live :
      (a : Authenticator) (addr : String)
      → Admitted e a addr
      → Triple P (authorize_deployer a addr) (λ _. P) E
  Triple-authorize_live a addr admitted = record {
    run = λ h p.
        let asked = authorize_deployer_iff e a addr h in
        let passed = asked.0.1 (admitted h.step) in
        After-done P E passed.0 (authorize_deployer a addr h) passed.1 (rw asked.1 (timeless h p));
  }

module _ {e : Env} (well : AllFine e) (json : IsJson e) (in_time : InTime e) (s : Server e)
    (addr : String) (req : ApplyRequest e) (confirmed : e.Blob) (k : e.Kernel)
    (placed : IsPlaced e "firewall" (legacy_name s "firewall"))
    (positive : is_positive req.dead_man_switch_seconds ≡ true)
    (ok : IsAcceptable e k req.desired_state_json) where
  abbrev firewall_req : ApplyRequest e
  firewall_req = record req { domain = "firewall" }

  abbrev AtRest : Host e → Type 0
  AtRest = Quiet "firewall" (legacy_name s "firewall") confirmed k

  AtRest-timeless : Timeless AtRest
  AtRest-timeless h q = record { record_is = q.record_is; kernel = q.kernel }

  Triple-snapshot_live : Triple AtRest (firewall_snapshot ok.desired) (λ _. AtRest) Never
  unfolding firewall_snapshot read_ruleset or_fail
  Triple-snapshot_live =
      Triple-bind (λ raw h. AtRest h × (raw ≡ e.nft_list k)) _ _
        (Triple-recode (λ _. ⊥) internal _
          (Triple-bind (λ _. AtRest) _ _ (Triple-probe_live well AtRest-timeless)
            λ _. Triple-read _ (λ h q. (q, ap e.nft_list q.kernel)))
          (λ o h z. z))
        λ raw.
          Triple-at {P = λ h. AtRest h × (raw ≡ e.nft_list k)}
            (λ raw.
              require (not (e.nft_redirect_only ok.desired) || e.nft_coexists raw)
                failed_precondition
              >> or_fail internal (nft_owned e raw))
            raw (e.nft_list k) (λ h q. q.1)
            (Triple-require _ failed_precondition _
              (λ _.
                Triple-at {P = λ h. AtRest h × (raw ≡ e.nft_list k)} (or_fail internal)
                  (nft_owned e (e.nft_list k)) (some ok.snapshot) (λ h q. ok.owned)
                  (record { run = λ h q. q.0 }))
              (λ h q no. cc (ok.coexists, no)))

  Triple-apply_firewall_live : Returns e AtRest (apply_firewall s addr firewall_req)
  unfolding apply_firewall commit validate_syntax
  Triple-apply_firewall_live =
      Triple-or_fail invalid_argument _ _
        (λ desired q. rw (some_inj (sym q ∙ ok.parses)) (
          Triple-or_fail invalid_argument _ _
            (λ script q'.
              Triple-bind (λ _. AtRest) _ _
                (Triple-recode (λ _. ⊥) invalid_argument _ (Triple-probe_live well AtRest-timeless)
                  (λ o h z. z))
                λ _.
                  Triple-bind (λ _. AtRest) _ _
                    (Triple-recover_live well s "firewall" placed confirmed k)
                    λ _.
                      Triple-bind (λ _. AtRest) _ _ Triple-snapshot_live
                        λ snapshot.
                          Triple-mutate_live well json s addr firewall_req placed confirmed
                            (timeout-positive req.dead_man_switch_seconds positive) refl in_time
                            (e.nft_commit script) snapshot k)
            (λ h p q'. cc (ok.renders, q'))))
        (λ h p q. cc (ok.parses, q))

  Triple-apply_live :
      s.observe_only ≡ false
      → Admitted e s.authenticator addr
      → wants_firewall req.domain ≡ true
      → Returns e AtRest (apply s (some addr) req)
  unfolding apply peer_addr lock
  Triple-apply_live acting admitted wants =
      Triple-require _ failed_precondition _
        (λ _.
          Triple-or_fail unauthenticated (some addr) _
            (λ from q.
              Triple-bind (λ _. AtRest) _ _
                (Triple-recode (λ _. ⊥) permission_denied _
                  (rw (← some_inj q)
                    (Triple-authorize_live AtRest-timeless s.authenticator addr admitted))
                  (λ o h z. z))
                λ id.
                  Triple-require _ invalid_argument _
                    (λ _.
                      Triple-bind (λ _. AtRest) _ _
                        (Triple-recode (λ _. ⊥) internal _ (Triple-probe_live well AtRest-timeless)
                          (λ o h z. z))
                        λ _.
                          rw (dispatch-firewall s from req wants, ← some_inj q)
                            Triple-apply_firewall_live)
                    (λ h p no. cc (positive, no)))
            (λ h p q. cc))
        (λ h p no. cc (acting, no))

-- An Apply of a firewall request goes through where nothing stands against it: the daemon is not in
-- observation mode, the overlay names a caller that may deploy whenever it is asked, the timeout is
-- positive, the domain is at rest, the request parses, renders and coexists with the live ruleset,
-- our part of that ruleset can be read, no system call or command fails and the context is never
-- over. It then returns with a complete lease, as after any success.
pub apply_firewall-Granted :
    {e : Env} (json : IsJson e) (s : Server e) (addr : String) (req : ApplyRequest e)
    (confirmed : e.Blob) (k : e.Kernel)
    → AllFine e
    → InTime e
    → lookup "firewall" s.extra_domains ≡ none
    → wants_firewall req.domain ≡ true
    → s.observe_only ≡ false
    → Admitted e s.authenticator addr
    → is_positive req.dead_man_switch_seconds ≡ true
    → IsAcceptable e k req.desired_state_json
    → (h : Host e) → Quiet "firewall" "nft-ruleset.json" confirmed k h
    → After
        (Granted s (some addr) req confirmed k "firewall" "nft-ruleset.json" (FirewallSnapshot e k))
        (λ _ _. ⊥)
        (apply s (some addr) req h)
apply_firewall-Granted {e} json s addr req confirmed k well in_time core wants acting admitted
      positive ok h q =
    (Triple-returned {E = λ _ _. ⊥}
        (Ended s (some addr) req confirmed k "firewall" "nft-ruleset.json" (FirewallSnapshot e k)) _
        (subst
          (λ legacy.
            IsPlaced e "firewall" legacy
            → Returns e (Quiet "firewall" legacy confirmed k) (apply s (some addr) req))
          (legacy-firewall s core)
          (λ placed.
            Triple-apply_live well json in_time s addr req confirmed k placed positive ok acting
              admitted wants)
          (firewall_IsPlaced e))
        (record { run = apply_firewall-Covered json s (some addr) req confirmed k core wants })).run
      h q
