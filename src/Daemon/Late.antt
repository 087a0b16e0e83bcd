-- ===== src/Daemon/Late.antt =====
-- Timers that fire late, in cmd/ghostd/main.go.
use ghostd.Prelude.{
  String, ◌==◌, ◌≡◌, sym, ◌∙◌, false, ◌||◌, Option, none, some, if◌then◌else◌, some_inj, subst,
}
use ghostd.Env.{Env, DomainState, Pending}
use ghostd.Effect.{Host, M, Code, plain}
use ghostd.Effect.Same.{Same, Same-refl, Same-advance}
use ghostd.Effect.Triple.{After, Triple, Triple-bind, Triple-or_fail, Triple-pure}
use ghostd.State.Domain.{lock}
use ghostd.State.Records.{stored, Timeless, Triple-probe, Triple-domain_state}
use ghostd.Rpc.Confirm.Candidate.{stored-Same}
use ghostd.Daemon.{Hooks, domain_key, revert_pending, replay, recover_domain, run_revert}

-- No pending lease has this id.
abbrev pub NotPending : {Blob : Type 0} → Option (Pending Blob) → String → Type 0
NotPending none lease_id = Unit
NotPending (some p) lease_id = (p.id == lease_id) ≡ false

module _ {e : Env} (hooks : Hooks e) (h₀ : Host e) where
  timeless : Timeless (Same h₀)
  timeless h q = Same-advance h₀ h q

  keep : (o : Option Code) (h : Host e) → Same h₀ h → Same h₀ h
  keep o h q = q

  module _ (domain key lease_id : String) (d : DomainState e.Blob)
      (known : domain_key hooks domain ≡ some key) (id : (lease_id == "") ≡ false)
      (was : stored domain key h₀ ≡ some d) (over : NotPending d.pending lease_id) where
    abbrev Still : M e (Unit {0}) → Type 0
    Still m = Triple (Same h₀) m (λ _. Same h₀) (λ _. Same h₀)

    abbrev next_step : Option (Pending e.Blob) → M e (Unit {0})
    next_step o = elim o [
      | none ↦ replay hooks domain lease_id d
      | some p ↦
          if lease_id == "" || p.id == lease_id
          then revert_pending hooks domain d p
          else replay hooks domain lease_id d
    ]

    abbrev continue_with : DomainState e.Blob → M e (Unit {0})
    continue_with x = elim x.pending [
      | none ↦ replay hooks domain lease_id x
      | some p ↦
          if lease_id == "" || p.id == lease_id
          then revert_pending hooks domain x p
          else replay hooks domain lease_id x
    ]

    Still-replay : Still (replay hooks domain lease_id d)
    unfolding replay
    Still-replay = rw id (Triple-pure tt (λ h q. q))

    Still-next_step : (o : Option (Pending e.Blob)) → NotPending o lease_id → Still (next_step o)
    Still-next_step none other = Still-replay
    Still-next_step (some p) other = rw (id, other) Still-replay

    Still-recover_domain : Still (recover_domain hooks domain lease_id)
    unfolding recover_domain
    Still-recover_domain =
        Triple-or_fail plain (domain_key hooks domain) _
          (λ name found.
            Triple-bind (λ x h. Same h₀ h × (stored domain key h ≡ some x)) _ _
              (rw (some_inj (sym found ∙ known)) (Triple-domain_state timeless keep domain key))
              λ x. record {
                run = λ h q.
                    subst (λ y. After (λ _. Same h₀) (λ _. Same h₀) (continue_with y h))
                      (some_inj (sym (stored-Same domain key h₀ h q.0 ∙ was) ∙ q.1))
                      ((Still-next_step d.pending over).run h q.0);
              })
          (λ h q _. q)

    Still-run_revert : Still (run_revert hooks lease_id domain)
    unfolding run_revert lock
    Still-run_revert =
        Triple-bind (λ _. Same h₀) _ _ (Triple-probe timeless keep) λ _. Still-recover_domain

-- A timer that fires when its lease is no longer the pending one, because the lease was confirmed or
-- rolled back or another one has followed it, changes nothing, whatever each call does.
pub late_revert :
    {e : Env} (hooks : Hooks e) (domain key lease_id : String) (d : DomainState e.Blob) (h : Host e)
    → domain_key hooks domain ≡ some key
    → (lease_id == "") ≡ false
    → stored domain key h ≡ some d
    → NotPending d.pending lease_id
    → After (λ _. Same h) (λ _. Same h) (run_revert hooks lease_id domain h)
late_revert hooks domain key lease_id d h known id was over =
    (Still-run_revert hooks h domain key lease_id d known id was over).run h (Same-refl h)
