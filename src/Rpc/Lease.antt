-- ===== src/Rpc/Lease.antt =====
-- internal/rpc/server.go: begin, finishApply and recoverExpired, the lease around each mutation.
pub mod Begin
pub mod Finish
pub mod Recover
pub mod Live
use ghostd.Prelude.{
  ℕ, ◌+◌, ◌*◌, String, ◌==◌, ◌≡◌, Bool, true, false, not, Option, none, some, if◌then◌else◌, ltb,
  pos_part, lookup,
}
use ghostd.Env.{Env, DomainState, Pending}
use ghostd.Effect.{
  Host, M, done, on_error, panic, ◌>>=◌, ◌>>◌, pure, raise, recode, require, ignore, internal,
  failed_precondition, deadline_exceeded, now, ctx_err, advance,
}
use ghostd.State.Domain.{domain_state, save_domain}
use ghostd.State.Leases.{arm, second}
use ghostd.Rpc.Server.{Server, ApplyRequest, DomainImpl, legacy_name}
use ghostd.Rpc.Executors.{nft_restore, net_rollback}

module _ {e : Env} where
  -- state.NewLeaseID
  unfoldable pub new_lease_id : M e String
  new_lease_id h = (done (e.new_lease_id h.step), advance h)

  -- Restoring a snapshot, by domain.
  unfoldable pub restore_snapshot : Server e → String → e.Blob → M e (Unit {0})
  restore_snapshot s domain snapshot =
      if domain == "firewall" then nft_restore snapshot else elim (lookup domain s.extra_domains) [
        | some d ↦ d.restore snapshot
        | none ↦ net_rollback snapshot
      ]

  unfoldable pub recover_pending :
      Server e → String → DomainState e.Blob → Pending e.Blob → M e (Unit {0})
  recover_pending s domain d p = do
    time ← now
    require (not (ltb time p.deadline)) failed_precondition
    require (not (e.is_empty p.snapshot)) internal
    recode internal (restore_snapshot s domain p.snapshot)
    recode internal (save_domain domain (record d { pending = none }))

  unfoldable pub recover_expired : Server e → String → M e (Unit {0})
  recover_expired s domain = do
    d ← recode internal (domain_state domain (legacy_name s domain))
    elim d.pending [ none ↦ pure tt | some p ↦ recover_pending s domain d p ]

  -- What a failed timer leaves to do: clear the record again, and report the error.
  arm_or_clear : String → String → ℕ → DomainState e.Blob → M e (Unit {0})
  arm_or_clear domain id timeout d =
      on_error (arm id domain timeout) (λ c. ignore (save_domain domain d) >> raise internal)

  begin_fresh : String → ApplyRequest e → e.Blob → DomainState e.Blob → M e String
  unfolding arm_or_clear
  begin_fresh addr req snapshot d = do
    id ← new_lease_id
    let timeout = pos_part req.dead_man_switch_seconds * second
    time ← now
    recode internal (
        save_domain req.domain (record d {
          pending = some (record {
            applied = false;
            id = id;
            deadline = time + timeout;
            snapshot = snapshot;
            target = req.desired_state_json;
            peer = addr;
          });
        }))
    arm_or_clear req.domain id timeout (record d { pending = none })
    pure id

  -- Called before the first mutation.
  unfoldable pub begin : Server e → String → ApplyRequest e → e.Blob → M e String
  unfolding begin_fresh
  begin s addr req snapshot = do
    d ← recode internal (domain_state req.domain (legacy_name s req.domain))
    elim d.pending [ none ↦ begin_fresh addr req snapshot d | some p ↦ raise failed_precondition ]

  -- d.Pending.Applied = true, through a pointer that may be nil
  mark_applied : DomainState e.Blob → M e (DomainState e.Blob)
  mark_applied d = elim d.pending [
    | none ↦ panic
    | some p ↦ pure (record d { pending = some (record p { applied = true }) })
  ]

  unfoldable pub finish_apply : Server e → String → String → M e String
  unfolding mark_applied
  finish_apply s domain id = do
    over ← ctx_err
    require (not over) deadline_exceeded
    d ← recode internal (domain_state domain (legacy_name s domain))
    applied ← mark_applied d
    recode internal (save_domain domain applied)
    pure id
