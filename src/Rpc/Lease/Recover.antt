-- ===== src/Rpc/Lease/Recover.antt =====
-- recoverExpired in internal/rpc/server.go, on a domain with no pending lease.
use ghostd.Prelude.{String, ◌≡◌, sym, ◌∙◌, none, some, some_inj}
use ghostd.Env.{Env, DomainState}
use ghostd.Effect.{Host, M, internal, pure, advance}
use ghostd.Effect.Triple.{Triple, Triple-bind, Triple-pure, Triple-recode, Triple-at}
use ghostd.State.Records.{stored, Triple-domain_state}
use ghostd.Rpc.Server.{Server, legacy_name}
use ghostd.Rpc.Cover.{Quiet}
use ghostd.Rpc.Lease.{recover_expired, recover_pending}

module _ {e : Env} (s : Server e) (domain : String) (confirmed : e.Blob) where
  abbrev legacy : String
  legacy = legacy_name s domain

  abbrev resting : DomainState e.Blob
  resting = record { confirmed = confirmed; pending = none }

  abbrev next_step : DomainState e.Blob → M e (Unit {0})
  next_step d = elim d.pending [ none ↦ pure tt | some p ↦ recover_pending s domain d p ]

  Quiet-advance :
      (k : e.Kernel) (h : Host e)
      → Quiet domain legacy confirmed k h
      → Quiet domain legacy confirmed k (advance h)
  Quiet-advance k h q = record { record_is = q.record_is; kernel = q.kernel }

  -- Nothing is pending: nothing is done.
  pub Triple-recover-Quiet :
      (k : e.Kernel)
      → Triple
          (Quiet domain legacy confirmed k)
          (recover_expired s domain)
          (λ _. Quiet domain legacy confirmed k)
          (λ _. Quiet domain legacy confirmed k)
  unfolding recover_expired
  Triple-recover-Quiet k =
      Triple-bind (λ d h. Quiet domain legacy confirmed k h × (stored domain legacy h ≡ some d)) _ _
        (Triple-recode (Quiet domain legacy confirmed k) internal _
          (Triple-domain_state (Quiet-advance k) (λ o h q. q) domain legacy) (λ o h q. q))
        λ d.
          Triple-at next_step d resting (λ h q. some_inj (sym q.1 ∙ q.0.record_is))
            (Triple-pure tt (λ h q. q.0))
