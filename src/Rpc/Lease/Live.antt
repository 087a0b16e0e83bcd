-- ===== src/Rpc/Lease/Live.antt =====
-- begin, finishApply and recoverExpired in internal/rpc/server.go, where no call fails.
use ghostd.Prelude.{
  ◌≤◌, ℕ, String, ◌==◌, ◌≡◌, sym, Bool, true, false, Option, none, some, subst, ltb,
}
use ghostd.Env.{Env, DomainState, Pending, IsJson}
use ghostd.Effect.{
  Host, M, Code, internal, failed_precondition, deadline_exceeded, ◌>>=◌, ◌>>◌, pure, raise, recode,
  advance, ctx_err,
}
use ghostd.Effect.Triple.{
  After, Triple-exists, Triple, Triple-bind, Triple-pure, Triple-recode, Triple-on_error,
  Triple-now, Triple-at, Triple-weaken, Triple-require,
}
use ghostd.State.Records.{stored, IsPlaced, Saved, Timeless}
use ghostd.State.Live.{
  AllFine, Anyhow, Triple-sys_live, Triple-domain_state_live, Triple-save_domain_live,
  Triple-arm_live,
}
use ghostd.State.Domain.{save_domain}
use ghostd.Rpc.Server.{Server, ApplyRequest, legacy_name}
use ghostd.Rpc.Executors.{enact}
use ghostd.Rpc.Cover.{Quiet, timeout_of}
use ghostd.Rpc.Lease.{
  new_lease_id, begin, begin_fresh, arm_or_clear, mark_applied, finish_apply, recover_expired,
  recover_pending,
}

-- Nothing runs out of time.
abbrev pub InTime : Env → Type 0
InTime e = (n : ℕ) → e.ctx_done n ≡ false

abbrev pub Never : {e : Env} → Option Code → Host e → Type 0
Never o h = ⊥

module _ {e : Env} (well : AllFine e) (s : Server e) (domain : String)
    (placed : IsPlaced e domain (legacy_name s domain)) (confirmed : e.Blob) where
  abbrev legacy : String
  legacy = legacy_name s domain

  abbrev resting : DomainState e.Blob
  resting = record { confirmed = confirmed; pending = none }

  -- Some lease is pending.
  abbrev pub Noted : Host e → Type 0
  Noted h =
      (lease : Pending e.Blob) × (stored domain legacy h
        ≡ some (record { confirmed = confirmed; pending = some lease }))

  abbrev next_step : DomainState e.Blob → M e (Unit {0})
  next_step d = elim d.pending [ none ↦ pure tt | some p ↦ recover_pending s domain d p ]

  Quiet-advance : (k : e.Kernel) → Timeless (Quiet {e = e} domain legacy confirmed k)
  Quiet-advance k h q = record { record_is = q.record_is; kernel = q.kernel }

  pub Triple-recover_live :
      (k : e.Kernel)
      → Triple
          (Quiet domain legacy confirmed k)
          (recover_expired s domain)
          (λ _. Quiet domain legacy confirmed k)
          Never
  unfolding recover_expired
  Triple-recover_live k =
      Triple-bind (λ d h. Quiet domain legacy confirmed k h × (d ≡ resting)) _ _
        (Triple-recode (λ _. ⊥) internal _
          (Triple-domain_state_live well (Quiet-advance k) domain legacy placed.known resting
            (λ h q. q.record_is))
          (λ o h z. z))
        λ d. Triple-at next_step d resting (λ h q. q.1) (Triple-pure tt (λ h q. q.0))

module _ {e : Env} (well : AllFine e) (json : IsJson e) (s : Server e) (addr : String)
    (req : ApplyRequest e) (placed : IsPlaced e req.domain (legacy_name s req.domain))
    (confirmed : e.Blob) (positive : ltb 0 (timeout_of req) ≡ true)
    (named : (req.domain == "") ≡ false) where
  abbrev AtRest : e.Kernel → Host e → Type 0
  AtRest = Quiet req.domain (legacy_name s req.domain) confirmed

  abbrev InLease : Host e → Type 0
  InLease = Noted well s req.domain placed confirmed

  InLease-timeless :
      (h : Host e) (ts : _) (us : _) (n : ℕ)
      → h.step ≤ n
      → InLease h
      → InLease (record h { timers = ts; units = us; step = n })
  InLease-timeless h ts us n le p = (p.0, p.1)

  InLease-Saved :
      (lease : Pending e.Blob) (h h' : Host e)
      → Saved req.domain
          (legacy_name s req.domain)
          (record { confirmed = confirmed; pending = some lease })
          h
          h'
      → InLease h'
  InLease-Saved lease h h' w = (lease, w.record_is)

  Triple-new_lease_id :
      {B : Type 0} {Q : B → Host e → Type 0} {E : Option Code → Host e → Type 0} (k : e.Kernel)
      (f : String → M e B)
      → ((id : String) → Triple (AtRest k) (f id) Q E)
      → Triple (AtRest k) (new_lease_id >>= f) Q E
  unfolding ◌>>=◌ new_lease_id
  Triple-new_lease_id k f kf = record {
    run = λ h q.
        (kf (e.new_lease_id h.step)).run (advance h)
          (Quiet-advance well s req.domain placed confirmed k h q);
  }

  Triple-arm_or_clear_live :
      (id : String) (d : DomainState e.Blob)
      → Triple InLease (arm_or_clear req.domain id (timeout_of req) d) (λ _. InLease) Never
  unfolding arm_or_clear
  Triple-arm_or_clear_live id d =
      Triple-on_error (λ _. ⊥) _ _
        (Triple-arm_live well InLease-timeless id req.domain (timeout_of req) positive named)
        (λ c. record { run = λ h z. elim z [ ] }) (λ h z. z)

  Triple-begin_fresh_live :
      (snapshot : e.Blob) (k : e.Kernel)
      → Triple
          (AtRest k)
          (begin_fresh addr req snapshot (record { confirmed = confirmed; pending = none }))
          (λ _. InLease)
          Never
  unfolding begin_fresh
  Triple-begin_fresh_live snapshot k = Triple-new_lease_id k _ λ id.
      Triple-now (Quiet-advance well s req.domain placed confirmed k) _ λ begun.
        Triple-bind (λ _. InLease) _ _
          (Triple-recode (λ _. ⊥) internal _
            (Triple-save_domain_live well json placed _ (λ h h' q w. InLease-Saved _ h h' w))
            (λ o h z. z))
          λ _.
            Triple-bind (λ _. InLease) _ _ (Triple-arm_or_clear_live id _)
              λ _. Triple-pure id (λ h b. b)

  Triple-begin_live :
      (snapshot : e.Blob) (k : e.Kernel)
      → Triple (AtRest k) (begin s addr req snapshot) (λ _. InLease) Never
  unfolding begin
  Triple-begin_live snapshot k =
      Triple-bind (λ d h. AtRest k h × (d ≡ record { confirmed = confirmed; pending = none })) _ _
        (Triple-recode (λ _. ⊥) internal _
          (Triple-domain_state_live well (Quiet-advance well s req.domain placed confirmed k)
            req.domain (legacy_name s req.domain) placed.known _ (λ h q. q.record_is))
          (λ o h z. z))
        λ d.
          Triple-at
            (λ d. elim d.pending [
              | none ↦ begin_fresh addr req snapshot d
              | some p ↦ raise failed_precondition
            ])
            d (record { confirmed = confirmed; pending = none }) (λ h q. q.1)
            (Triple-weaken (AtRest k) _ _ _ (Triple-begin_fresh_live snapshot k) (λ h q. q.0)
              (λ _ h q. q) (λ o h z. z))

  Triple-enact_live : (f : e.Kernel → e.Kernel) → Triple InLease (enact f) (λ _. InLease) (λ _ _. ⊥)
  unfolding enact
  Triple-enact_live f = Triple-sys_live well _ _ (λ h p. (p.0, p.1))

  abbrev rest_of_finish : String → DomainState e.Blob → M e String
  rest_of_finish id d = do
    applied ← mark_applied d
    recode internal (save_domain req.domain applied)
    pure id

  abbrev Holding : Pending e.Blob → Host e → Type 0
  Holding lease h =
      stored req.domain (legacy_name s req.domain) h
      ≡ some (record { confirmed = confirmed; pending = some lease })

  Triple-ctx_err_live :
      {B : Type 0} {Q : B → Host e → Type 0} {E : Option Code → Host e → Type 0}
      (lease : Pending e.Blob) (f : Bool → M e B)
      → InTime e
      → Triple (Holding lease) (f false) Q E
      → Triple (Holding lease) (ctx_err >>= f) Q E
  unfolding ◌>>=◌ ctx_err
  Triple-ctx_err_live {Q} {E} lease f in_time t = record {
    run = λ h p.
        subst (λ b. After Q E (f b (advance h))) (sym (in_time h.step)) (t.run (advance h) p);
  }

  Triple-rest_of_finish_live :
      (lease : Pending e.Blob) (id : String)
      → Triple
          (Holding lease)
          (rest_of_finish id (record { confirmed = confirmed; pending = some lease }))
          (λ _. Anyhow e)
          Never
  unfolding mark_applied
  Triple-rest_of_finish_live lease id =
      Triple-bind (λ d h. Holding lease h) _ _ (Triple-pure _ (λ h p. p))
        λ d.
          Triple-bind (λ _. Anyhow e) _ _
            (Triple-recode (λ _. ⊥) internal _
              (Triple-save_domain_live well json placed d (λ h h' p w. tt)) (λ o h z. z))
            λ _. Triple-pure id (λ h p. tt)

  Triple-finish_live :
      InTime e → (id : String) → Triple InLease (finish_apply s req.domain id) (λ _. Anyhow e) Never
  unfolding finish_apply
  Triple-finish_live in_time id = Triple-exists _ λ lease. Triple-ctx_err_live lease _ in_time (
      Triple-require true deadline_exceeded _
        (λ _.
          Triple-bind
            (λ d h. Holding lease h × (d ≡ record { confirmed = confirmed; pending = some lease }))
            _ _
            (Triple-recode (λ _. ⊥) internal _
              (Triple-domain_state_live well (λ h p. p) req.domain (legacy_name s req.domain)
                placed.known _ (λ h p. p))
              (λ o h z. z))
            λ d.
              Triple-at (rest_of_finish id) d
                (record { confirmed = confirmed; pending = some lease }) (λ h p. p.1)
                (Triple-weaken (Holding lease) _ _ _ (Triple-rest_of_finish_live lease id)
                  (λ h p. p.0) (λ _ h q. q) (λ o h z. z)))
        (λ h p q. cc))

  -- From the snapshot on.
  pub Triple-mutate_live :
      InTime e
      → (f : e.Kernel → e.Kernel) (snapshot : e.Blob) (k : e.Kernel)
      → Triple
          (AtRest k)
          (do
            id ← begin s addr req snapshot
            recode internal (enact f)
            finish_apply s req.domain id)
          (λ _. Anyhow e)
          Never
  Triple-mutate_live in_time f snapshot k =
      Triple-bind (λ _. InLease) _ _ (Triple-begin_live snapshot k)
        λ id.
          Triple-bind (λ _. InLease) _ _
            (Triple-recode (λ _. ⊥) internal _ (Triple-enact_live f) (λ o h z. z))
            λ _. Triple-finish_live in_time id
