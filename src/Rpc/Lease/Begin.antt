-- ===== src/Rpc/Lease/Begin.antt =====
-- begin in internal/rpc/server.go: the lease before and after it.
use ghostd.Prelude.{
  ℕ, ◌≤◌, ◌+◌, String, ◌≡◌, sym, ◌∙◌, false, Option, none, some, ◌⊎◌, inl, inr, some_inj,
}
use ghostd.Env.{Env, DomainState, IsJson}
use ghostd.Effect.{
  Host, M, Code, internal, failed_precondition, ◌>>=◌, ◌>>◌, raise, ignore, advance,
}
use ghostd.Effect.Triple.{
  Triple, Triple-bind, Triple-pure, Triple-raise, Triple-recode, Triple-ignore, Triple-on_error,
  Triple-now, Triple-at, Triple-weaken,
}
use ghostd.State.Leases.{revert_timer}
use ghostd.State.Domain.{save_domain}
use ghostd.State.Records.{stored, IsPlaced, Saved, Unsaved, Triple-domain_state, Triple-save_domain}
use ghostd.State.Arming.{HasTimer, Triple-arm}
use ghostd.Rpc.Server.{Server, ApplyRequest, legacy_name}
use ghostd.Rpc.Cover.{Quiet, Armed, Covered, Leased, timeout_of}
use ghostd.Rpc.Lease.{new_lease_id, begin, begin_fresh, arm_or_clear}

module _ {e : Env} (json : IsJson e) (s : Server e) (addr : String) (req : ApplyRequest e)
    (placed : IsPlaced e req.domain (legacy_name s req.domain)) (confirmed : e.Blob) (k : e.Kernel)
    (IsSnapshot : e.Blob → Type 0) (snapshot : e.Blob) (is_snapshot : IsSnapshot snapshot) where
  abbrev legacy : String
  legacy = legacy_name s req.domain

  abbrev AtRest : Host e → Type 0
  AtRest = Quiet req.domain legacy confirmed k

  abbrev Ended : Option Code → Host e → Type 0
  Ended o h = Covered req.domain legacy confirmed k IsSnapshot h

  abbrev resting : DomainState e.Blob
  resting = record { confirmed = confirmed; pending = none }

  abbrev leasing : String → ℕ → DomainState e.Blob
  leasing id time = record {
    confirmed = confirmed;
    pending = some (record {
      applied = false;
      id = id;
      deadline = time + timeout_of req;
      snapshot = snapshot;
      target = req.desired_state_json;
      peer = addr;
    });
  }

  -- The lease is in the record; the kernel is untouched.
  record Noted (id : String) (time : ℕ) (h : Host e) : Type 0 where
    record_is : stored req.domain legacy h ≡ some (leasing id time)
    kernel : h.kernel ≡ k

  Noted-Armed :
      (id : String) (time : ℕ) (h : Host e)
      → Noted id time h
      → Armed req.domain legacy confirmed IsSnapshot h
  Noted-Armed id time h n = record { lease = _; record_is = n.record_is; snapshot = is_snapshot }

  Noted-Saved :
      (id : String) (time : ℕ) (h h' : Host e)
      → AtRest h
      → Saved req.domain legacy (leasing id time) h h'
      → Noted id time h'
  Noted-Saved id time h h' q w = record { record_is = w.record_is; kernel = w.kernel ∙ q.kernel }

  Noted-either :
      (id : String) (time : ℕ) (h h' : Host e)
      → Noted id time h
      → Unsaved req.domain legacy h h' ⊎ Saved req.domain legacy resting h h'
      → Ended none h'
  Noted-either id time h h' n (inl u) =
      inr (record { lease = _; record_is = u.record_is ∙ n.record_is; snapshot = is_snapshot })
  Noted-either id time h h' n (inr w) =
      inl (record { record_is = w.record_is; kernel = w.kernel ∙ n.kernel })

  -- Where the timer could not be armed the record is cleared again, as far as the disk lets it.
  Triple-clear :
      (id : String) (time : ℕ) {Q : Unit {0} → Host e → Type 0}
      → Triple (Noted id time) (ignore (save_domain req.domain resting) >> raise internal) Q Ended
  Triple-clear id time =
      Triple-bind (λ _ h. Ended none h) _ _
        (Triple-ignore _ (
          Triple-save_domain json placed resting (λ h h' n w. Noted-either id time h h' n (inr w))
            (λ o h h' n r. (Noted-either id time h h' n r, Noted-either id time h h' n r))))
        (λ _. Triple-raise internal (λ h p. p))

  abbrev Begun : String → Host e → Type 0
  Begun id h = Leased req.domain legacy confirmed IsSnapshot addr req false id h × (h.kernel ≡ k)

  Noted-Leased :
      (id : String) (begun : ℕ) (h : Host e)
      → Noted id (e.clock begun) h
      → HasTimer (revert_timer id req.domain (timeout_of req)) h
      → Begun id h
  Noted-Leased id begun h n (others, timer) = (
    record {
      begun = begun;
      snapshot = snapshot;
      is_snapshot = is_snapshot;
      record_is = n.record_is;
      others = others;
      timer = timer;
    },
    n.kernel,
  )

  Noted-timerless :
      (id : String) (time : ℕ) (h : Host e) (ts : _) (us : _) (n : ℕ)
      → h.step ≤ n
      → Noted id time h
      → Noted id time (record h { timers = ts; units = us; step = n })
  Noted-timerless id time h ts us n le p = record { record_is = p.record_is; kernel = p.kernel }

  Triple-arm_or_clear :
      (id : String) (begun : ℕ)
      → Triple
          (Noted id (e.clock begun))
          (arm_or_clear req.domain id (timeout_of req) resting)
          (λ _. Begun id)
          Ended
  unfolding arm_or_clear
  Triple-arm_or_clear id begun =
      Triple-on_error (Noted id (e.clock begun)) _ _
        (Triple-weaken (Noted id (e.clock begun)) _ _ _
          (Triple-arm (Noted-timerless id (e.clock begun)) id req.domain (timeout_of req))
          (λ h n. n) (λ _ h q. Noted-Leased id begun h q.0 q.1) (λ o h n. n))
        (λ c. Triple-clear id (e.clock begun)) (λ h n. inr (Noted-Armed id _ h n))

  AtRest-advance : (h : Host e) → AtRest h → AtRest (advance h)
  AtRest-advance h q = record { record_is = q.record_is; kernel = q.kernel }

  AtRest-either :
      (id : String) (time : ℕ) (h h' : Host e)
      → AtRest h
      → Unsaved req.domain legacy h h' ⊎ Saved req.domain legacy (leasing id time) h h'
      → Ended none h'
  AtRest-either id time h h' q (inl u) =
      inl (record { record_is = u.record_is ∙ q.record_is; kernel = u.kernel ∙ q.kernel })
  AtRest-either id time h h' q (inr w) = inr (Noted-Armed id time h' (Noted-Saved id time h h' q w))

  Triple-new_lease_id :
      {B : Type 0} {Q : B → Host e → Type 0} (f : String → M e B)
      → ((id : String) → Triple AtRest (f id) Q Ended)
      → Triple AtRest (new_lease_id >>= f) Q Ended
  unfolding ◌>>=◌ new_lease_id
  Triple-new_lease_id f kf = record {
    run = λ h q. (kf (e.new_lease_id h.step)).run (advance h) (AtRest-advance h q);
  }

  Triple-begin_fresh : Triple AtRest (begin_fresh addr req snapshot resting) Begun Ended
  unfolding begin_fresh
  Triple-begin_fresh = Triple-new_lease_id _ λ id. Triple-now AtRest-advance _ λ begun.
      Triple-bind (λ _. Noted id (e.clock begun)) _ _
        (Triple-recode (Ended none) internal _
          (Triple-save_domain json placed (leasing id (e.clock begun))
            (λ h h' q w. Noted-Saved id (e.clock begun) h h' q w)
            (λ o h h' q r. AtRest-either id (e.clock begun) h h' q r))
          (λ o h c. c))
        λ _.
          Triple-bind (λ _. Begun id) _ _ (Triple-arm_or_clear id begun)
            λ _. Triple-pure id (λ h b. b)

  -- begin, from rest.
  pub Triple-begin : Triple AtRest (begin s addr req snapshot) Begun Ended
  unfolding begin
  Triple-begin =
      Triple-bind (λ d h. AtRest h × (stored req.domain legacy h ≡ some d)) _ _
        (Triple-recode AtRest internal _
          (Triple-domain_state AtRest-advance (λ o h q. q) req.domain legacy) (λ o h q. inl q))
        λ d.
          Triple-at
            (λ d. elim d.pending [
              | none ↦ begin_fresh addr req snapshot d
              | some p ↦ raise failed_precondition
            ])
            d resting (λ h q. some_inj (sym q.1 ∙ q.0.record_is))
            (Triple-weaken AtRest _ _ _ Triple-begin_fresh (λ h q. q.0) (λ _ h q. q) (λ o h q. q))
