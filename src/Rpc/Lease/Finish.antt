-- ===== src/Rpc/Lease/Finish.antt =====
-- finishApply in internal/rpc/server.go: the lease of a finished mutation.
use ghostd.Prelude.{
  ℕ, ◌+◌, String, ◌≡◌, refl, sym, ◌∙◌, Bool, true, false, not, Option, none, some, ◌⊎◌, inl, inr,
  some_inj,
}
use ghostd.Env.{Env, DomainState, IsJson}
use ghostd.Effect.{Host, M, Code, internal, deadline_exceeded, ◌>>=◌, ◌>>◌, pure, recode, advance}
use ghostd.Effect.Triple.{
  Triple, Triple-bind, Triple-pure, Triple-recode, Triple-ctx_err, Triple-require, Triple-at,
  Triple-weaken, Triple-exists,
}
use ghostd.State.Domain.{save_domain}
use ghostd.State.Records.{stored, IsPlaced, Saved, Unsaved, Triple-domain_state, Triple-save_domain}
use ghostd.Rpc.Server.{Server, ApplyRequest, legacy_name}
use ghostd.Rpc.Cover.{Armed, Leased, timeout_of}
use ghostd.Rpc.Lease.{finish_apply, mark_applied}

module _ {e : Env} (json : IsJson e) (s : Server e) (addr : String) (req : ApplyRequest e)
    (placed : IsPlaced e req.domain (legacy_name s req.domain)) (confirmed : e.Blob)
    (IsSnapshot : e.Blob → Type 0) where
  abbrev legacy : String
  legacy = legacy_name s req.domain

  abbrev Holds : Bool → String → Host e → Type 0
  Holds = Leased req.domain legacy confirmed IsSnapshot addr req

  abbrev Ended : Option Code → Host e → Type 0
  Ended o h = Armed req.domain legacy confirmed IsSnapshot h

  abbrev leased : Bool → String → ℕ → e.Blob → DomainState e.Blob
  leased applied id begun snapshot = record {
    confirmed = confirmed;
    pending = some (record {
      applied = applied;
      id = id;
      deadline = e.clock begun + timeout_of req;
      snapshot = snapshot;
      target = req.desired_state_json;
      peer = addr;
    });
  }

  -- The lease with the time and the snapshot that it began with.
  record Since (start : ℕ × e.Blob) (id : String) (h : Host e) : Type 0 where
    holds : Holds false id h
    record_is : stored req.domain legacy h ≡ some (leased false id start.0 start.1)
    is_snapshot : IsSnapshot start.1

  Since-advance :
      (start : ℕ × e.Blob) (id : String) (h : Host e)
      → Since start id h
      → Since start id (advance h)
  Since-advance start id h p = record {
    holds = record {
      begun = p.holds.begun;
      snapshot = p.holds.snapshot;
      is_snapshot = p.holds.is_snapshot;
      record_is = p.holds.record_is;
      others = p.holds.others;
      timer = p.holds.timer;
    };
    record_is = p.record_is;
    is_snapshot = p.is_snapshot;
  }

  Since-Saved :
      (start : ℕ × e.Blob) (id : String) (h h' : Host e)
      → Since start id h
      → Saved req.domain legacy (leased true id start.0 start.1) h h'
      → Holds true id h'
  Since-Saved start id h h' p w = record {
    begun = start.0;
    snapshot = start.1;
    is_snapshot = p.is_snapshot;
    record_is = w.record_is;
    others = p.holds.others;
    timer = w.timers ∙ p.holds.timer;
  }

  Since-either :
      (start : ℕ × e.Blob) (id : String) (h h' : Host e)
      → Since start id h
      → Unsaved req.domain legacy h h'
        ⊎ Saved req.domain legacy (leased true id start.0 start.1) h h'
      → Ended none h'
  Since-either start id h h' p (inl u) = record {
    lease = _;
    record_is = u.record_is ∙ p.record_is;
    snapshot = p.is_snapshot;
  }
  Since-either start id h h' p (inr w) = record {
    lease = _;
    record_is = w.record_is;
    snapshot = p.is_snapshot;
  }

  Since-Armed : (start : ℕ × e.Blob) (id : String) (h : Host e) → Since start id h → Ended none h
  Since-Armed start id h p = record { lease = _; record_is = p.record_is; snapshot = p.is_snapshot }

  -- The rest of finishApply once the record has been read: no nil pointer is followed.
  abbrev rest_of_finish : String → DomainState e.Blob → M e String
  rest_of_finish id d = do
    applied ← mark_applied d
    recode internal (save_domain req.domain applied)
    pure id

  abbrev Finished : String → String → Host e → Type 0
  Finished id id' h = (id' ≡ id) × Holds true id h

  Triple-rest_of_finish :
      (start : ℕ × e.Blob) (id : String)
      → Triple
          (Since start id)
          (rest_of_finish id (leased false id start.0 start.1))
          (Finished id)
          Ended
  unfolding mark_applied
  Triple-rest_of_finish start id =
      Triple-bind (λ d h. Since start id h × (d ≡ leased true id start.0 start.1)) _ _
        (Triple-pure _ (λ h p. (p, refl)))
        λ d.
          Triple-at (λ d. recode internal (save_domain req.domain d) >> pure id) d _ (λ h p. p.1)
            (Triple-bind (λ _. Holds true id) _ _
              (Triple-recode (Ended none) internal _
                (Triple-save_domain json placed (leased true id start.0 start.1)
                  (λ h h' p w. Since-Saved start id h h' p.0 w)
                  (λ o h h' p r. Since-either start id h h' p.0 r))
                (λ o h a. a))
              λ _. Triple-pure id (λ h l. (refl, l)))

  Triple-finish-Since :
      (start : ℕ × e.Blob) (id : String)
      → Triple (Since start id) (finish_apply s req.domain id) (Finished id) Ended
  unfolding finish_apply
  Triple-finish-Since start id = Triple-ctx_err (Since-advance start id) _ λ over.
      Triple-require (not over) deadline_exceeded _
        (λ _.
          Triple-bind (λ d h. Since start id h × (stored req.domain legacy h ≡ some d)) _ _
            (Triple-recode (Since start id) internal _
              (Triple-domain_state (Since-advance start id) (λ o h p. p) req.domain legacy)
              (λ o h p. Since-Armed start id h p))
            λ d.
              Triple-at (rest_of_finish id) d (leased false id start.0 start.1)
                (λ h p. some_inj (sym p.1 ∙ p.0.record_is))
                (Triple-weaken (Since start id) _ _ _ (Triple-rest_of_finish start id) (λ h p. p.0)
                  (λ _ h q. q) (λ o h a. a)))
        (λ h p _. Since-Armed start id h p)

  -- finishApply, from a lease that has begun.
  pub Triple-finish :
      (id : String) → Triple (Holds false id) (finish_apply s req.domain id) (Finished id) Ended
  Triple-finish id =
      Triple-weaken (λ h. (start : ℕ × e.Blob) × Since start id h) _ _ _
        (Triple-exists _ λ start. Triple-finish-Since start id)
        (λ h l. (
          (l.begun, l.snapshot),
          record { holds = l; record_is = l.record_is; is_snapshot = l.is_snapshot },
        ))
        (λ _ h q. q) (λ o h a. a)
