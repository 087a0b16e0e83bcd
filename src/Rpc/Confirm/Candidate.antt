-- ===== src/Rpc/Confirm/Candidate.antt =====
-- The check of one pending lease in Confirm: what it needs, what it writes, what stays.
use ghostd.Prelude.{
  ℕ, suc, ◌<◌, ◌≤◌, String, ◌==◌, ◌≡◌, refl, ◌∙◌, ap, Bool, true, false, not, Option, none, some,
  ◌⊎◌, inl, inr, arith, if◌then◌else◌, List, ltb→lt, Bool-cases,
}
use ghostd.Env.{Env, IsJson, DomainState, Pending}
use ghostd.Nft.Owned.{nft_owned}
use ghostd.Effect.{Host, Code, Timer, advance, ◌>>◌, recode, ignore, internal}
use ghostd.Effect.Same.{Same, Same-advance}
use ghostd.Effect.Triple.{
  Triple, Triple-bind, Triple-weaken, Triple-pure, Triple-recode, Triple-require, Triple-now,
  Triple-reading, Triple-ctx_err, Triple-ignore, Triple-or_fail_last, Triple-read,
}
use ghostd.State.Domain.{transaction_file, save_domain}
use ghostd.State.Leases.{cancel}
use ghostd.State.Arming.{Triple-cancel}
use ghostd.State.Records.{
  stored, IsPlaced, OtherFiles, Saved, Unsaved, Timeless, Triple-probe, Triple-save_domain,
}
use ghostd.Rpc.Server.{Server, legacy_name}
use ghostd.Rpc.Executors.{read_ruleset}
use ghostd.Rpc.Confirm.{confirmed_blob, confirm_pending}

-- What is confirmed: the live ruleset's part that is ours, or the target.
abbrev pub IsConfirmed : (e : Env) → String → Pending e.Blob → e.Kernel → e.Blob → Type 0
IsConfirmed e domain p k blob =
    if domain == "firewall" then (nft_owned e (e.nft_list k) ≡ some blob) else (blob ≡ p.target)

module _ {e : Env} (s : Server e) (addr lease_id : String) where
  -- The lease was pending in h under this id, finished, from another connection, and in time; in h'
  -- it is gone and its state confirmed, and the kernel is the same.
  pub record Confirmed (h h' : Host e) : Type 0 where
    pub domain : String
    pub before : DomainState e.Blob
    pub lease : Pending e.Blob
    pub blob : e.Blob
    pub step : ℕ
    pub was : stored domain (legacy_name s domain) h ≡ some before
    pub pending : before.pending ≡ some lease
    pub id : (lease.id == lease_id) ≡ true
    pub applied : lease.applied ≡ true
    pub fresh : (lease.peer == addr) ≡ false
    pub in_time : e.clock step < lease.deadline
    pub begun : h.step ≤ step
    pub ended : step < h'.step
    pub state : IsConfirmed e domain lease h.kernel blob
    pub is :
        stored domain (legacy_name s domain) h' ≡ some (record { confirmed = blob; pending = none })
    pub kernel : h'.kernel ≡ h.kernel
    pub elsewhere : OtherFiles (transaction_file domain) h h'

-- Nothing was confirmed: nothing changed at all, or the write for a lease of this id failed, so that
-- its record is as it was, and so is every file but the temporary one of that write.
pub data Untouched {e : Env} (s : Server e) (lease_id : String) (h h' : Host e) : Type 0 where
  no_change : Same h h' → Untouched s lease_id h h'
  not_written :
      (domain : String) (d : DomainState e.Blob) (p : Pending e.Blob)
      → stored domain (legacy_name s domain) h ≡ some d
      → d.pending ≡ some p
      → (p.id == lease_id) ≡ true
      → Unsaved domain (legacy_name s domain) h h'
      → Untouched s lease_id h h'

pub stored-Same :
    {e : Env} (domain legacy : String) (h h' : Host e)
    → Same h h'
    → stored domain legacy h' ≡ stored domain legacy h
stored-Same domain legacy h h' same = rw same.files refl

module _ {e : Env} (json : IsJson e) (s : Server e) (addr lease_id : String) (h₀ : Host e) where
  abbrev pub Ended : Option Code → Host e → Type 0
  Ended o h = Untouched s lease_id h₀ h ⊎ Confirmed s addr lease_id h₀ h

  pub timeless : Timeless (Same h₀)
  timeless h same = Same-advance h₀ h same

  Triple-confirmed_blob :
      (domain : String) (p : Pending e.Blob)
      → Triple
          (Same h₀)
          (confirmed_blob domain p)
          (λ blob h. Same h₀ h × IsConfirmed e domain p h₀.kernel blob)
          (λ _. Same h₀)
  unfolding confirmed_blob read_ruleset
  Triple-confirmed_blob domain p = elim (Bool-cases (domain == "firewall")) [
    | inl q ↦ rw q (
        Triple-bind (λ raw h. Same h₀ h × (raw ≡ e.nft_list h₀.kernel)) _ _
          (Triple-recode (Same h₀) internal _
            (Triple-bind (λ _. Same h₀) _ _ (Triple-probe timeless (λ o h same. same))
              λ _. Triple-read _ (λ h same. (same, ap e.nft_list same.kernel)))
            (λ o h same. same))
          λ raw.
            Triple-or_fail_last internal (nft_owned e raw)
              (λ blob h found p. (p.0, rw (← p.1) found)) (λ h p. p.0))
    | inr q ↦ rw q (Triple-pure p.target (λ h same. (same, refl)))
  ]

  module _ (domain : String) (placed : IsPlaced e domain (legacy_name s domain))
      (d : DomainState e.Blob) (p : Pending e.Blob)
      (was : stored domain (legacy_name s domain) h₀ ≡ some d) (pending : d.pending ≡ some p)
      (id : (p.id == lease_id) ≡ true) where
    Confirmed-timerless :
        (h : Host e) (ts : List Timer) (us : List (String × String)) (n : ℕ)
        → h.step ≤ n
        → Confirmed s addr lease_id h₀ h
        → Confirmed s addr lease_id h₀ (record h { timers = ts; units = us; step = n })
    Confirmed-timerless h ts us n le c = record {
      domain = c.domain;
      before = c.before;
      lease = c.lease;
      blob = c.blob;
      step = c.step;
      was = c.was;
      pending = c.pending;
      id = c.id;
      applied = c.applied;
      fresh = c.fresh;
      in_time = c.in_time;
      begun = c.begun;
      ended = omega (arith, le, c.ended);
      state = c.state;
      is = c.is;
      kernel = c.kernel;
      elsewhere = c.elsewhere;
    }

    Saved-Confirmed :
        (n : ℕ) (blob : e.Blob)
        → e.clock n < p.deadline
        → (p.peer == addr) ≡ false
        → p.applied ≡ true
        → IsConfirmed e domain p h₀.kernel blob
        → h₀.step ≤ n
        → (h h' : Host e) → Same h₀ h
        → n < h.step
        → Saved domain (legacy_name s domain) (record d { confirmed = blob; pending = none }) h h'
        → Confirmed s addr lease_id h₀ h'
    Saved-Confirmed n blob in_time fresh applied state begun h h' same ended w = record {
      domain = domain;
      before = d;
      lease = p;
      blob = blob;
      step = n;
      was = was;
      pending = pending;
      id = id;
      applied = applied;
      fresh = fresh;
      in_time = in_time;
      begun = begun;
      ended = omega (arith, ended, w.later);
      state = state;
      is = w.record_is;
      kernel = w.kernel ∙ same.kernel;
      elsewhere = λ name other apart. w.elsewhere name other apart ∙ ap (λ f. f name) same.files;
    }

    Unsaved-Untouched :
        (h h' : Host e)
        → Same h₀ h
        → Unsaved domain (legacy_name s domain) h h'
        → Untouched s lease_id h₀ h'
    Unsaved-Untouched h h' kept u = not_written domain d p was pending id (record {
      record_is = u.record_is ∙ stored-Same domain (legacy_name s domain) h₀ h kept;
      units = u.units ∙ kept.units;
      timers = u.timers ∙ kept.timers;
      kernel = u.kernel ∙ kept.kernel;
      later = omega (arith, u.later, kept.later);
      elsewhere = λ name other. u.elsewhere name other ∙ ap (λ f. f name) kept.files;
    })

    Triple-commit :
        (n : ℕ) (blob : e.Blob)
        → e.clock n < p.deadline
        → (p.peer == addr) ≡ false
        → p.applied ≡ true
        → h₀.step ≤ n
        → Triple
            (λ h. (Same h₀ h × IsConfirmed e domain p h₀.kernel blob) × (n < h.step))
            (do
              recode internal (save_domain domain (record d { confirmed = blob; pending = none }))
              ignore (cancel lease_id))
            (λ _. Confirmed s addr lease_id h₀)
            Ended
    Triple-commit n blob in_time fresh applied begun =
        Triple-bind (λ _. Confirmed s addr lease_id h₀) _ _
          (Triple-recode (Ended none) internal _
            (Triple-save_domain json placed (record d { confirmed = blob; pending = none })
              (λ h h' q w.
                Saved-Confirmed n blob in_time fresh applied q.0.1 begun h h' q.0.0 q.1 w)
              (λ o h h' q r. elim r [
                | inl u ↦ inl (Unsaved-Untouched h h' q.0.0 u)
                | inr w ↦
                    inr (Saved-Confirmed n blob in_time fresh applied q.0.1 begun h h' q.0.0 q.1 w)
              ]))
            (λ o h r. r))
          λ _. Triple-ignore _ (
            Triple-weaken (Confirmed s addr lease_id h₀) _ _ _
              (Triple-cancel (λ h ts us n le c. Confirmed-timerless h ts us n le c) lease_id)
              (λ h c. c) (λ _ h c. c) (λ o h c. (c, inr c)))

    not-true : (b : Bool) → not b ≡ true → b ≡ false
    not-true b h = ground arith

    read_on :
        (blob : e.Blob) (m : ℕ) (h : Host e)
        → (Same h₀ h × IsConfirmed e domain p h₀.kernel blob) × (m < h.step)
        → (Same h₀ (advance h) × IsConfirmed e domain p h₀.kernel blob) × (m < suc h.step)
    read_on blob m h q = ((timeless h q.0.0, q.0.1), omega (arith, q.1))

    pub Triple-confirm_pending :
        Triple
          (Same h₀)
          (confirm_pending addr lease_id domain d p)
          (λ _. Confirmed s addr lease_id h₀)
          Ended
    unfolding confirm_pending
    Triple-confirm_pending = Triple-now timeless _ λ n.
        Triple-require _ _ _
          (λ early.
            Triple-require _ _ _
              (λ other.
                Triple-require _ _ _
                  (λ applied.
                    Triple-bind (λ blob h. Same h₀ h × IsConfirmed e domain p h₀.kernel blob) _ _
                      (Triple-weaken (Same h₀) _ _ _ (Triple-confirmed_blob domain p) (λ h q. q)
                        (λ _ h q. q) (λ o h q. inl (no_change q)))
                      λ blob.
                        Triple-reading (λ h q. (timeless h q.0, q.1)) h₀.step _ (λ h q. q.0.later)
                          λ m begun.
                            Triple-ctx_err (λ h q. read_on blob m h q) _
                              λ over.
                                Triple-require _ _ _
                                  (λ early_still.
                                    Triple-require _ _ _
                                      (λ _.
                                        Triple-commit m blob (ltb→lt _ _ early_still)
                                          (not-true _ other) applied begun)
                                      (λ h q _. inl (no_change q.0.0)))
                                  (λ h q _. inl (no_change q.0.0)))
                  (λ h q _. inl (no_change q)))
              (λ h q _. inl (no_change q)))
          (λ h q _. inl (no_change q))
