-- ===== src/State/Live.antt =====
-- internal/state where no system call fails.
use ghostd.Prelude.{
  ℕ, String, ◌==◌, ◌≡◌, refl, true, false, Option, some, some_inj, ltb, Bool-cases, inl, inr,
}
use ghostd.Env.{Env, DomainState, IsJson, Fate, fine, fails, dies}
use ghostd.Effect.{
  ◌>>◌, Host, M, Code, Outcome, plain, done, failed, crashed, pure, or_fail, probe, sys, advance,
}
use ghostd.Effect.Triple.{
  After, Triple, Triple-bind, Triple-or_fail, Triple-read, Triple-pure, Triple-weaken, Triple-at,
  Triple-require,
}
use ghostd.State.Files.{save, load, write_tmp, rename_tmp, content}
use ghostd.State.Domain.{
  known_domain, transaction_file, domain_file, read_record, domain_state, save_domain,
}
use ghostd.State.Leases.{arm, systemd_run, set_units}
use ghostd.State.Arming.{Triple-arm, Timerless}
use ghostd.State.Records.{stored, IsPlaced, Saved, Timeless, Triple-save_domain}

-- No system call and no command fails, and the process does not die.
abbrev pub AllFine : Env → Type 0
AllFine e = (n : ℕ) → e.fate n ≡ fine

-- From P, the program returns.
abbrev pub Returns : (e : Env) {A : Type 0} → (Host e → Type 0) → M e A → Type 0
Returns e P m = Triple P m (λ _ _. Unit) (λ _ _. ⊥)

abbrev pub Anyhow : (e : Env) → Host e → Type 0
Anyhow e h = Unit

module _ {e : Env} {A : Type 0} where
  After-returned :
      (Q : A → Host e → Type 0) (E E' : Option Code → Host e → Type 0) (r : Outcome A × Host e)
      → After (λ _ _. Unit) (λ _ _. ⊥) r
      → After Q E' r
      → After Q E r
  After-returned Q E E' (done x, h) p q = q
  After-returned Q E E' (failed c, h) p q = elim p [ ]
  After-returned Q E E' (crashed, h) p q = elim p [ ]

module _ {e : Env} {A : Type 0} {P : Host e → Type 0} {Q : A → Host e → Type 0}
    {E : Option Code → Host e → Type 0} where
  -- A program that returns ends as it does on success.
  pub Triple-returned :
      (E' : Option Code → Host e → Type 0) (m : M e A)
      → Returns e P m
      → Triple P m Q E'
      → Triple P m Q E
  Triple-returned E' m r t = record {
    run = λ h p. After-returned Q E E' (m h) (r.run h p) (t.run h p);
  }

module _ {e : Env} (well : AllFine e) where
  module _ {P : Host e → Type 0} {Q : Unit {0} → Host e → Type 0}
      {E : Option Code → Host e → Type 0} where
    pub Triple-sys_live :
        (partial effect : Host e → Host e)
        → ((h : Host e) → P h → Q tt (advance (effect h)))
        → Triple P (sys partial effect) Q E
    unfolding sys
    Triple-sys_live partial effect kq = record {
      run = λ h p. by_fate (e.fate h.step) (well h.step) h p;
    }
      where
        by_fate :
            (f : Fate)
            → f ≡ fine
            → (h : Host e) → P h
            → After Q E (elim f [
              | fine ↦ (done tt, advance (effect h))
              | fails ↦ (failed plain, advance (partial h))
              | dies ↦ (crashed, advance (partial h))
            ])
        by_fate fine q h p = kq h p
        by_fate fails q h p = cc
        by_fate dies q h p = cc

  module _ {P : Host e → Type 0} {E : Option Code → Host e → Type 0} (timeless : Timeless P) where
    pub Triple-probe_live : Triple P (probe {e = e}) (λ _. P) E
    unfolding probe
    Triple-probe_live = Triple-sys_live _ _ timeless

    pub Triple-load_live :
        (name : String) → Triple P (load name) (λ raw h. P h × (content h name ≡ raw)) E
    unfolding load
    Triple-load_live name =
        Triple-bind (λ _. P) _ _ Triple-probe_live λ _. Triple-read _ (λ h p. (p, refl))

  save-Returns : (name : String) (raw : e.Blob) → Returns e (Anyhow e) (save name raw)
  unfolding save write_tmp rename_tmp
  save-Returns name raw =
      Triple-bind (λ _. Anyhow e) _ _ (Triple-sys_live _ _ (λ h p. tt))
        λ _.
          Triple-bind (λ _. Anyhow e) _ _ (Triple-probe_live (λ h p. tt))
            λ _.
              Triple-bind (λ _. Anyhow e) _ _ (Triple-probe_live (λ h p. tt))
                λ _.
                  Triple-bind (λ _. Anyhow e) _ _ (Triple-sys_live _ _ (λ h p. tt))
                    λ _.
                      Triple-bind (λ _. Anyhow e) _ _ (Triple-probe_live (λ h p. tt))
                        λ _. Triple-probe_live (λ h p. tt)

  save_domain-Returns :
      (domain : String) (d : DomainState e.Blob)
      → known_domain e domain ≡ true
      → Returns e (Anyhow e) (save_domain domain d)
  unfolding save_domain domain_file
  save_domain-Returns domain d known =
      rw (known, domain_file)
        (Triple-or_fail plain (some (transaction_file domain)) _
          (λ name q. save-Returns name (e.marshal d)) (λ h p q. cc))

  arm-Returns :
      (lease_id domain : String) (timeout : ℕ)
      → ltb 0 timeout ≡ true
      → (domain == "") ≡ false
      → Returns e (Anyhow e) (arm lease_id domain timeout)
  unfolding arm systemd_run set_units pure
  arm-Returns lease_id domain timeout positive named =
      Triple-require _ _ _
        (λ _.
          Triple-require _ _ _
            (λ _.
              Triple-bind (λ _. Anyhow e) _ _ (Triple-sys_live _ _ (λ h p. tt))
                λ _. record { run = λ h p. tt })
            (λ h p q. cc))
        (λ h p q. cc)

  module _ {P : Host e → Type 0} {E : Option Code → Host e → Type 0} (timeless : Timeless P)
      (domain legacy : String) (known : known_domain e domain ≡ true) (d : DomainState e.Blob)
      (is : (h : Host e) → P h → stored domain legacy h ≡ some d) where
    Triple-read_record_live :
        (raw : e.Blob)
        → Triple
            (λ h. P h × (content h (transaction_file domain) ≡ raw))
            (read_record legacy raw)
            (λ x h. P h × (x ≡ d))
            E
    unfolding read_record or_fail
    Triple-read_record_live raw = elim (Bool-cases (e.is_empty raw)) [
      | inl none_yet ↦ rw none_yet (
          Triple-bind
            (λ old h.
              (P h × (content h (transaction_file domain) ≡ raw)) × (content h legacy ≡ old))
            _ _ (Triple-load_live (λ h p. (timeless h p.0, p.1)) legacy)
            λ old.
              Triple-pure _ (λ h p. (p.0.0, some_inj (rw (p.0.1, none_yet, p.1) at (is h p.0.0)))))
      | inr full ↦ rw full (
          Triple-at {P = λ h. P h × (content h (transaction_file domain) ≡ raw)} (or_fail plain)
            (e.unmarshal raw) (some d) (λ h p. rw (p.1, full) at (is h p.0))
            (record { run = λ h p. (p.0, refl) }))
    ]

    pub Triple-domain_state_live : Triple P (domain_state domain legacy) (λ x h. P h × (x ≡ d)) E
    unfolding domain_state domain_file
    Triple-domain_state_live =
        rw (known, domain_file)
          (Triple-or_fail plain (some (transaction_file domain)) _
            (λ name q.
              Triple-bind (λ raw h. P h × (content h (transaction_file domain) ≡ raw)) _ _
                (rw (← some_inj q) (Triple-load_live timeless (transaction_file domain)))
                Triple-read_record_live)
            (λ h p q. cc))

module _ {e : Env} (well : AllFine e) (json : IsJson e) {domain legacy : String}
    (placed : IsPlaced e domain legacy) {P : Host e → Type 0} {Q : Unit {0} → Host e → Type 0}
    {E : Option Code → Host e → Type 0} where
  pub Triple-save_domain_live :
      (d : DomainState e.Blob)
      → ((h h' : Host e) → P h → Saved domain legacy d h h' → Q tt h')
      → Triple P (save_domain domain d) Q E
  Triple-save_domain_live d kq =
      Triple-returned (λ _ _. Unit) _
        (Triple-weaken (Anyhow e) _ _ _ (save_domain-Returns well domain d placed.known) (λ h p. tt)
          (λ _ h u. u) (λ o h z. z))
        (Triple-save_domain json placed d kq (λ o h h' p r. tt))

module _ {e : Env} (well : AllFine e) {P : Host e → Type 0} {E : Option Code → Host e → Type 0}
    (timerless : Timerless P) where
  pub Triple-arm_live :
      (lease_id domain : String) (timeout : ℕ)
      → ltb 0 timeout ≡ true
      → (domain == "") ≡ false
      → Triple P (arm lease_id domain timeout) (λ _. P) E
  Triple-arm_live lease_id domain timeout positive named =
      Triple-returned (λ _. P) _
        (Triple-weaken (Anyhow e) _ _ _ (arm-Returns well lease_id domain timeout positive named)
          (λ h p. tt) (λ _ h u. u) (λ o h z. z))
        (Triple-weaken P _ _ _ (Triple-arm timerless lease_id domain timeout) (λ h p. p)
          (λ _ h q. q.0) (λ o h p. p))

module _ {e : Env} (json : IsJson e) {domain legacy : String} (placed : IsPlaced e domain legacy)
    (d : DomainState e.Blob) where
  abbrev Recorded : Host e → Type 0
  Recorded h = stored domain legacy h ≡ some d

  -- Where no call fails, writing the record of a domain and reading it back returns what was written.
  -- It is assumed that encoding/json reads back what it wrote, that the store knows the domain, and
  -- that its legacy file is not the temporary file of its record.
  pub save_domain-domain_state :
      AllFine e
      → (h : Host e)
      → After (λ x _. x ≡ d) (λ _ _. ⊥) ((save_domain domain d >> domain_state domain legacy) h)
  save_domain-domain_state well h =
      (Triple-bind {P = Anyhow e} {E = λ _ _. ⊥} (λ _. Recorded) (save_domain domain d) _
          (Triple-save_domain_live well json placed d (λ h h' p w. w.record_is))
          λ _.
            Triple-weaken Recorded _ _ _
              (Triple-domain_state_live well (λ h r. r) domain legacy placed.known d (λ h r. r))
              (λ h r. r) (λ x h q. q.1) (λ o h z. z)).run
        h tt
