-- ===== src/Daemon/Live.antt =====
-- The revert command in cmd/ghostd/main.go, where no call fails.
use ghostd.Prelude.{
  String, ◌==◌, ◌≡◌, sym, ◌∙◌, ap, true, ◌||◌, none, some, if◌then◌else◌, some_inj, Bool-cases, inl,
  inr,
}
use ghostd.Env.{Env, IsJson, DomainState, Pending}
use ghostd.Effect.{Host, M, plain, ◌>>=◌, or_fail}
use ghostd.Effect.Triple.{After, Triple-bind, Triple-or_fail, Triple-weaken, Triple-at, Triple-pure}
use ghostd.State.Domain.{lock}
use ghostd.State.Records.{firewall_IsPlaced}
use ghostd.State.Live.{
  AllFine, Anyhow, Returns, Triple-sys_live, Triple-probe_live, Triple-domain_state_live,
  Triple-save_domain_live, Triple-returned,
}
use ghostd.Nft.Owned.{nft_owned, restore_commands}
use ghostd.Rpc.Executors.{nft_restore, enact}
use ghostd.Rpc.Restoring.{
  IsRestoring, Readable, readable, Due, Undone, DueOrUndone, leasing, Due-timeless,
}
use ghostd.Daemon.{Hooks, domain_key, restore, revert_pending, replay, recover_domain, run_revert}
use ghostd.Daemon.Revert.{run_revert-Undone}

module _ {e : Env} (well : AllFine e) (json : IsJson e) (nft : IsRestoring e) (hooks : Hooks e)
    (confirmed : e.Blob) (k : e.Kernel) (lease : Pending e.Blob) where
  abbrev Pends : Host e → Type 0
  Pends = Due confirmed k lease

  nft_restore-Returns : Returns e Pends (nft_restore lease.snapshot)
  unfolding nft_restore enact or_fail
  nft_restore-Returns = elim (Bool-cases (e.is_empty lease.snapshot)) [
    | inl q ↦ rw q (Triple-pure tt (λ h p. tt))
    | inr q ↦
        rw q (record { run = λ h p. (loading (readable confirmed k lease nft p.snapshot)).run h p })
  ]
    where
      load_owned : e.Blob → M e (Unit {0})
      load_owned owned = or_fail plain (e.nft_entries owned) >>= λ entries.
          enact (e.nft_load (restore_commands entries))

      loading :
          Readable confirmed k lease nft
          → Returns e Pends (or_fail plain (nft_owned e lease.snapshot) >>= load_owned)
      loading (listed, owns, reads) =
          Triple-at {P = Pends} (λ o. or_fail plain o >>= load_owned) (nft_owned e lease.snapshot)
            (some lease.snapshot) (λ h p. owns)
            (Triple-or_fail plain (some lease.snapshot) load_owned
              (λ owned q.
                Triple-at {P = Pends}
                  (λ o.
                    or_fail plain o >>= λ entries. enact (e.nft_load (restore_commands entries)))
                  (e.nft_entries owned) (some listed)
                  (λ h p. ap e.nft_entries (sym (some_inj q)) ∙ reads)
                  (Triple-or_fail plain (some listed) _
                    (λ entries r. Triple-sys_live well _ _ (λ h p. tt)) (λ h p r. cc)))
              (λ h p q. cc))

  revert_pending-Returns :
      Returns e Pends (revert_pending hooks "firewall" (leasing confirmed lease) lease)
  unfolding revert_pending restore
  revert_pending-Returns =
      Triple-bind (λ _. Anyhow e) _ _ nft_restore-Returns
        λ _. Triple-save_domain_live well json (firewall_IsPlaced e) _ (λ h h' p w. tt)

  abbrev next_step : String → DomainState e.Blob → M e (Unit {0})
  next_step lease_id d = elim d.pending [
    | none ↦ replay hooks "firewall" lease_id d
    | some p ↦
        if lease_id == "" || p.id == lease_id
        then revert_pending hooks "firewall" d p
        else replay hooks "firewall" lease_id d
  ]

  recover_domain-Returns :
      (lease_id : String)
      → (lease_id == "" || lease.id == lease_id) ≡ true
      → Returns e Pends (recover_domain hooks "firewall" lease_id)
  unfolding recover_domain domain_key
  recover_domain-Returns lease_id due =
      Triple-or_fail {A = String} plain (some "nft-ruleset.json") _
        (λ key is_key.
          let same : "nft-ruleset.json" ≡ key = some_inj is_key in
          Triple-bind (λ d h. Pends h × (d ≡ leasing confirmed lease)) _ _
            (rw (← same) (
              Triple-domain_state_live well (Due-timeless confirmed k lease) "firewall"
                "nft-ruleset.json" (firewall_IsPlaced e).known (leasing confirmed lease)
                (λ h p. p.record_is)))
            λ d.
              Triple-at (next_step lease_id) d (leasing confirmed lease) (λ h q. q.1)
                (rw due (
                  Triple-weaken Pends _ _ _ revert_pending-Returns (λ h q. q.0) (λ _ h u. u)
                    (λ o h z. z))))
        (λ h d q. cc)

  run_revert-Returns :
      (lease_id : String)
      → (lease_id == "" || lease.id == lease_id) ≡ true
      → Returns e Pends (run_revert hooks lease_id "firewall")
  unfolding run_revert lock
  run_revert-Returns lease_id due =
      Triple-bind (λ _. Pends) _ _ (Triple-probe_live well (Due-timeless confirmed k lease))
        λ _. recover_domain-Returns lease_id due

  -- Where no system call or command fails, the revert command of a pending firewall lease, or a boot
  -- (the empty id), returns: no lease is pending, the confirmed state is the same and our part of
  -- the ruleset is what it was in k, but for handles. It is assumed that encoding/json reads back what
  -- it wrote, and that nft lists again what was loaded of an earlier listing, under whatever handles.
  pub run_revert_completes :
      (lease_id : String)
      → (lease_id == "" || lease.id == lease_id) ≡ true
      → (h : Host e) → Due confirmed k lease h
      → After (λ _. Undone confirmed k) (λ _ _. ⊥) (run_revert hooks lease_id "firewall" h)
  run_revert_completes lease_id due =
      (Triple-returned {E = λ _ _. ⊥} (λ _. DueOrUndone confirmed k lease) _
        (run_revert-Returns lease_id due)
        (record { run = run_revert-Undone json nft hooks confirmed k lease lease_id due })).run
