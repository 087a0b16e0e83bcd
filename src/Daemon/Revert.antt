-- ===== src/Daemon/Revert.antt =====
-- The revert command of a timer in cmd/ghostd/main.go, on a pending lease.
use ghostd.Prelude.{
  arith, String, ◌==◌, ◌≡◌, sym, ◌∙◌, true, ◌||◌, none, some, inl, if◌then◌else◌, some_inj,
}
use ghostd.Env.{Env, IsJson, DomainState, Pending}
use ghostd.Effect.{Host, M, plain}
use ghostd.Effect.Triple.{After, Triple, Triple-bind, Triple-or_fail, Triple-weaken, Triple-at}
use ghostd.State.Domain.{lock}
use ghostd.State.Records.{stored, Triple-probe, Triple-domain_state}
use ghostd.Daemon.{Hooks, domain_key, restore, revert_pending, replay, recover_domain, run_revert}
use ghostd.Rpc.Restoring.{
  IsRestoring, Due, DueFrom, Undone, DueOrUndone, leasing, Due-timeless, Triple-clear_lease,
  Triple-nft_restore,
}

module _ {e : Env} (json : IsJson e) (nft : IsRestoring e) (hooks : Hooks e) (confirmed : e.Blob)
    (k : e.Kernel) (lease : Pending e.Blob) where
  abbrev Pends : Host e → Type 0
  Pends = Due confirmed k lease

  abbrev Ended : Host e → Type 0
  Ended = DueOrUndone confirmed k lease

  Triple-revert_pending :
      Triple Pends
        (revert_pending hooks "firewall" (leasing confirmed lease) lease)
        (λ _. Undone confirmed k)
        (λ _. Ended)
  unfolding revert_pending restore
  Triple-revert_pending =
      Triple-bind _ _ _
        (Triple-weaken (DueFrom confirmed k lease 0) _ _ _
          (Triple-nft_restore confirmed k lease nft 0) (λ h d. (d, omega arith)) (λ _ h b. b)
          (λ o h d. inl d))
        λ _.
          Triple-weaken _ _ _ _ (Triple-clear_lease confirmed k lease json 0) (λ h b. b)
            (λ _ h u. u.0) (λ o h r. r)

  abbrev next_step : String → DomainState e.Blob → M e (Unit {0})
  next_step lease_id d = elim d.pending [
    | none ↦ replay hooks "firewall" lease_id d
    | some p ↦
        if lease_id == "" || p.id == lease_id
        then revert_pending hooks "firewall" d p
        else replay hooks "firewall" lease_id d
  ]

  Triple-recover_domain :
      (lease_id : String)
      → (lease_id == "" || lease.id == lease_id) ≡ true
      → Triple Pends
          (recover_domain hooks "firewall" lease_id)
          (λ _. Undone confirmed k)
          (λ _. Ended)
  unfolding recover_domain domain_key
  Triple-recover_domain lease_id due =
      Triple-or_fail plain (some "nft-ruleset.json") _
        (λ key is_key.
          Triple-bind (λ d h. Pends h × (stored "firewall" "nft-ruleset.json" h ≡ some d)) _ _
            (rw (← some_inj is_key) (
              Triple-domain_state (Due-timeless confirmed k lease) (λ o h d. inl d) "firewall"
                "nft-ruleset.json"))
            λ d.
              Triple-at (next_step lease_id) d (leasing confirmed lease)
                (λ h q. some_inj (sym q.1 ∙ q.0.record_is))
                (rw due (
                  Triple-weaken Pends _ _ _ Triple-revert_pending (λ h q. q.0) (λ _ h u. u)
                    (λ o h r. r))))
        (λ h d q. cc)

  -- A pending firewall lease whose snapshot is our part of the ruleset as it was in k. The revert
  -- command of its timer, or a boot (the empty id), whatever each call does: if it succeeds, no
  -- lease is pending and our part of the ruleset is again what it was in k, but for handles; if it
  -- fails or dies, the lease is still pending with its snapshot, or all was undone already. The
  -- confirmed state is untouched in every case. It is assumed that encoding/json reads back what it
  -- wrote, and that nft lists again what was loaded of an earlier listing, under whatever handles.
  pub run_revert-Undone :
      (lease_id : String)
      → (lease_id == "" || lease.id == lease_id) ≡ true
      → (h : Host e) → Due confirmed k lease h
      → After
          (λ _. Undone confirmed k)
          (λ _. DueOrUndone confirmed k lease)
          (run_revert hooks lease_id "firewall" h)
  unfolding run_revert lock
  run_revert-Undone lease_id due =
      (Triple-bind (λ _. Pends) _ _ (Triple-probe (Due-timeless confirmed k lease) (λ o h d. inl d))
        λ _. Triple-recover_domain lease_id due).run
