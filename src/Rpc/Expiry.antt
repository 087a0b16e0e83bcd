-- ===== src/Rpc/Expiry.antt =====
-- recoverExpired in internal/rpc/server.go, on a pending firewall lease.
use ghostd.Prelude.{
  ℕ, suc, ◌<◌, ◌≤◌, ◌≡◌, sym, ◌∙◌, true, not, none, some, inl, some_inj, ltb, arith, lookup,
}
use ghostd.Env.{Env, DomainState, Pending, IsJson}
use ghostd.Effect.{Host, M, internal, failed_precondition, pure}
use ghostd.Effect.Triple.{
  After, Triple, Triple-bind, Triple-recode, Triple-require, Triple-at, Triple-reading,
  Triple-weaken,
}
use ghostd.State.Records.{stored, Triple-domain_state}
use ghostd.Rpc.Server.{Server, legacy-firewall}
use ghostd.Rpc.Lease.{recover_expired, recover_pending, restore_snapshot}
use ghostd.Rpc.Restoring.{
  IsRestoring, Due, DueFrom, Undone, DueOrUndone, leasing, DueFrom-timeless, Triple-clear_lease,
  Triple-nft_restore,
}

module _ {e : Env} (json : IsJson e) (nft : IsRestoring e) (s : Server e) (confirmed : e.Blob)
    (k : e.Kernel) (lease : Pending e.Blob) where
  -- It was the lease's time at a reading of the clock that was made between the two.
  abbrev pub HasExpired : Host e → Host e → Type 0
  HasExpired h h' = (n : ℕ) × (h.step ≤ n) × (n < h'.step) × (lease.deadline ≤ e.clock n)

  not_before : (t d : ℕ) → not (ltb t d) ≡ true → d ≤ t
  not_before t d h = ground arith

  abbrev next_step : DomainState e.Blob → M e (Unit {0})
  next_step d = elim d.pending [ none ↦ pure tt | some p ↦ recover_pending s "firewall" d p ]

  module _ (h₀ : Host e) where
    abbrev Pends : Host e → Type 0
    Pends = DueFrom confirmed k lease h₀.step

    Triple-recover_pending :
        Triple Pends
          (recover_pending s "firewall" (leasing confirmed lease) lease)
          (λ _ h. HasExpired h₀ h × Undone confirmed k h)
          (λ _. DueOrUndone confirmed k lease)
    unfolding recover_pending restore_snapshot
    Triple-recover_pending =
        Triple-reading (DueFrom-timeless confirmed k lease h₀.step) h₀.step _ (λ h d. d.1)
          λ n begun.
            Triple-require _ failed_precondition _
              (λ late.
                Triple-require _ internal _
                  (λ _.
                    Triple-bind _ _ _
                      (Triple-recode (Due confirmed k lease) internal _
                        (Triple-weaken (DueFrom confirmed k lease (suc n)) _ _ _
                          (Triple-nft_restore confirmed k lease nft (suc n))
                          (λ h d. (d.0.0, omega (arith, d.1))) (λ _ h b. b) (λ o h d. d))
                        (λ o h d. inl d))
                      λ _.
                        Triple-recode (DueOrUndone confirmed k lease) internal _
                          (Triple-weaken _ _ _ _ (Triple-clear_lease confirmed k lease json (suc n))
                            (λ h b. b)
                            (λ _ h u. ((n, begun, omega (arith, u.1), not_before _ _ late), u.0))
                            (λ o h r. r))
                          (λ o h r. r))
                  (λ h d _. inl d.0.0))
              (λ h d _. inl d.0.0)

    Triple-recover_due :
        lookup "firewall" s.extra_domains ≡ none
        → Triple Pends
            (recover_expired s "firewall")
            (λ _ h. HasExpired h₀ h × Undone confirmed k h)
            (λ _. DueOrUndone confirmed k lease)
    unfolding recover_expired
    Triple-recover_due core = rw (legacy-firewall s core) (
        Triple-bind (λ d h. Pends h × (stored "firewall" "nft-ruleset.json" h ≡ some d)) _ _
          (Triple-recode (Due confirmed k lease) internal _
            (Triple-domain_state (DueFrom-timeless confirmed k lease h₀.step) (λ o h d. d.0)
              "firewall" "nft-ruleset.json")
            (λ o h d. inl d))
          λ d.
            Triple-at next_step d (leasing confirmed lease)
              (λ h q. some_inj (sym q.1 ∙ q.0.0.record_is))
              (Triple-weaken Pends _ _ _ Triple-recover_pending (λ h q. q.0) (λ _ h q. q)
                (λ o h r. r)))

  -- recoverExpired on a pending firewall lease whose snapshot is our part of the ruleset as it was in
  -- k, whatever each call does. It succeeds only if the deadline had come at a reading of the clock
  -- that it made itself, and then no lease is pending and our part of the ruleset is again what it
  -- was in k, but for handles. Otherwise the lease is still pending with its snapshot, or all was
  -- undone: a lease is never dropped before its snapshot was restored. The confirmed state is
  -- untouched in every case. It is assumed that encoding/json reads back what it wrote, that nft
  -- lists again what was loaded of an earlier listing, under whatever handles, and that no optional
  -- feature takes the name of the domain.
  pub recover_expired-Undone :
      lookup "firewall" s.extra_domains ≡ none
      → (h : Host e) → Due confirmed k lease h
      → After
          (λ _ h'. HasExpired h h' × Undone confirmed k h')
          (λ _. DueOrUndone confirmed k lease)
          (recover_expired s "firewall" h)
  recover_expired-Undone core h due = (Triple-recover_due h core).run h (due, omega arith)
