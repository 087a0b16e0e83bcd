-- ===== src/Rpc/Restoring.antt =====
-- Restoring the firewall from the snapshot of a lease, and clearing the lease.
use ghostd.Prelude.{
  ℕ, ◌≤◌, arith, ◌≡◌, refl, sym, ◌∙◌, false, Option, none, some, Option-cases, List, ◌∷◌, map, ◌⊎◌,
  inl, inr, some_inj, ap,
}
use ghostd.Env.{Env, IsJson, DomainState, Pending, NftEntry, add_table, delete_table, add_entry}
use ghostd.Nft.Owned.{
  nft_owned, nft_owned-some, nft_owned-none, owned_entries, owned_entries-again, cleaned,
  restore_commands, add_cleaned-map,
}
use ghostd.Effect.{Host, plain, advance}
use ghostd.Effect.Triple.{Triple, Triple-or_fail, Triple-sys}
use ghostd.State.Domain.{save_domain}
use ghostd.State.Records.{stored, firewall_IsPlaced, Saved, Unsaved, Timeless, Triple-save_domain}
use ghostd.Rpc.Executors.{nft_restore, enact}
use ghostd.Rpc.Apply.Firewall.{FirewallSnapshot}

-- Our entries of a listing, without the handles that nft gives to every object anew.
abbrev pub our_rules : (e : Env) → e.Kernel → Option (List (NftEntry e.Body))
our_rules e k = elim (e.nft_entries (e.nft_list k)) [
  | none ↦ none
  | some listed ↦ some (map cleaned (owned_entries listed))
]

our_rules-some :
    (e : Env) (k : e.Kernel) (listed : List (NftEntry e.Body))
    → e.nft_entries (e.nft_list k) ≡ some listed
    → our_rules e k ≡ some (map cleaned (owned_entries listed))
our_rules-some e k listed found = rw (found, our_rules) refl

-- What encoding/json and nft(8) promise. A document of entries is read back, and is not empty. And
-- when our table is added, deleted and loaded anew with what was once listed of it, each entry
-- without its handle, then a listing shows these entries again, under whatever handles.
pub record IsRestoring (e : Env) : Type 0 where
  pub read_back : (es : List (NftEntry e.Body)) → e.nft_entries (e.nft_document es) ≡ some es
  pub written : (es : List (NftEntry e.Body)) → e.is_empty (e.nft_document es) ≡ false
  pub loaded :
      (k now : e.Kernel) (listed : List (NftEntry e.Body))
      → e.nft_entries (e.nft_list k) ≡ some listed
      → (again : List (NftEntry e.Body)) × (e.nft_entries (
            e.nft_list (
              e.nft_load
                (add_table
                  ∷ delete_table
                  ∷ map (λ x. add_entry (record x { handle = none })) (owned_entries listed))
                now))
          ≡ some again)
        × (map cleaned (owned_entries again) ≡ map cleaned (owned_entries listed))

abbrev pub leasing : {Blob : Type 0} → Blob → Pending Blob → DomainState Blob
leasing confirmed lease = record { confirmed = confirmed; pending = some lease }

module _ {e : Env} (confirmed : e.Blob) (k : e.Kernel) where
  -- No lease is pending, and our part of the ruleset is as it was in k.
  pub record Undone (h : Host e) : Type 0 where
    pub record_is :
        stored "firewall" "nft-ruleset.json" h
        ≡ some (record { confirmed = confirmed; pending = none })
    pub rules : our_rules e h.kernel ≡ our_rules e k

  module _ (lease : Pending e.Blob) where
    -- The lease is pending, with our part of the ruleset as it was in k.
    pub record Due (h : Host e) : Type 0 where
      pub record_is : stored "firewall" "nft-ruleset.json" h ≡ some (leasing confirmed lease)
      pub snapshot : FirewallSnapshot e k lease.snapshot

    -- The ruleset is back, the lease still recorded.
    pub record Back (h : Host e) : Type 0 where
      pub due : Due h
      pub rules : our_rules e h.kernel ≡ our_rules e k

    abbrev pub DueOrUndone : Host e → Type 0
    DueOrUndone h = Due h ⊎ Undone h

    pub Due-timeless : Timeless Due
    Due-timeless h d = record { record_is = d.record_is; snapshot = d.snapshot }

    Back-Saved :
        (h h' : Host e)
        → Back h
        → Saved "firewall" "nft-ruleset.json"
            (record { confirmed = confirmed; pending = none })
            h
            h'
        → Undone h'
    Back-Saved h h' b w = record { record_is = w.record_is; rules = rw w.kernel b.rules }

    Back-either :
        (h h' : Host e)
        → Back h
        → Unsaved "firewall" "nft-ruleset.json" h h'
          ⊎ Saved "firewall" "nft-ruleset.json"
              (record { confirmed = confirmed; pending = none })
              h
              h'
        → DueOrUndone h'
    Back-either h h' b (inl u) =
        inl (record { record_is = u.record_is ∙ b.due.record_is; snapshot = b.due.snapshot })
    Back-either h h' b (inr w) = inr (Back-Saved h h' b w)

    -- So it is, and so many steps have been made.
    abbrev pub DueFrom : ℕ → Host e → Type 0
    DueFrom t h = Due h × (t ≤ h.step)

    abbrev pub BackFrom : ℕ → Host e → Type 0
    BackFrom t h = Back h × (t ≤ h.step)

    abbrev pub UndoneFrom : ℕ → Host e → Type 0
    UndoneFrom t h = Undone h × (t ≤ h.step)

    pub DueFrom-timeless : (t : ℕ) → Timeless (DueFrom t)
    DueFrom-timeless t h d = (Due-timeless h d.0, omega (arith, d.1))

    pub Triple-clear_lease :
        IsJson e
        → (t : ℕ)
        → Triple
            (BackFrom t)
            (save_domain "firewall" (record { confirmed = confirmed; pending = none }))
            (λ _. UndoneFrom t)
            (λ _. DueOrUndone)
    Triple-clear_lease json t =
        Triple-save_domain json (firewall_IsPlaced e)
          (record { confirmed = confirmed; pending = none })
          (λ h h' b w. (Back-Saved h h' b.0 w, omega (arith, b.1, w.later)))
          (λ o h h' b r. Back-either h h' b.0 r)

    module _ (nft : IsRestoring e) where
      -- What a snapshot of a listing holds, and what loading it again shows.
      Taken : List (NftEntry e.Body) → Type 0
      Taken listed =
          (e.nft_entries (e.nft_list k) ≡ some listed)
          × (lease.snapshot ≡ e.nft_document (owned_entries listed))

      snapshot-Taken :
          FirewallSnapshot e k lease.snapshot → (listed : List (NftEntry e.Body)) × Taken listed
      unfolding Taken
      snapshot-Taken taken = elim (Option-cases (e.nft_entries (e.nft_list k))) [
        | inl nothing ↦ absurd (cc (sym (nft_owned-none e _ nothing) ∙ taken))
        | inr (listed, found) ↦
            (listed, (found, some_inj (sym taken ∙ nft_owned-some e _ listed found)))
      ]

      owned-snapshot :
          (listed : List (NftEntry e.Body))
          → Taken listed
          → nft_owned e lease.snapshot ≡ some lease.snapshot
      unfolding Taken
      owned-snapshot listed (found, is) = rw is (
          nft_owned-some e _ (owned_entries listed) (nft.read_back (owned_entries listed))
          ∙ ap (λ es. some (e.nft_document es)) (owned_entries-again listed))

      entries-snapshot :
          (listed : List (NftEntry e.Body))
          → Taken listed
          → e.nft_entries lease.snapshot ≡ some (owned_entries listed)
      unfolding Taken
      entries-snapshot listed (found, is) = rw is (nft.read_back (owned_entries listed))

      -- The snapshot is what it owns, and can be read.
      abbrev pub Readable : Type 0
      Readable =
          (listed : List (NftEntry e.Body)) × (nft_owned e lease.snapshot ≡ some lease.snapshot)
          × (e.nft_entries lease.snapshot ≡ some listed)

      pub readable : FirewallSnapshot e k lease.snapshot → Readable
      readable snapshot =
          let (listed, taken) = snapshot-Taken snapshot in
          (owned_entries listed, owned-snapshot listed taken, entries-snapshot listed taken)

      loaded-Back :
          (listed : List (NftEntry e.Body))
          → Taken listed
          → (h : Host e) → Due h
          → Back (
              advance (record h {
                kernel = e.nft_load (restore_commands (owned_entries listed)) h.kernel;
              }))
      unfolding restore_commands Taken
      loaded-Back listed (found, is) h d =
          let (again, shown, same) = nft.loaded k h.kernel listed found in
          record {
            due = record { record_is = d.record_is; snapshot = d.snapshot };
            rules = rw (add_cleaned-map (owned_entries listed)) (
                our_rules-some e _ again shown
                ∙ (ap some same ∙ sym (our_rules-some e k listed found)));
          }

      pub Triple-nft_restore :
          (t : ℕ) → Triple (DueFrom t) (nft_restore lease.snapshot) (λ _. BackFrom t) (λ _. Due)
      unfolding nft_restore enact Taken
      Triple-nft_restore t = record {
        run = λ h d. (by_snapshot (snapshot-Taken d.0.snapshot)).run h d;
      }
        where
          by_snapshot :
              (listed : List (NftEntry e.Body)) × Taken listed
              → Triple (DueFrom t) (nft_restore lease.snapshot) (λ _. BackFrom t) (λ _. Due)
          by_snapshot (listed, taken) =
              let full : e.is_empty lease.snapshot ≡ false =
                rw taken.1 (nft.written (owned_entries listed)) in
              rw (full, nft_restore)
                (Triple-or_fail plain (nft_owned e lease.snapshot) _
                  (λ owned found.
                    let whole : owned ≡ lease.snapshot =
                      some_inj (sym found ∙ owned-snapshot listed taken) in
                    Triple-or_fail plain (e.nft_entries owned) _
                      (λ entries got.
                        let same : entries ≡ owned_entries listed =
                          some_inj
                            (sym got ∙ (ap e.nft_entries whole ∙ entries-snapshot listed taken)) in
                        Triple-sys _ _
                          (λ h d. (rw same (loaded-Back listed taken h d.0), omega (arith, d.1)))
                          (λ o h d. record { record_is = d.0.record_is; snapshot = d.0.snapshot }))
                      (λ h d _. d.0))
                  (λ h d _. d.0))
