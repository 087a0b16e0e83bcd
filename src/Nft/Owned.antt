-- ===== src/Nft/Owned.antt =====
-- internal/nft/nft.go: OwnedRuleset and Restore, on the entries of nft's JSON.
use ghostd.Env.{Env, NftEntry, NftCommand, add_table, delete_table, add_entry}
use ghostd.Prelude.{
  ◌==◌, ◌≡◌, refl, ap, Bool, ◌&&◌, ◌||◌, Option, none, some, List, [], ◌∷◌, map, Bool-cases, inl,
  inr, if◌then◌else◌,
}

module _ {Body : Type 0} where
  -- The table of the entry, or its own name if it is one, is ours.
  unfoldable pub is_owned : NftEntry Body → Bool
  is_owned entry =
      entry.family == "inet"
      && (entry.table == "stack_ghostd" || (entry.kind == "table" && entry.name == "stack_ghostd"))

  unfoldable pub owned_entries : List (NftEntry Body) → List (NftEntry Body)
  unfolding is_owned
  owned_entries [] = []
  owned_entries (entry ∷ entries) =
      let rest = owned_entries entries in if is_owned entry then entry ∷ rest else rest

  -- delete(obj, "handle")
  abbrev pub cleaned : NftEntry Body → NftEntry Body
  cleaned entry = record entry { handle = none }

  unfoldable pub add_cleaned : List (NftEntry Body) → List (NftCommand Body)
  add_cleaned [] = []
  add_cleaned (entry ∷ entries) = add_entry (cleaned entry) ∷ add_cleaned entries

  unfoldable pub restore_commands : List (NftEntry Body) → List (NftCommand Body)
  unfolding add_cleaned
  restore_commands entries = add_table ∷ delete_table ∷ add_cleaned entries

  pub owned_entries-again :
      (entries : List (NftEntry Body))
      → owned_entries (owned_entries entries) ≡ owned_entries entries
  unfolding owned_entries
  owned_entries-again [] = refl
  owned_entries-again (entry ∷ entries) = elim (Bool-cases (is_owned entry)) [
    | inl ours ↦ rw ours (rw ours (ap (λ es. entry ∷ es) (owned_entries-again entries)))
    | inr other ↦ rw other (owned_entries-again entries)
  ]

  pub add_cleaned-map :
      (entries : List (NftEntry Body))
      → add_cleaned entries ≡ map (λ x. add_entry (record x { handle = none })) entries
  unfolding add_cleaned
  add_cleaned-map [] = refl
  add_cleaned-map (entry ∷ entries) =
      ap (λ cs. add_entry (cleaned entry) ∷ cs) (add_cleaned-map entries)

-- OwnedRuleset
unfoldable pub nft_owned : (e : Env) → e.Blob → Option e.Blob
unfolding owned_entries
nft_owned e raw = elim (e.nft_entries raw) [
  | none ↦ none
  | some entries ↦ some (e.nft_document (owned_entries entries))
]

pub nft_owned-some :
    (e : Env) (raw : e.Blob) (entries : List (NftEntry e.Body))
    → e.nft_entries raw ≡ some entries
    → nft_owned e raw ≡ some (e.nft_document (owned_entries entries))
unfolding nft_owned
nft_owned-some e raw entries found = rw (found, nft_owned) refl

pub nft_owned-none : (e : Env) (raw : e.Blob) → e.nft_entries raw ≡ none → nft_owned e raw ≡ none
unfolding nft_owned
nft_owned-none e raw found = rw (found, nft_owned) refl
