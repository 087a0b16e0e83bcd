-- ===== src/Ledger/Indexed.antt =====
-- internal/addressbook: the indices hold exactly what the bindings say, through every save.
pub mod Save
use ghostd.Prelude.{
  ℕ, String, ◌==◌, ◌≡◌, refl, sym, ◌∙◌, ap, Bool, true, false, ◌&&◌, ◌||◌, not, List, [], ◌∷◌, ◌++◌,
  ◌⊎◌, inl, inr, if◌then◌else◌, arith, eq_iff, eq_refl, subst, All, Bool-cases,
}
use ghostd.Ledger.Binding.{Binding, active, is_live, is_active, no_binding, unset}
use ghostd.Ledger.Keys.{
  Key, key_eq, key_eq_iff, has_key, put_key, delete_key, has_key-put_key, has_key-delete_key,
}
use ghostd.Ledger.Store.{
  index_entries, one_if, client_key, mac_key, name_key, addr_key, expiry_key, dns_key, delete_all,
  put_all, reindexed, resaved, is_delegated, rewritten, put_slot,
}
use ghostd.Ledger.Tx.{Ledger, Slot, absent, corrupt, holds}

-- The keys that a binding stands under, and those that a save removes for it.
abbrev pub keys_of : Binding → List Key
keys_of b =
    index_entries b
    ++ one_if (is_live b.state) (expiry_key b)
        (one_if (is_active b.state && not (is_delegated b)) (dns_key b) [])

abbrev removed_for : Binding → List Key
removed_for b =
    index_entries b
    ++ one_if (is_live b.state) (expiry_key b) (one_if (not (b.name == "")) (dns_key b) [])

pub has_key-append :
    (k : Key) (js ks : List Key) → has_key k (js ++ ks) ≡ (has_key k js || has_key k ks)
unfolding has_key
has_key-append k [] ks = refl
has_key-append k (j ∷ js) ks = ground (arith, has_key-append k js ks)

has_key-one_if :
    (k : Key) (b : Bool) (j : Key) (ks : List Key)
    → has_key k (one_if b j ks) ≡ ((b && key_eq j k) || has_key k ks)
unfolding has_key
has_key-one_if k true j ks = refl
has_key-one_if k false j ks = refl

has_key-delete_all :
    (k : Key) (ks index : List Key)
    → has_key k (delete_all ks index) ≡ (not (has_key k ks) && has_key k index)
unfolding has_key delete_all
has_key-delete_all k [] index = refl
has_key-delete_all k (j ∷ js) index =
    ground (arith, has_key-delete_all k js (delete_key j index), has_key-delete_key k j index)

has_key-put_all :
    (k : Key) (ks index : List Key)
    → has_key k (put_all ks index) ≡ (has_key k ks || has_key k index)
unfolding has_key put_all
has_key-put_all k [] index = refl
has_key-put_all k (j ∷ js) index =
    ground (arith, has_key-put_all k js (put_key j index), has_key-put_key k j index)

has_key-delete_if :
    (k j : Key) (c : Bool) (index : List Key)
    → has_key k (if c then delete_key j index else index)
      ≡ (not (c && key_eq j k) && has_key k index)
has_key-delete_if k j true index = has_key-delete_key k j index
has_key-delete_if k j false index = refl

has_key-put_if :
    (k j : Key) (c : Bool) (index : List Key)
    → has_key k (if c then put_key j index else index) ≡ ((c && key_eq j k) || has_key k index)
has_key-put_if k j true index = has_key-put_key k j index
has_key-put_if k j false index = refl

pub All-has_key :
    (P : Key → Type 0) (ks : List Key) (k : Key) → All P ks → has_key k ks ≡ true → P k
unfolding has_key
All-has_key P [] k all h = cc
All-has_key P (j ∷ js) k all h = elim (Bool-cases (key_eq j k)) [
  | inl here ↦ subst P ((key_eq_iff j k).0 here) all.0
  | inr other ↦ All-has_key P js k all.1 (ground arith)
]

pub All-one_if :
    (P : Key → Type 0) (c : Bool) (j : Key) (ks : List Key) → P j → All P ks → All P (one_if c j ks)
All-one_if P true j ks p all = (p, all)
All-one_if P false j ks p all = all

pub All-append : (P : Key → Type 0) (js ks : List Key) → All P js → All P ks → All P (js ++ ks)
All-append P [] ks p q = q
All-append P (j ∷ js) ks p q = (p.0, All-append P js ks p.1 q)

-- What holds of each key that a binding may stand under holds of its index entries.
pub All-index_entries :
    (P : Key → Type 0) (b : Binding)
    → P (client_key b)
    → P (mac_key b)
    → P (name_key b)
    → P (addr_key b)
    → All P (index_entries b)
unfolding index_entries
All-index_entries P b c m n a = elim (Bool-cases (is_live b.state)) [
  | inl live ↦ rw live (
    c,
    All-one_if P (not (b.mac == "")) (mac_key b)
        (one_if (is_active b.state && not (b.name == "")) (name_key b) (addr_key b ∷ [])) m
        (All-one_if P (is_active b.state && not (b.name == "")) (name_key b) (addr_key b ∷ []) n
          (a, tt)),
  )
  | inr dead ↦ rw dead tt
]

entries_apart :
    (b old : Binding) (k : Key)
    → has_key k (index_entries b) ≡ true
    → key_eq (expiry_key old) k ≡ false
unfolding key_eq
entries_apart b old k h =
    All-has_key (λ j. key_eq (expiry_key old) j ≡ false) (index_entries b) k
      (All-index_entries (λ j. key_eq (expiry_key old) j ≡ false) b refl refl refl refl) h

-- The order of the writes does not matter: only a key that the old binding has and the new one has
-- not goes.
fold_moves :
    (eb xb db eo xo d_o i : Bool)
    → (eb && xo) ≡ false
    → (db || (xb || (not xo && (eb || (not eo && (not d_o && i))))))
      ≡ ((eb || (xb || db)) || (not (eo || (xo || d_o)) && i))
fold_moves true xb db eo true d_o i h = cc
fold_moves true true true eo false d_o i h = refl
fold_moves true true false eo false d_o i h = refl
fold_moves true false true eo false d_o i h = refl
fold_moves true false false eo false d_o i h = refl
fold_moves false true true eo xo d_o i h = refl
fold_moves false true false eo xo d_o i h = refl
fold_moves false false true eo xo d_o i h = refl
fold_moves false false false true true d_o i h = refl
fold_moves false false false true false d_o i h = refl
fold_moves false false false false true d_o i h = refl
fold_moves false false false false false d_o i h = refl

or-false : (b : Bool) → (b || false) ≡ b
or-false true = refl
or-false false = refl

live_apart :
    (b old : Binding) (k : Key)
    → (has_key k (index_entries b) && (is_live old.state && key_eq (expiry_key old) k)) ≡ false
live_apart b old k = ground (arith, entries_apart b old k)

pub has_key-keys :
    (k : Key) (b : Binding) (named : Bool)
    → has_key k
        (index_entries b ++ one_if (is_live b.state) (expiry_key b) (one_if named (dns_key b) []))
      ≡ (has_key k (index_entries b)
          || ((is_live b.state && key_eq (expiry_key b) k) || (named && key_eq (dns_key b) k)))
unfolding has_key
has_key-keys k b named =
    has_key-append k (index_entries b)
      (one_if (is_live b.state) (expiry_key b) (one_if named (dns_key b) []))
    ∙ ap (λ t. has_key k (index_entries b) || t)
        (has_key-one_if k (is_live b.state) (expiry_key b) (one_if named (dns_key b) [])
          ∙ ap (λ t. (is_live b.state && key_eq (expiry_key b) k) || t)
              (has_key-one_if k named (dns_key b) [] ∙ or-false (named && key_eq (dns_key b) k)))

has_key-reindexed :
    (k : Key) (old b : Binding) (index : List Key)
    → has_key k (reindexed old b index)
      ≡ (has_key k (index_entries b) || (not (has_key k (index_entries old)) && has_key k index))
unfolding reindexed
has_key-reindexed k old b index =
    rw (has_key-put_all k (index_entries b) (delete_all (index_entries old) index))
      (rw (has_key-delete_all k (index_entries old) index) refl)

-- The indices after a save: the new keys, and what was there but the old ones.
pub has_key-resaved :
    (k : Key) (old b : Binding) (index : List Key)
    → has_key k (resaved old b index)
      ≡ (has_key k (keys_of b) || (not (has_key k (removed_for old)) && has_key k index))
unfolding resaved
has_key-resaved k old b index =
    let named = is_active b.state && not (is_delegated b) in
    let unnamed = if not (old.name == "") then delete_key (dns_key old) index else index in
    let moved = reindexed old b unnamed in
    let stopped = if is_live old.state then delete_key (expiry_key old) moved else moved in
    let timed = if is_live b.state then put_key (expiry_key b) stopped else stopped in
    let d = named && key_eq (dns_key b) k in
    let x = is_live b.state && key_eq (expiry_key b) k in
    let xo = is_live old.state && key_eq (expiry_key old) k in
    let d_o = not (old.name == "") && key_eq (dns_key old) k in
    has_key-put_if k (dns_key b) named timed
    ∙ ap (λ t. d || t)
        (has_key-put_if k (expiry_key b) (is_live b.state) stopped
          ∙ ap (λ t. x || t)
              (has_key-delete_if k (expiry_key old) (is_live old.state) moved
                ∙ ap (λ t. not xo && t)
                    (has_key-reindexed k old b unnamed
                      ∙ ap
                          (λ t.
                            has_key k (index_entries b)
                            || (not (has_key k (index_entries old)) && t))
                          (has_key-delete_if k (dns_key old) (not (old.name == "")) index))))
    ∙ fold_moves (has_key k (index_entries b)) x d (has_key k (index_entries old)) xo d_o
        (has_key k index) (live_apart b old k)
    ∙ ap (λ t. t || (not (has_key k (index_entries old) || (xo || d_o)) && has_key k index))
        (sym (has_key-keys k b named))
    ∙ ap (λ t. has_key k (keys_of b) || (not t && has_key k index))
        (sym (has_key-keys k old (not (old.name == ""))))
