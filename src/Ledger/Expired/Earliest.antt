-- ===== src/Ledger/Expired/Earliest.antt =====
-- internal/addressbook/allocate.go: which keys Store.Expire looks at, in an index that is in order.
use ghostd.Prelude.{
  ℕ, zero, suc, String, ◌≤◌, ◌<◌, ◌==◌, ◌&&◌, not, Bool, ◌≡◌, refl, sym, ap, subst, arith, true,
  false, List, [], ◌∷◌, ◌⊎◌, inl, inr, Bool-cases, All, All-mono, leb, length, if◌then◌else◌,
}
use ghostd.Ledger.Keys.{
  Key, key_eq, key_eq_iff, key_before, has_key, place_key, delete_key, put_key,
}
use ghostd.Ledger.Release.{due_keys}
use ghostd.Ledger.Saved.{save_binding-eq-ok}
use ghostd.Ledger.Store.{
  save_binding, append_event, rewritten, delete_all, put_all, reindexed, resaved, index_entries,
  dns_key, expiry_key, is_delegated,
}
use ghostd.Ledger.Binding.{Binding, is_active, is_live}
use ghostd.Ledger.Indexed.{All-has_key}
use ghostd.Ledger.Tx.{Ledger, ok}

-- No key of the index has a larger number than a later one: the order of a cursor.
abbrev pub IsOrdered : List Key → Type 0
IsOrdered [] = Unit
IsOrdered (k ∷ ks) = All (λ j. k.number ≤ j.number) ks × IsOrdered ks

abbrev From : ℕ → Key → Type 0
From n j = n ≤ j.number

delete_key-All : (P : Key → Type 0) (k : Key) (ks : List Key) → All P ks → All P (delete_key k ks)
unfolding delete_key
delete_key-All P k [] all = tt
delete_key-All P k (j ∷ js) all = elim (Bool-cases (key_eq j k)) [
  | inl same ↦ rw same (delete_key-All P k js all.1)
  | inr other ↦ rw other (all.0, delete_key-All P k js all.1)
]

pub delete_key-IsOrdered : (k : Key) (ks : List Key) → IsOrdered ks → IsOrdered (delete_key k ks)
unfolding delete_key
delete_key-IsOrdered k [] o = tt
delete_key-IsOrdered k (j ∷ js) o = elim (Bool-cases (key_eq j k)) [
  | inl same ↦ rw same (delete_key-IsOrdered k js o.1)
  | inr other ↦ rw other (delete_key-All (From j.number) k js o.0, delete_key-IsOrdered k js o.1)
]

place_key-All :
    (P : Key → Type 0) (k : Key) (ks : List Key) → P k → All P ks → All P (place_key k ks)
unfolding place_key
place_key-All P k [] p all = (p, tt)
place_key-All P k (j ∷ js) p all = elim (Bool-cases (key_before k j)) [
  | inl first ↦ rw first (p, all)
  | inr later ↦ rw later (all.0, place_key-All P k js p all.1)
]

before-small : (k j : Key) → key_before k j ≡ true → k.number ≤ j.number
unfolding key_before
before-small k j h = ground (arith, h)

after-large : (k j : Key) → key_before k j ≡ false → j.number ≤ k.number
unfolding key_before
after-large k j h = ground (arith, h)

raise : (m n : ℕ) → m ≤ n → (ks : List Key) → All (From n) ks → All (From m) ks
raise m n le ks all = All-mono (From n) (From m) ks (λ j q. omega (arith, le, q)) all

place_key-IsOrdered : (k : Key) (ks : List Key) → IsOrdered ks → IsOrdered (place_key k ks)
unfolding place_key
place_key-IsOrdered k [] o = (tt, tt)
place_key-IsOrdered k (j ∷ js) o = elim (Bool-cases (key_before k j)) [
  | inl first ↦
      let le = before-small k j first in rw first ((le, raise k.number j.number le js o.0), o)
  | inr later ↦
      rw later (
        place_key-All (From j.number) k js (after-large k j later) o.0,
        place_key-IsOrdered k js o.1,
      )
]

put_key-IsOrdered : (k : Key) (ks : List Key) → IsOrdered ks → IsOrdered (put_key k ks)
unfolding put_key
put_key-IsOrdered k ks o = place_key-IsOrdered k (delete_key k ks) (delete_key-IsOrdered k ks o)

delete_all-IsOrdered : (js ks : List Key) → IsOrdered ks → IsOrdered (delete_all js ks)
unfolding delete_all
delete_all-IsOrdered [] ks o = o
delete_all-IsOrdered (j ∷ js) ks o =
    delete_all-IsOrdered js (delete_key j ks) (delete_key-IsOrdered j ks o)

put_all-IsOrdered : (js ks : List Key) → IsOrdered ks → IsOrdered (put_all js ks)
unfolding put_all
put_all-IsOrdered [] ks o = o
put_all-IsOrdered (j ∷ js) ks o = put_all-IsOrdered js (put_key j ks) (put_key-IsOrdered j ks o)

-- What a save leaves in the index is in order again.
resaved-IsOrdered :
    (old b : Binding) (index : List Key) → IsOrdered index → IsOrdered (resaved old b index)
unfolding resaved reindexed
resaved-IsOrdered old b index o = put_if (is_active b.state && not (is_delegated b)) (dns_key b) _ (
    put_if (is_live b.state) (expiry_key b) _ (
      delete_if (is_live old.state) (expiry_key old) _ (
        put_all-IsOrdered (index_entries b) _ (
          delete_all-IsOrdered (index_entries old) _
            (delete_if (not (old.name == "")) (dns_key old) index o)))))
  where
    put_if :
        (c : Bool) (k : Key) (ks : List Key)
        → IsOrdered ks
        → IsOrdered (if c then put_key k ks else ks)
    put_if true k ks q = put_key-IsOrdered k ks q
    put_if false k ks q = q

    delete_if :
        (c : Bool) (k : Key) (ks : List Key)
        → IsOrdered ks
        → IsOrdered (if c then delete_key k ks else ks)
    delete_if true k ks q = delete_key-IsOrdered k ks q
    delete_if false k ks q = q

-- So is the index after a save.
pub save_binding-IsOrdered :
    (clock : ℕ → ℕ) (b : Binding) (kind : String) (l l' : Ledger)
    → IsOrdered l.index
    → save_binding clock b kind l ≡ ok (tt, l')
    → IsOrdered l'.index
unfolding append_event rewritten
save_binding-IsOrdered clock b kind l l' o h =
    let (old, read, after) = save_binding-eq-ok clock b kind l l' h in
    subst (λ (x : Ledger). IsOrdered x.index) (sym after) (resaved-IsOrdered old b l.index o)

-- Behind a key that is not due yet none is.
too_late :
    (j : Key) (js : List Key) (k : Key) (now : ℕ)
    → All (From j.number) js
    → now < j.number
    → has_key k (j ∷ js) ≡ true
    → k.number ≤ now
    → ⊥
unfolding has_key
too_late j js k now all early there due = elim (Bool-cases (key_eq j k)) [
  | inl same ↦ omega (arith, early, due, ap (λ (x : Key). x.number) ((key_eq_iff j k).0 same))
  | inr apart ↦
      let far = All-has_key (From j.number) js k all (ground (arith, there, apart)) in
      omega (arith, early, due, far)
]

-- A full room, or every due key of the index.
pub due_keys-every :
    (room now : ℕ) (ks : List Key)
    → IsOrdered ks
    → (length (due_keys room now ks) ≡ room)
      ⊎ ((k : Key)
          → has_key k ks ≡ true
          → (k.bucket == "expiry-v1") ≡ true
          → k.number ≤ now
          → has_key k (due_keys room now ks) ≡ true)
unfolding due_keys has_key
due_keys-every zero now ks o = inl refl
due_keys-every (suc room) now [] o = inr (λ k there. absurd (cc there))
due_keys-every (suc room) now (j ∷ js) o = elim (Bool-cases (j.bucket == "expiry-v1")) [
  | inr other ↦
      rw (other, due_keys)
        (elim (due_keys-every (suc room) now js o.1) [
          | inl full ↦ inl full
          | inr every ↦ inr (λ k there timer late. elim (Bool-cases (key_eq j k)) [
            | inl same ↦ absurd (
                cc (
                  subst (λ x. (x.bucket == "expiry-v1") ≡ false) ((key_eq_iff j k).0 same) other,
                  timer,
                ))
            | inr apart ↦ every k (ground (arith, there, apart)) timer late
          ])
        ])
  | inl timer ↦ elim (Bool-cases (leb j.number now)) [
    | inr early ↦
        rw (timer, due_keys)
          (rw (early, due_keys)
            (inr (λ k there _ due.
              absurd (too_late j js k now o.0 (ground (arith, early)) there due))))
    | inl late ↦
        rw (timer, due_keys)
          (rw (late, due_keys)
            (elim (due_keys-every room now js o.1) [
              | inl full ↦ inl (ground (arith, full))
              | inr every ↦ inr (λ k there timed due. elim (Bool-cases (key_eq j k)) [
                | inl same ↦ ground (arith, same)
                | inr apart ↦
                    ground (arith, apart, every k (ground (arith, there, apart)) timed due)
              ])
            ]))
  ]
]
