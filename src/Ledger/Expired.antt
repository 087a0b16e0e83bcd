-- ===== src/Ledger/Expired.antt =====
-- internal/addressbook/allocate.go: what Store.Expire does to the bindings and their indices.
pub mod DueKey
pub mod Earliest
pub mod Whole
use ghostd.Prelude.{
  ℕ, zero, suc, ◌≤◌, String, ◌==◌, ◌≡◌, refl, sym, ◌∙◌, ap, subst, arith, eq_iff, eq_refl, Bool,
  true, false, ◌&&◌, ◌||◌, not, List, [], ◌∷◌, ◌++◌, ◌⊎◌, inl, inr, Bool-cases, All, if◌then◌else◌,
  leb, nat_eq,
}
use ghostd.Ledger.Binding.{Binding, LeaseState, expired, is_live, is_active}
use ghostd.Ledger.Indexed.{keys_of, All-has_key, All-append, All-index_entries}
use ghostd.Ledger.Indexed.Save.{IsIndexed, save_binding-IsIndexed}
use ghostd.Ledger.Keys.{Key, key_eq, key_eq_iff, has_key, delete_key, has_key-delete_key}
use ghostd.Ledger.Policy.{Stores, save_binding-Stores}
use ghostd.Ledger.Policy.Whole.{update-eq-ok}
use ghostd.Ledger.Release.{
  due_keys, ends_now, expire_slot, slot_at, slot_under, expire_key, expire_all, expiring, expire,
}
use ghostd.Ledger.Saved.{>>=-eq-ok}
use ghostd.Ledger.Store.{save_binding, index_entries, one_if, expiry_key, dns_key, is_delegated}
use ghostd.Ledger.Tx.{
  Ledger, Slot, absent, corrupt, holds, Tx, Result, ok, err, ◌>>=◌, ◌>>◌, pure, gets, modify,
  update,
}

-- A key of the expiry index that a binding stands under is the binding's, and the binding is live.
abbrev Ends : Binding → Key → Type 0
Ends b k = (k.bucket == "expiry-v1") ≡ true → (k ≡ expiry_key b) × (is_live b.state ≡ true)

keys_of-Ends : (b : Binding) (k : Key) → has_key k (keys_of b) ≡ true → Ends b k
keys_of-Ends b k h =
    All-has_key (Ends b) (keys_of b) k
      (All-append (Ends b) (index_entries b) tail
        (All-index_entries (Ends b) b (λ f. absurd (cc f)) (λ f. absurd (cc f)) (λ f. absurd (cc f))
          (λ f. absurd (cc f)))
        (timer (is_live b.state) refl))
      h
  where
    named : List Key
    named = one_if (is_active b.state && not (is_delegated b)) (dns_key b) []

    tail : List Key
    tail = one_if (is_live b.state) (expiry_key b) named

    names : (d : Bool) → All (Ends b) (one_if d (dns_key b) [])
    names true = ((λ f. absurd (cc f)), tt)
    names false = tt

    timer : (l : Bool) → is_live b.state ≡ l → All (Ends b) (one_if l (expiry_key b) named)
    timer true is = ((λ _. (refl, is)), names (is_active b.state && not (is_delegated b)))
    timer false is = names (is_active b.state && not (is_delegated b))

-- The key says nothing of what is stored.
abbrev pub Stale : Ledger → Key → Type 0
Stale l k = (b : Binding) → slot_at k l ≡ holds b → ends_now k b ≡ false

key_at : (b : Binding) (l : Ledger) → slot_at (expiry_key b) l ≡ l.bindings b.scope b.address
unfolding slot_at slot_under
key_at b l = refl

-- A stale key of the expiry index is none that a binding needs.
unneeded :
    (l : Ledger) (k : Key)
    → IsIndexed l
    → (k.bucket == "expiry-v1") ≡ true
    → Stale l k
    → (s a : String) (c : Binding) → l.bindings s a ≡ holds c
    → has_key k (keys_of c) ≡ true
    → ⊥
unneeded l k inv bucket stale s a c e h =
    let (is, live) = keys_of-Ends c k h bucket in
    let at = inv.placed s a c e in
    let here : slot_at k l ≡ holds c =
      ap (λ x. slot_at x l) is ∙ key_at c l ∙ (λ i. l.bindings (at.0 i) (at.1 i)) ∙ e in
    let not_now = subst (λ x. ends_now x c ≡ false) is (stale c here) in
    ground (arith, not_now, live)

-- Without a key that no binding needs the indices still agree with the bindings.
delete_key-IsIndexed :
    (l : Ledger) (k : Key)
    → IsIndexed l
    → (k.bucket == "expiry-v1") ≡ true
    → Stale l k
    → IsIndexed (record l { index = delete_key k l.index })
delete_key-IsIndexed l k inv bucket stale = record {
  placed = inv.placed;
  named = inv.named;
  complete = λ s a c j e h.
      let kept = inv.complete s a c j e h in
      has_key-delete_key j k l.index ∙ elim (Bool-cases (key_eq k j)) [
        | inr other ↦ ground (arith, other, kept)
        | inl same ↦ absurd (
            unneeded l k inv bucket stale s a c e
              (subst (λ x. has_key x (keys_of c) ≡ true) (sym ((key_eq_iff k j).0 same)) h))
      ];
  sound = λ j h. inv.sound j (ground (arith, has_key-delete_key j k l.index, h));
}

-- A slot is as it was, or its live binding, which was due, has expired.
abbrev pub Expires : ℕ → Ledger → Ledger → Type 0
Expires now l l' =
    (s a : String)
    → (l'.bindings s a ≡ l.bindings s a)
      ⊎ ((b : Binding) × (l.bindings s a ≡ holds b)
          × (is_live b.state ≡ true)
          × (b.end ≤ now)
          × (l'.bindings s a ≡ holds (record b { state = expired })))

pub Expires-trans :
    (now : ℕ) (l l1 l2 : Ledger) → Expires now l l1 → Expires now l1 l2 → Expires now l l2
Expires-trans now l l1 l2 p q s a = elim (p s a) [
  | inl same ↦ elim (q s a) [
    | inl same' ↦ inl (same' ∙ same)
    | inr (b, e, live, late, e') ↦ inr (b, sym same ∙ e, live, late, e')
  ]
  | inr (b, e, live, late, e') ↦ elim (q s a) [
    | inl same ↦ inr (b, e, live, late, same ∙ e')
    | inr (b', f, live', late', f') ↦
        absurd (cc (subst (λ x. is_live_slot x ≡ true) (sym f ∙ e') live'))
  ]
]
  where
    is_live_slot : Slot → Bool
    is_live_slot (holds x) = is_live x.state
    is_live_slot absent = false
    is_live_slot corrupt = false

Expires-slot_under :
    (now : ℕ) (l l' : Ledger) (parts : List String)
    → Expires now l l'
    → (slot_under parts l' ≡ slot_under parts l)
      ⊎ ((b : Binding) × (slot_under parts l' ≡ holds (record b { state = expired })))
unfolding slot_under
Expires-slot_under now l l' (s ∷ a ∷ []) p = elim (p s a) [
  | inl same ↦ inl same
  | inr (b, e, live, late, e') ↦ inr (b, e')
]
Expires-slot_under now l l' [] p = inl refl
Expires-slot_under now l l' (s ∷ []) p = inl refl
Expires-slot_under now l l' (s ∷ a ∷ b ∷ c) p = inl refl

expired-ends_now :
    (k : Key) (b c : Binding)
    → holds (record b { state = expired }) ≡ holds c
    → ends_now k c ≡ false
expired-ends_now k b c h = subst (λ (x : Slot). ends_slot x ≡ false) h refl
  where
    ends_slot : Slot → Bool
    ends_slot (holds x) = ends_now k x
    ends_slot absent = false
    ends_slot corrupt = false

-- A key that says nothing says nothing after more has expired.
pub Expires-Stale : (now : ℕ) (l l' : Ledger) (k : Key) → Expires now l l' → Stale l k → Stale l' k
unfolding slot_at
Expires-Stale now l l' k p stale c h = elim (Expires-slot_under now l l' k.parts p) [
  | inl same ↦ stale c (sym same ∙ h)
  | inr (b, gone) ↦ expired-ends_now k b c (sym gone ∙ h)
]

-- A slot that holds a binding is under a scope and an address.
under :
    (parts : List String) (b : Binding) (l : Ledger)
    → slot_under parts l ≡ holds b
    → (s : String) × (a : String) × (parts ≡ s ∷ a ∷ []) × (l.bindings s a ≡ holds b)
unfolding slot_under
under (s ∷ a ∷ []) b l h = (s, a, refl, h)
under [] b l h = cc
under (s ∷ []) b l h = cc
under (s ∷ a ∷ t ∷ u) b l h = cc

under_now :
    (parts : List String) (s a : String) (l : Ledger)
    → parts ≡ s ∷ a ∷ []
    → slot_under parts l ≡ l.bindings s a
unfolding slot_under
under_now parts s a l is = rw is refl

pub holds_inj : (b c : Binding) → holds b ≡ holds c → b ≡ c
holds_inj b c h = ap held_in h
  where
    held_in : Slot → Binding
    held_in (holds x) = x
    held_in absent = b
    held_in corrupt = b

same_slot : (s a s' a' : String) → ((s ≡ s') × (a ≡ a')) ⊎ ((s ≡ s') × (a ≡ a') → ⊥)
same_slot s a s' a' = elim (Bool-cases (s == s' && a == a')) [
  | inl same ↦ inl (ground (arith, eq_iff s s'), ground (arith, eq_iff a a'))
  | inr other ↦ inr (λ e. ground (arith, eq_iff s s', eq_iff a a'))
]
