-- ===== src/Ledger/Indexed/Save.antt =====
-- internal/addressbook/store.go: what a save keeps of the agreement of the bindings and their
-- indices.
use ghostd.Prelude.{
  ℕ, String, ◌==◌, ◌≡◌, refl, sym, ◌∙◌, ap, Bool, true, false, ◌&&◌, ◌||◌, not, [], ◌∷◌, ◌++◌, ◌⊎◌,
  inl, inr, if◌then◌else◌, arith, eq_refl, subst, All, Bool-cases,
}
use ghostd.Ledger.Binding.{Binding, is_live, is_active}
use ghostd.Ledger.Keys.{Key, has_key, key_eq}
use ghostd.Ledger.Indexed.{
  keys_of, removed_for, has_key-resaved, has_key-keys, All-has_key, All-one_if, All-append,
  All-index_entries,
}
use ghostd.Ledger.Store.{
  index_entries, one_if, expiry_key, dns_key, resaved, is_delegated, rewritten, save_binding,
  append_event,
}
use ghostd.Ledger.Saved.{Reads, read_binding-Reads, slot_after, save_binding-eq-ok}
use ghostd.Ledger.Tx.{Ledger, holds, ok}

-- The scope and the address that a key ends in.
abbrev slot_of : Key → String × String
slot_of k =
    if k.bucket == "expiry-v1"
    then elim k.parts [ s ∷ a ∷ [] ↦ (s, a) | _ ↦ ("", "") ]
    else if k.bucket == "dns-v1"
    then elim k.parts [ s ∷ n ∷ a ∷ [] ↦ (s, a) | _ ↦ ("", "") ]
    else if k.bucket == "idx-addr-v1"
    then elim k.parts [ a ∷ s ∷ [] ↦ (s, a) | _ ↦ ("", "") ]
    else elim k.parts [ c ∷ s ∷ a ∷ [] ↦ (s, a) | _ ↦ ("", "") ]

abbrev Names : Binding → Key → Type 0
Names b k = slot_of k ≡ (b.scope, b.address)

All-Names :
    (b : Binding) (named : Bool)
    → All
        (Names b)
        (index_entries b ++ one_if (is_live b.state) (expiry_key b) (one_if named (dns_key b) []))
All-Names b named =
    All-append (Names b) (index_entries b)
      (one_if (is_live b.state) (expiry_key b) (one_if named (dns_key b) []))
      (All-index_entries (Names b) b refl refl refl refl)
      (All-one_if (Names b) (is_live b.state) (expiry_key b) (one_if named (dns_key b) []) refl
        (All-one_if (Names b) named (dns_key b) [] refl tt))

-- A key of a binding and a key that is removed for another one differ where their slots do.
same_slot :
    (b old : Binding) (k : Key)
    → has_key k (keys_of b) ≡ true
    → has_key k (removed_for old) ≡ true
    → (b.scope ≡ old.scope) × (b.address ≡ old.address)
same_slot b old k h g =
    let mine =
      All-has_key (Names b) (keys_of b) k (All-Names b (is_active b.state && not (is_delegated b)))
        h in
    let others =
      All-has_key (Names old) (removed_for old) k (All-Names old (not (old.name == ""))) g in
    let same = sym mine ∙ others in (ap (λ p. p.0) same, ap (λ p. p.1) same)

-- An active binding has a name.
abbrev pub IsNamed : Binding → Type 0
IsNamed b = is_active b.state ≡ true → (b.name == "") ≡ false

widen :
    (e x live plain unnamed d : Bool)
    → (live ≡ true → unnamed ≡ false)
    → (e || (x || ((live && plain) && d))) ≡ true
    → (e || (x || (not unnamed && d))) ≡ true
widen e x live plain unnamed d n h = ground arith

-- A named binding is removed from wherever it stands.
removed_keys :
    (b : Binding) (k : Key)
    → IsNamed b
    → has_key k (keys_of b) ≡ true
    → has_key k (removed_for b) ≡ true
removed_keys b k n h =
    has_key-keys k b (not (b.name == ""))
    ∙ widen (has_key k (index_entries b)) (is_live b.state && key_eq (expiry_key b) k)
        (is_active b.state) (not (is_delegated b)) (b.name == "") (key_eq (dns_key b) k) n
        (sym (has_key-keys k b (is_active b.state && not (is_delegated b))) ∙ h)

-- The bindings and their indices agree: each binding stands under its own scope and address, has
-- all its keys in the indices, and a name if it is active, and every key in the indices is one of a
-- binding that is stored.
pub record IsIndexed (l : Ledger) : Type 0 where
  pub placed :
      (s a : String) (b : Binding) → l.bindings s a ≡ holds b → (b.scope ≡ s) × (b.address ≡ a)
  pub named : (s a : String) (b : Binding) → l.bindings s a ≡ holds b → IsNamed b
  pub complete :
      (s a : String) (b : Binding) (k : Key)
      → l.bindings s a ≡ holds b
      → has_key k (keys_of b) ≡ true
      → has_key k l.index ≡ true
  pub sound :
      (k : Key)
      → has_key k l.index ≡ true
      → (s : String) × (a : String) × (b : Binding) × (l.bindings s a ≡ holds b)
        × (has_key k (keys_of b) ≡ true)

or-true : (b : Bool) → (b || true) ≡ true
or-true true = refl
or-true false = refl

new_or_old : (n r i : Bool) → (n || (not r && i)) ≡ true → (n ≡ true) ⊎ ((r ≡ false) × (i ≡ true))
new_or_old true r i h = inl refl
new_or_old false false true h = inr (refl, refl)
new_or_old false false false h = cc
new_or_old false true i h = cc

-- The indices after the write of `b`, whatever the save has read.
module _ (l : Ledger) (old b : Binding) (inv : IsIndexed l) (n : IsNamed b)
    (r : Reads l b.scope b.address old) where
  rewritten_slot :
      (s a : String) (c : Binding)
      → (rewritten old b l).bindings s a ≡ holds c
      → ((s ≡ b.scope) × (a ≡ b.address) × (b ≡ c))
        ⊎ (((s ≡ b.scope) × (a ≡ b.address) → ⊥) × (l.bindings s a ≡ holds c))
  unfolding rewritten
  rewritten_slot s a c h = elim (slot_after b.scope b.address s a (holds b) l.bindings) [
    | inl (s_eq, a_eq, e) ↦ inl (s_eq, a_eq, cc)
    | inr (other, e) ↦ inr (other, sym e ∙ h)
  ]

  -- No key of another slot's binding is removed.
  kept_key :
      (s a : String) (c : Binding) (k : Key)
      → ((s ≡ b.scope) × (a ≡ b.address) → ⊥)
      → l.bindings s a ≡ holds c
      → has_key k (keys_of c) ≡ true
      → has_key k (removed_for old) ≡ false
  unfolding has_key index_entries
  kept_key s a c k other e h = elim (Bool-cases (has_key k (removed_for old))) [
    | inr f ↦ f
    | inl g ↦ elim r [
      | inl (x, zero_old) ↦ cc (subst (λ o. has_key k (removed_for o) ≡ true) zero_old g)
      | inr x ↦ absurd (
          let same = same_slot c old k h g in
          let here = inv.placed s a c e in
          let there = inv.placed b.scope b.address old x in
          other (sym here.0 ∙ same.0 ∙ there.0, sym here.1 ∙ same.1 ∙ there.1))
    ]
  ]

  rewritten_complete :
      (s a : String) (c : Binding) (k : Key)
      → (rewritten old b l).bindings s a ≡ holds c
      → has_key k (keys_of c) ≡ true
      → has_key k (resaved old b l.index) ≡ true
  rewritten_complete s a c k e h = has_key-resaved k old b l.index ∙ elim (rewritten_slot s a c e) [
    | inl (s_eq, a_eq, same) ↦ rw (subst (λ x. has_key k (keys_of x) ≡ true) (sym same) h) refl
    | inr (other, was) ↦
        rw (kept_key s a c k other was h)
          (rw (inv.complete s a c k was h) (or-true (has_key k (keys_of b))))
  ]

  reads_old : (c : Binding) → l.bindings b.scope b.address ≡ holds c → old ≡ c
  reads_old c e = elim r [ inl (x, _) ↦ cc | inr x ↦ cc ]

  -- A key that stays is that of a binding in another slot.
  stays :
      (k : Key)
      → has_key k (removed_for old) ≡ false
      → has_key k l.index ≡ true
      → (s : String) × (a : String) × (c : Binding) × ((rewritten old b l).bindings s a ≡ holds c)
        × (has_key k (keys_of c) ≡ true)
  unfolding rewritten
  stays k free h =
      let (s, a, c, e, m) = inv.sound k h in
      (
        s,
        a,
        c,
        elim (slot_after b.scope b.address s a (holds b) l.bindings) [
          | inr (other, same) ↦ same ∙ e
          | inl (s_eq, a_eq, same) ↦
              let here : l.bindings b.scope b.address ≡ holds c = rw (← s_eq) (rw (← a_eq) e) in
              let gone : has_key k (removed_for old) ≡ true =
                subst (λ x. has_key k (removed_for x) ≡ true) (sym (reads_old c here))
                  (removed_keys c k (inv.named s a c e) m) in
              cc
        ],
        m,
      )

  rewritten_sound :
      (k : Key)
      → has_key k (resaved old b l.index) ≡ true
      → (s : String) × (a : String) × (c : Binding) × ((rewritten old b l).bindings s a ≡ holds c)
        × (has_key k (keys_of c) ≡ true)
  unfolding rewritten
  rewritten_sound k h =
      elim (new_or_old (has_key k (keys_of b)) (has_key k (removed_for old)) (has_key k l.index)
        (sym (has_key-resaved k old b l.index) ∙ h)) [
          | inl new ↦
              (b.scope, b.address, b, ground (arith, eq_refl b.scope, eq_refl b.address), new)
          | inr (free, there) ↦ stays k free there
        ]

  rewritten-IsNamed :
      (s a : String) (c : Binding) → (rewritten old b l).bindings s a ≡ holds c → IsNamed c
  rewritten-IsNamed s a c e = elim (rewritten_slot s a c e) [
    | inl (_, _, same) ↦ subst IsNamed same n
    | inr (_, was) ↦ inv.named s a c was
  ]

  rewritten_placed :
      (s a : String) (c : Binding)
      → (rewritten old b l).bindings s a ≡ holds c
      → (c.scope ≡ s) × (c.address ≡ a)
  rewritten_placed s a c e = elim (rewritten_slot s a c e) [
    | inl (s_eq, a_eq, same) ↦ (cc, cc)
    | inr (_, was) ↦ inv.placed s a c was
  ]

  rewritten-IsIndexed : IsIndexed (rewritten old b l)
  unfolding rewritten
  rewritten-IsIndexed = record {
    placed = rewritten_placed;
    named = rewritten-IsNamed;
    complete = rewritten_complete;
    sound = rewritten_sound;
  }

record_event-IsIndexed :
    (clock : ℕ → ℕ) (kind message : String) (b : Binding) (l : Ledger)
    → IsIndexed l
    → IsIndexed (append_event clock kind message b l)
unfolding append_event
record_event-IsIndexed clock kind message b l v = record {
  placed = v.placed;
  named = v.named;
  complete = v.complete;
  sound = v.sound;
}

-- If the bindings and the indices agree, and the binding that is saved has a name if it is active,
-- then after a save that succeeds they agree again: whatever the slot held before, each binding
-- stands under its own scope and address, is named if it is active, and is in every index that it
-- belongs to; and no index holds a key that is not one of a stored binding.
pub save_binding-IsIndexed :
    (clock : ℕ → ℕ) (b : Binding) (kind : String) (l l' : Ledger)
    → IsIndexed l
    → IsNamed b
    → save_binding clock b kind l ≡ ok (tt, l')
    → IsIndexed l'
save_binding-IsIndexed clock b kind l l' inv n h =
    let (old, read, after) = save_binding-eq-ok clock b kind l l' h in
    subst IsIndexed (sym after) (
      record_event-IsIndexed clock kind "" b (rewritten old b l)
        (rewritten-IsIndexed l old b inv n (read_binding-Reads b.scope b.address l l old read).0))
