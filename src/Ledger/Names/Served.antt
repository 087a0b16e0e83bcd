-- ===== src/Ledger/Names/Served.antt =====
-- internal/addressbook/store.go: what the name index serves.
use ghostd.Prelude.{
  ℕ, suc, ◌<◌, String, ◌==◌, ◌≡◌, refl, sym, ◌∙◌, ap, subst, arith, eq_iff, Bool, true, false, ◌&&◌,
  not, List, [], ◌∷◌, inl, inr, ◌⊎◌, Bool-cases, All, All-mono, Any, if◌then◌else◌, ltb,
}
use ghostd.Ledger.Binding.{Binding, is_active, is_live}
use ghostd.Ledger.Expired.{holds_inj}
use ghostd.Ledger.Indexed.{
  keys_of, has_key-keys, All-has_key, All-append, All-one_if, All-index_entries,
}
use ghostd.Ledger.Indexed.Save.{IsIndexed}
use ghostd.Ledger.Keys.{Key, has_key, key_eq, key_eq_iff}
use ghostd.Ledger.Names.{answer_with, named_slot, scan_names, dns_bindings}
use ghostd.Ledger.Readings.{pure-eq-ok, fail-eq-ok}
use ghostd.Ledger.Saved.{>>=-eq-ok}
use ghostd.Ledger.Store.{dns_key, expiry_key, index_entries, is_delegated}
use ghostd.Ledger.Tx.{Ledger, Slot, absent, corrupt, holds, Tx, ok, broken, ◌>>=◌, pure, gets}

abbrev serves : ℕ → Binding → Bool
serves now b = is_active b.state && ltb now b.end

-- One round adds the binding of its slot, if it is in force.
Adds : ℕ → Slot → List Binding → List Binding → Type 0
Adds now slot tail out =
    ((out ≡ tail) × ((b : Binding) → slot ≡ holds b → serves now b ≡ false))
    ⊎ ((b : Binding) × (slot ≡ holds b) × (serves now b ≡ true) × (out ≡ b ∷ tail))

answer_with-Adds :
    (now : ℕ) (slot : Slot) (rest : Tx (List Binding)) (l l' : Ledger) (out : List Binding)
    → answer_with now slot rest l ≡ ok (out, l')
    → (tail : List Binding) × (rest l ≡ ok (tail, l')) × Adds now slot tail out
unfolding answer_with Adds
answer_with-Adds now absent rest l l' out h = (out, h, inl (refl, λ b e. absurd (cc e)))
answer_with-Adds now corrupt rest l l' out h = absurd (fail-eq-ok broken out l l' h)
answer_with-Adds now (holds b) rest l l' out h = elim (Bool-cases (serves now b)) [
  | inr over ↦ (out, rw over at h, inl (refl, λ c e. over_for c e over))
  | inl live ↦
      let (tail, l1, first, last) = >>=-eq-ok rest (λ bs. pure (b ∷ bs)) l l' out (rw live at h) in
      let done = pure-eq-ok (b ∷ tail) out l1 l' last in
      (tail, subst (λ x. rest l ≡ ok (tail, x)) (sym done.1) first, inr (b, refl, live, sym done.0))
]
  where
    over_for : (c : Binding) → holds b ≡ holds c → serves now b ≡ false → serves now c ≡ false
    over_for c e over = subst (λ (x : Slot). of x ≡ false) e over
      where
        of : Slot → Bool
        of (holds x) = serves now x
        of absent = false
        of corrupt = false

clash : {x : Bool} → x ≡ false → x ≡ true → ⊥
clash f t = cc (sym f ∙ t)

module _ (l : Ledger) (scope name : String) where
  abbrev slot_for : Key → Slot
  slot_for k = if k.bucket == "dns-v1" then named_slot l scope name k.parts else absent

  abbrev From : (ℕ → ℕ) → List Key → Binding → Type 0
  From clock ks b =
      ((n : ℕ) × (serves (clock n) b ≡ true))
      × ((k : Key) × (has_key k ks ≡ true) × (slot_for k ≡ holds b))

  abbrev Answers : (ℕ → ℕ) → List Key → List Binding → Type 0
  Answers clock ks out =
      All (From clock ks) out
      × ((b : Binding) (k : Key)
          → has_key k ks ≡ true
          → slot_for k ≡ holds b
          → ((n : ℕ) → serves (clock n) b ≡ true)
          → Any (λ x. x ≡ b) out)

  module _ (clock : ℕ → ℕ) where
    abbrev later : ℕ → ℕ
    later n = clock (suc n)

    more_keys : (k : Key) (ks : List Key) (b : Binding) → From later ks b → From clock (k ∷ ks) b
    unfolding has_key
    more_keys k ks b ((n, live), (j, there, slot)) =
        ((suc n, live), (j, ground (arith, there), slot))

    first_key : (k : Key) (ks : List Key) → has_key k (k ∷ ks) ≡ true
    unfolding has_key
    first_key k ks = ground (arith, (key_eq_iff k k).1 refl)

    round-Answers :
        (k : Key) (ks : List Key) (tail out : List Binding)
        → Answers later ks tail
        → Adds (clock 0) (slot_for k) tail out
        → Answers clock (k ∷ ks) out
    unfolding Adds has_key
    round-Answers k ks tail out (all, found) (inl (same, over)) = (
      subst (All (From clock (k ∷ ks))) (sym same)
          (All-mono (From later ks) (From clock (k ∷ ks)) tail (more_keys k ks) all),
      λ b j there slot live. elim (Bool-cases (key_eq k j)) [
        | inl here ↦ absurd (clash (over b (ap slot_for ((key_eq_iff k j).0 here) ∙ slot)) (live 0))
        | inr other ↦
            subst (Any (λ x. x ≡ b)) (sym same)
              (found b j (ground (arith, there, other)) slot (λ n. live (suc n)))
      ],
    )
    round-Answers k ks tail out (all, found) (inr (c, is, live, same)) = (
      subst (All (From clock (k ∷ ks))) (sym same) (
        ((0, live), (k, first_key k ks, is)),
        All-mono (From later ks) (From clock (k ∷ ks)) tail (more_keys k ks) all,
      ),
      λ b j there slot on. elim (Bool-cases (key_eq k j)) [
        | inl here ↦
            subst (Any (λ x. x ≡ b)) (sym same)
              (inl (holds_inj c b (sym is ∙ ap slot_for ((key_eq_iff k j).0 here) ∙ slot)))
        | inr other ↦
            subst (Any (λ x. x ≡ b)) (sym same)
              (inr (found b j (ground (arith, there, other)) slot (λ n. on (suc n))))
      ],
    )

  scan_names-Answers :
      (clock : ℕ → ℕ) (ks : List Key) (l0 l' : Ledger) (out : List Binding)
      → scan_names clock l scope name ks l0 ≡ ok (out, l')
      → Answers clock ks out
  unfolding scan_names has_key
  scan_names-Answers clock [] l0 l' out h =
      subst (Answers clock []) (pure-eq-ok [] out l0 l' h).0 (tt, λ b k there. absurd (cc there))
  scan_names-Answers clock (k ∷ ks) l0 l' out h =
      let (tail, rest, adds) =
        answer_with-Adds (clock 0) (slot_for k) (scan_names (λ n. clock (suc n)) l scope name ks) l0
          l' out h in
      round-Answers clock k ks tail out (scan_names-Answers (λ n. clock (suc n)) ks l0 l' tail rest)
        adds

-- A key that leads somewhere is the scope, the name and the address that it leads to.
named_slot-parts :
    (l : Ledger) (scope name : String) (parts : List String) (b : Binding)
    → named_slot l scope name parts ≡ holds b
    → (a : String) × (l.bindings scope a ≡ holds b) × (parts ≡ scope ∷ name ∷ a ∷ [])
unfolding named_slot
named_slot-parts l scope name (s ∷ n ∷ a ∷ []) b h = elim (Bool-cases (s == scope && n == name)) [
  | inl here ↦
      let same : s ≡ scope = ground (arith, eq_iff s scope) in
      let same_name : n ≡ name = ground (arith, eq_iff n name) in
      (
        a,
        subst (λ x. l.bindings x a ≡ holds b) same (rw here at h),
        λ i. same i ∷ same_name i ∷ a ∷ [],
      )
  | inr other ↦ absurd (cc (rw other at h))
]
named_slot-parts l scope name [] b h = cc
named_slot-parts l scope name (s ∷ []) b h = cc
named_slot-parts l scope name (s ∷ n ∷ []) b h = cc
named_slot-parts l scope name (s ∷ n ∷ a ∷ x ∷ y) b h = cc

slot_for-parts :
    (l : Ledger) (scope name : String) (k : Key) (b : Binding)
    → slot_for l scope name k ≡ holds b
    → (a : String) × (l.bindings scope a ≡ holds b)
      × (k.parts ≡ scope ∷ name ∷ a ∷ [])
      × ((k.bucket == "dns-v1") ≡ true)
slot_for-parts l scope name k b h = elim (Bool-cases (k.bucket == "dns-v1")) [
  | inl named ↦
      let (a, there, parts) = named_slot-parts l scope name k.parts b (rw named at h) in
      (a, there, parts, named)
  | inr other ↦ absurd (cc (rw other at h))
]

-- The key of the name index under which a binding stands carries its name.
abbrev Names : Binding → Key → Type 0
Names b k = (k.bucket == "dns-v1") ≡ true → k.parts ≡ b.scope ∷ b.name ∷ b.address ∷ []

keys_of-Names : (b : Binding) (k : Key) → has_key k (keys_of b) ≡ true → Names b k
keys_of-Names b k h =
    All-has_key (Names b) (keys_of b) k
      (All-append (Names b) (index_entries b) _
        (All-index_entries (Names b) b (λ e. cc e) (λ e. cc e) (λ e. cc e) (λ e. cc e))
        (All-one_if (Names b) (is_live b.state) (expiry_key b) _ (λ e. cc e)
          (All-one_if (Names b) (is_active b.state && not (is_delegated b)) (dns_key b) []
            (λ e. refl) tt)))
      h

three_inj :
    (s n a s' n' a' : String) → s ∷ n ∷ a ∷ [] ≡ s' ∷ n' ∷ a' ∷ [] → (s ≡ s') × (n ≡ n') × (a ≡ a')
three_inj s n a s' n' a' e = (cc e, cc e, cc e)

-- A key of the index that leads to a binding is its own, so that the binding has the name.
leads-named :
    (scope name : String) (l : Ledger) (k : Key) (b : Binding)
    → IsIndexed l
    → has_key k l.index ≡ true
    → slot_for l scope name k ≡ holds b
    → b.name ≡ name
leads-named scope name l k b inv there leads =
    let (a, stored, parts, bucket) = slot_for-parts l scope name k b leads in
    let (s', a', c, stored', own) = inv.sound k there in
    let at = inv.placed s' a' c stored' in
    let (same_scope, same_name, same_address) =
      three_inj scope name a c.scope c.name c.address (sym parts ∙ keys_of-Names c k own bucket) in
    let here : l.bindings scope a ≡ holds c =
      ap (λ x. l.bindings x a) (same_scope ∙ at.0)
      ∙ (ap (λ x. l.bindings s' x) (same_address ∙ at.1) ∙ stored') in
    ap (λ (x : Binding). x.name) (holds_inj b c (sym stored ∙ here)) ∙ sym same_name

own_slot :
    (l : Ledger) (scope name : String) (b : Binding)
    → b.scope ≡ scope
    → b.name ≡ name
    → slot_for l scope name (dns_key b) ≡ l.bindings b.scope b.address
unfolding named_slot
own_slot l scope name b at_scope at_name =
    let test : (b.scope == scope && b.name == name) ≡ true =
      ground (arith, eq_iff b.scope scope, eq_iff b.name name) in
    rw test refl

own_key :
    (b : Binding)
    → is_active b.state ≡ true
    → is_delegated b ≡ false
    → has_key (dns_key b) (keys_of b) ≡ true
own_key b on plain =
    has_key-keys (dns_key b) b (is_active b.state && not (is_delegated b))
    ∙ ground (arith, on, plain, (key_eq_iff (dns_key b) (dns_key b)).1 refl)

-- If the bindings and the indices agree and a name is looked up without an error, then each binding
-- that is served has that name, is active, ended later than some reading of the clock, and is stored
-- in the scope; and every active binding of the scope and the name that ends later than every reading
-- of the clock, and is no delegated prefix, is served.
pub dns_bindings-Answers :
    (clock : ℕ → ℕ) (scope name : String) (l l' : Ledger) (out : List Binding)
    → IsIndexed l
    → dns_bindings clock scope name "" l ≡ ok (out, l')
    → All
        (λ b.
          (b.name ≡ name)
          × (is_active b.state ≡ true)
          × ((n : ℕ) × (clock n < b.end))
          × (l.bindings scope b.address ≡ holds b))
        out
      × ((b : Binding)
          → l.bindings scope b.address ≡ holds b
          → b.name ≡ name
          → is_active b.state ≡ true
          → is_delegated b ≡ false
          → ((n : ℕ) → clock n < b.end)
          → Any (λ x. x ≡ b) out)
unfolding dns_bindings gets ◌>>=◌
dns_bindings-Answers clock scope name l l' out inv h =
    let answers = scan_names-Answers l scope name clock l.index l l' out h in
    (
      All-mono (From l scope name clock l.index)
          (λ b.
            (b.name ≡ name)
            × (is_active b.state ≡ true)
            × ((n : ℕ) × (clock n < b.end))
            × (l.bindings scope b.address ≡ holds b))
          out
          (λ b from.
            let (a, there, parts, bucket) = slot_for-parts l scope name from.1.0 b from.1.2 in
            let at = inv.placed scope a b there in
            (
              leads-named scope name l from.1.0 b inv from.1.1 from.1.2,
              ground (arith, from.0.1),
              (from.0.0, ground (arith, from.0.1)),
              ap (λ x. l.bindings scope x) at.1 ∙ there,
            ))
          answers.0,
      λ b there named on plain later.
          let at = inv.placed scope b.address b there in
          answers.1 b (dns_key b)
            (inv.complete scope b.address b (dns_key b) there (own_key b on plain))
            (own_slot l scope name b at.0 named ∙ ap (λ x. l.bindings x b.address) at.0 ∙ there)
            (λ n. ground (arith, on, later n)),
    )
