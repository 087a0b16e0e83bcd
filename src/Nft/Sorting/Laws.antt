-- ===== src/Nft/Sorting/Laws.antt =====
-- Sorting forgets the order of its input.
use Prim.Native.Char.{code}
use Prim.Native.Nat.{compare, Ordering}
use mathlib.Core.List.{Permᴰ}
use text.Mathlib.TextEquality.{codes_equal}
use ghostd.Nft.Sorting.{codes_le, text_le, insert_sorted, sort}
use ghostd.Prelude.{
  ℕ, String, ◌≡◌, refl, sym, ◌∙◌, ap, subst, arith, Bool, true, false, inl, inr, Bool-cases, List,
  [], ◌∷◌, codes, if◌then◌else◌,
}

codes_le-total : (cs ds : List ℕ) → codes_le cs ds ≡ false → codes_le ds cs ≡ true
unfolding codes_le
codes_le-total [] ds e = cc e
codes_le-total (c ∷ cs) [] e = refl
codes_le-total (c ∷ cs) (d ∷ ds) e = ground (arith, e, codes_le-total cs ds)

codes_le_antisymm : (cs ds : List ℕ) → codes_le cs ds ≡ true → codes_le ds cs ≡ true → cs ≡ ds
unfolding codes_le
codes_le_antisymm [] [] e f = refl
codes_le_antisymm [] (d ∷ ds) e f = cc f
codes_le_antisymm (c ∷ cs) [] e f = cc e
codes_le_antisymm (c ∷ cs) (d ∷ ds) e f = ground (arith, e, f, codes_le_antisymm cs ds)

codes_le_trans :
    (cs ds es : List ℕ) → codes_le cs ds ≡ true → codes_le ds es ≡ true → codes_le cs es ≡ true
unfolding codes_le
codes_le_trans [] ds es e f = refl
codes_le_trans (c ∷ cs) [] es e f = cc e
codes_le_trans (c ∷ cs) (d ∷ ds) [] e f = cc f
codes_le_trans (c ∷ cs) (d ∷ ds) (x ∷ es) e f = ground (arith, e, f, codes_le_trans cs ds es)

codes_inj : (s t : String) → codes s ≡ codes t → s ≡ t
codes_inj String.[] String.[] e = refl
codes_inj String.[] (String.◌∷◌ d t) e = cc e
codes_inj (String.◌∷◌ c s) String.[] e = cc e
codes_inj (String.◌∷◌ c s) (String.◌∷◌ d t) e =
    λ i. String.◌∷◌ (codes_equal c d same i) (codes_inj s t (ap rest e) i)
  where
    rest : List ℕ → List ℕ
    rest [] = []
    rest (_ ∷ ns) = ns

    first : List ℕ → ℕ
    first [] = 0
    first (n ∷ _) = n

    same : compare (code c) (code d) ≡ Ordering.eq
    same = subst (λ n. compare (code c) n ≡ Ordering.eq) (ap first e) (ground arith)

-- An order that sorting may go by.
pub record IsOrder {ℓ} {A : Type ℓ} (le : A → A → Bool) : Type ℓ where
  pub total : (x y : A) → le x y ≡ false → le y x ≡ true
  pub antisymm : (x y : A) → le x y ≡ true → le y x ≡ true → x ≡ y
  pub trans : (x y z : A) → le x y ≡ true → le y z ≡ true → le x z ≡ true

pub text_le-IsOrder : IsOrder text_le
unfolding text_le
text_le-IsOrder = record {
  total = λ s t. codes_le-total (codes s) (codes t);
  antisymm = λ s t e f. codes_inj s t (codes_le_antisymm (codes s) (codes t) e f);
  trans = λ s t u. codes_le_trans (codes s) (codes t) (codes u);
}

module _ {ℓ} {A : Type ℓ} (le : A → A → Bool) (order : IsOrder le) where
  swap_heads :
      (x y : A) (zs : List A)
      → (if le x y then x ∷ y ∷ zs else y ∷ x ∷ zs) ≡ (if le y x then y ∷ x ∷ zs else x ∷ y ∷ zs)
  swap_heads x y zs = elim (Bool-cases (le x y)) [
    | inl e ↦ elim (Bool-cases (le y x)) [
      | inl f ↦ rw (order.antisymm x y e f) refl
      | inr f ↦ rw (e, f) refl
    ]
    | inr e ↦ rw (e, order.total x y e) refl
  ]

  clash : {b : Bool} → b ≡ true → b ≡ false → ⊥
  clash t f = cc (sym t ∙ f)

  insert_sorted_comm :
      (x y : A) (zs : List A)
      → insert_sorted le x (insert_sorted le y zs) ≡ insert_sorted le y (insert_sorted le x zs)
  unfolding insert_sorted
  insert_sorted_comm x y [] = swap_heads x y []
  insert_sorted_comm x y (z ∷ zs) = elim (Bool-cases (le x z)) [
    | inl xz ↦ elim (Bool-cases (le y z)) [
      | inl yz ↦ rw (xz, yz, insert_sorted) (rw xz (swap_heads x y (z ∷ zs)))
      | inr yz ↦ elim (Bool-cases (le y x)) [
        | inl yx ↦ absurd (clash (order.trans y x z yx xz) yz)
        | inr yx ↦ rw (xz, yz, insert_sorted) (rw (xz, yx) refl)
      ]
    ]
    | inr xz ↦ elim (Bool-cases (le y z)) [
      | inl yz ↦ elim (Bool-cases (le x y)) [
        | inl xy ↦ absurd (clash (order.trans x y z xy yz) xz)
        | inr xy ↦ rw (xz, yz, insert_sorted) (rw (xy, xz) refl)
      ]
      | inr yz ↦ rw (xz, yz, insert_sorted) (rw xz (ap (◌∷◌ z) (insert_sorted_comm x y zs)))
    ]
  ]

  -- Lists of the same entries are sorted into the same list.
  pub sort-perm : (xs ys : List A) → Permᴰ xs ys → sort le xs ≡ sort le ys
  unfolding sort
  sort-perm _ _ Permᴰ.nil = refl
  sort-perm _ _ (Permᴰ.cons {a} {b} {l₁} {l₂} e p) =
      λ i. insert_sorted le (e i) (sort-perm l₁ l₂ p i)
  sort-perm _ _ (Permᴰ.swap {a} {b} {a'} {b'} {l} e f) =
      insert_sorted_comm a b (sort le l)
      ∙ (λ i. insert_sorted le (f i) (insert_sorted le (e i) (sort le l)))
  sort-perm _ _ (Permᴰ.trans {l₁} {l₂} {l₃} p q) = sort-perm l₁ l₂ p ∙ sort-perm l₂ l₃ q
