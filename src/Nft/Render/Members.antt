-- ===== src/Nft/Render/Members.antt =====
-- What stands in a list that the writers of chains have put together.
use ghostd.Nft.Chains.{each}
use ghostd.Nft.Sorting.{insert_sorted, sort}
use ghostd.Prelude.{String, ◌↔◌, Bool, ◌⊎◌, inl, inr, Bool-cases, List, [], ◌∷◌, ◌++◌, map, Any}

module _ {ℓ} {A : Type ℓ} (P : A → Type 0) where
  pub Any-append : (xs ys : List A) → Any P (xs ++ ys) → Any P xs ⊎ Any P ys
  Any-append [] ys there = inr there
  Any-append (x ∷ xs) ys (inl here) = inl (inl here)
  Any-append (x ∷ xs) ys (inr there) = elim (Any-append xs ys there) [
    | inl left ↦ inl (inr left)
    | inr right ↦ inr right
  ]

  pub append-Any_left : (xs ys : List A) → Any P xs → Any P (xs ++ ys)
  append-Any_left [] ys there = elim there [ ]
  append-Any_left (x ∷ xs) ys (inl here) = inl here
  append-Any_left (x ∷ xs) ys (inr there) = inr (append-Any_left xs ys there)

  pub append-Any_right : (xs ys : List A) → Any P ys → Any P (xs ++ ys)
  append-Any_right [] ys there = there
  append-Any_right (x ∷ xs) ys there = inr (append-Any_right xs ys there)

  module _ (le : A → A → Bool) where
    behind :
        (x y : A) (ys zs : List A)
        → (Any P zs → P x ⊎ Any P ys)
        → P y ⊎ Any P zs
        → P x ⊎ (P y ⊎ Any P ys)
    behind x y ys zs f (inl here) = inr (inl here)
    behind x y ys zs f (inr there) = elim (f there) [ inl is ↦ inl is | inr old ↦ inr (inr old) ]

    before :
        (x y : A) (ys zs : List A)
        → (P x ⊎ Any P ys → Any P zs)
        → P x ⊎ (P y ⊎ Any P ys)
        → P y ⊎ Any P zs
    before x y ys zs f (inl is) = inr (f (inl is))
    before x y ys zs f (inr (inl here)) = inl here
    before x y ys zs f (inr (inr old)) = inr (f (inr old))

    pub Any-insert_sorted : (x : A) (ys : List A) → Any P (insert_sorted le x ys) → P x ⊎ Any P ys
    unfolding insert_sorted
    Any-insert_sorted x [] there = there
    Any-insert_sorted x (y ∷ ys) there = elim (Bool-cases (le x y)) [
      | inl first ↦ rw first at there
      | inr later ↦
          behind x y ys (insert_sorted le x ys) (Any-insert_sorted x ys) (rw later at there)
    ]

    insert_sorted-Any : (x : A) (ys : List A) → P x ⊎ Any P ys → Any P (insert_sorted le x ys)
    unfolding insert_sorted
    insert_sorted-Any x [] there = there
    insert_sorted-Any x (y ∷ ys) there = elim (Bool-cases (le x y)) [
      | inl first ↦ rw first there
      | inr later ↦ rw later (before x y ys (insert_sorted le x ys) (insert_sorted-Any x ys) there)
    ]

    pub sort-Any : (xs : List A) → Any P (sort le xs) ↔ Any P xs
    unfolding sort
    sort-Any [] = (λ a. a, λ a. a)
    sort-Any (x ∷ xs) =
        let rest = sort-Any xs in
        (
          λ a. elim (Any-insert_sorted x (sort le xs) a) [
            | inl is ↦ inl is
            | inr old ↦ inr (rest.0 old)
          ],
          λ a.
              insert_sorted-Any x (sort le xs)
                (elim a [ inl is ↦ inl is | inr old ↦ inr (rest.1 old) ]),
        )

module _ {ℓ} {A : Type ℓ} (P : String → Type 0) where
  pub map-Any : (f : A → String) (xs : List A) → Any P (map f xs) ↔ Any (λ x. P (f x)) xs
  map-Any f [] = (λ a. a, λ a. a)
  map-Any f (x ∷ xs) =
      let rest = map-Any f xs in
      (
        λ a. elim a [ inl is ↦ inl is | inr old ↦ inr (rest.0 old) ],
        λ a. elim a [ inl is ↦ inl is | inr old ↦ inr (rest.1 old) ],
      )

  pub each-Any :
      (body : A → List String) (xs : List A) → Any P (each body xs) ↔ Any (λ x. Any P (body x)) xs
  unfolding each
  each-Any body [] = (λ a. a, λ a. a)
  each-Any body (x ∷ xs) =
      let rest = each-Any body xs in
      (
        λ a. elim (Any-append P (body x) (each body xs) a) [
          | inl is ↦ inl is
          | inr old ↦ inr (rest.0 old)
        ],
        λ a. elim a [
          | inl is ↦ append-Any_left P (body x) (each body xs) is
          | inr old ↦ append-Any_right P (body x) (each body xs) (rest.1 old)
        ],
      )

pub Any-mono {ℓ} :
    {A : Type ℓ} (P Q : A → Type 0) (xs : List A) → ((x : A) → P x → Q x) → Any P xs → Any Q xs
Any-mono P Q [] f there = there
Any-mono P Q (x ∷ xs) f (inl here) = inl (f x here)
Any-mono P Q (x ∷ xs) f (inr there) = inr (Any-mono P Q xs f there)
