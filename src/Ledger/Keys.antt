-- ===== src/Ledger/Keys.antt =====
-- The ordered keys of the index buckets of internal/addressbook (store.go and index.go). A key is a
-- number and parts: the number is the end of a lease for the expiry index, and 0 elsewhere. The
-- source joins the parts with a separator that no part contains.
use ghostd.Prelude.{
  ℕ, String, ◌==◌, ◌≡◌, refl, Bool, true, false, ◌&&◌, ◌||◌, not, List, [], ◌∷◌, ◌++◌, ◌↔◌,
  if◌then◌else◌, arith, eq_iff, eq_refl, subst, ltb, nat_eq, codes,
}

pub record Key : Type 0 where
  pub bucket : String
  pub number : ℕ
  pub parts : List String

abbrev pub parts_eq : List String → List String → Bool
parts_eq [] [] = true
parts_eq (x ∷ xs) (y ∷ ys) = let rest = parts_eq xs ys in x == y && rest
parts_eq _ _ = false

-- bytes.Equal of two keys of one bucket
unfoldable pub key_eq : Key → Key → Bool
key_eq j k = j.bucket == k.bucket && (nat_eq j.number k.number && parts_eq j.parts k.parts)

-- The expiry and the name index of DNS separate by a slash, the others by a zero byte.
separator : String → ℕ
separator bucket = if bucket == "expiry-v1" || bucket == "dns-v1" then 47 else 0

join_codes : ℕ → List String → List ℕ
join_codes sep [] = []
join_codes sep (x ∷ []) = codes x
join_codes sep (x ∷ y ∷ xs) = codes x ++ (sep ∷ join_codes sep (y ∷ xs))

codes_before : List ℕ → List ℕ → Bool
codes_before cs [] = false
codes_before [] (d ∷ ds) = true
codes_before (c ∷ cs) (d ∷ ds) =
    let rest = codes_before cs ds in if ltb c d then true else if ltb d c then false else rest

-- The order of a cursor within one bucket.
unfoldable pub key_before : Key → Key → Bool
unfolding separator join_codes codes_before
key_before j k =
    ltb j.number k.number
    || (nat_eq j.number k.number
        && codes_before (join_codes (separator j.bucket) j.parts)
            (join_codes (separator k.bucket) k.parts))

unfoldable pub has_key : Key → List Key → Bool
has_key k [] = false
has_key k (j ∷ js) = let rest = has_key k js in key_eq j k || rest

-- Bucket.Delete
unfoldable pub delete_key : Key → List Key → List Key
delete_key k [] = []
delete_key k (j ∷ js) = let rest = delete_key k js in if key_eq j k then rest else j ∷ rest

unfoldable pub place_key : Key → List Key → List Key
place_key k [] = k ∷ []
place_key k (j ∷ js) = let rest = place_key k js in if key_before k j then k ∷ j ∷ js else j ∷ rest

-- Bucket.Put: one entry per key.
unfoldable pub put_key : Key → List Key → List Key
unfolding place_key delete_key
put_key k js = place_key k (delete_key k js)

parts_eq_iff : (xs ys : List String) → (parts_eq xs ys ≡ true) ↔ (xs ≡ ys)
parts_eq_iff [] [] = ((λ h. refl), (λ h. refl))
parts_eq_iff [] (y ∷ ys) = ((λ h. cc), (λ h. cc))
parts_eq_iff (x ∷ xs) [] = ((λ h. cc), (λ h. cc))
parts_eq_iff (x ∷ xs) (y ∷ ys) = (
  (λ h. ground (arith, eq_iff x y, parts_eq_iff xs ys)),
  (λ h. ground (arith, eq_iff x y, parts_eq_iff xs ys)),
)

key_eq_refl : (k : Key) → key_eq k k ≡ true
unfolding key_eq
key_eq_refl k = ground (arith, eq_refl k.bucket, (parts_eq_iff k.parts k.parts).1 refl)

pub key_eq_iff : (j k : Key) → (key_eq j k ≡ true) ↔ (j ≡ k)
unfolding key_eq
key_eq_iff j k = (
  (λ h.
      let same_bucket : j.bucket ≡ k.bucket = ground (arith, eq_iff j.bucket k.bucket) in
      let same_number : j.number ≡ k.number = ground arith in
      let same_parts : j.parts ≡ k.parts = ground (arith, parts_eq_iff j.parts k.parts) in
      λ i. record { bucket = same_bucket i; number = same_number i; parts = same_parts i }),
  (λ h. subst (λ x. key_eq j x ≡ true) h (key_eq_refl j)),
)

has_key-place_key :
    (j k : Key) (ks : List Key) → has_key j (place_key k ks) ≡ (key_eq k j || has_key j ks)
unfolding has_key place_key
has_key-place_key j k [] = refl
has_key-place_key j k (x ∷ xs) = ground (arith, has_key-place_key j k xs)

-- After a deletion a key is there if it was and is another one.
pub has_key-delete_key :
    (j k : Key) (ks : List Key) → has_key j (delete_key k ks) ≡ (not (key_eq k j) && has_key j ks)
unfolding has_key delete_key
has_key-delete_key j k [] = ground arith
has_key-delete_key j k (x ∷ xs) =
    ground (arith, has_key-delete_key j k xs, key_eq_iff k j, key_eq_iff x j, key_eq_iff x k)

-- After a put a key is there if it was or is the new one.
pub has_key-put_key :
    (j k : Key) (ks : List Key) → has_key j (put_key k ks) ≡ (key_eq k j || has_key j ks)
unfolding put_key
has_key-put_key j k ks =
    ground (arith, has_key-place_key j k (delete_key k ks), has_key-delete_key j k ks)
