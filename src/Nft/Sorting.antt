-- ===== src/Nft/Sorting.antt =====
-- Go's sort.Strings, sort.Ints and sort.Slice, and strconv.Itoa, as internal/nft uses them.
pub mod Laws
use ghostd.Prelude.{
  ℕ, zero, suc, ◌+◌, ◌/◌, ◌%◌, ℤ, pos, negsuc, String, Bool, true, false, ◌&&◌, ◌||◌, Option, none,
  some, List, [], ◌∷◌, codes, joined, leb, ltb, nat_eq, if◌then◌else◌,
}

-- The order of bytes, which is that of code points.
unfoldable pub codes_le : List ℕ → List ℕ → Bool
codes_le [] ds = true
codes_le (c ∷ cs) [] = false
codes_le (c ∷ cs) (d ∷ ds) = ltb c d || (nat_eq c d && codes_le cs ds)

unfoldable pub text_le : String → String → Bool
text_le s t = codes_le (codes s) (codes t)

unfoldable pub port_le : ℤ → ℤ → Bool
port_le (pos m) (pos n) = leb m n
port_le (pos m) (negsuc n) = false
port_le (negsuc m) (pos n) = true
port_le (negsuc m) (negsuc n) = leb n m

module _ {ℓ} {A : Type ℓ} (le : A → A → Bool) where
  unfoldable pub insert_sorted : A → List A → List A
  insert_sorted x [] = x ∷ []
  insert_sorted x (y ∷ ys) =
      let later = insert_sorted x ys in if le x y then x ∷ y ∷ ys else y ∷ later

  -- What every sort gives where the order tells all entries apart, or where equal ones are the same.
  unfoldable pub sort : List A → List A
  unfolding insert_sorted
  sort [] = []
  sort (x ∷ xs) = insert_sorted x (sort xs)

digit : List String → ℕ → String
digit [] n = ""
digit (d ∷ ds) zero = d
digit (d ∷ ds) (suc n) = digit ds n

-- The digits of a number, as many as the fuel: an int has at most 19.
digits : ℕ → ℕ → String
unfolding digit
digits zero n = ""
digits (suc fuel) n =
    let last = digit ("0" ∷ "1" ∷ "2" ∷ "3" ∷ "4" ∷ "5" ∷ "6" ∷ "7" ∷ "8" ∷ "9" ∷ []) (n % 10) in
    let first = digits fuel (n / 10) in if ltb n 10 then last else joined first last

-- strconv.Itoa
unfoldable pub itoa : ℤ → String
unfolding digits
itoa (pos n) = digits 20 n
itoa (negsuc n) = joined "-" (digits 20 (n + 1))
