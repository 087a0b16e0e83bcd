-- ===== src/Prelude/Lists.antt =====
-- Membership and association lists over texts.
use Prim.Native.Nat.{ℕ, suc}
use Prim.Native.String.{String}
use mathlib.Core.Path.{◌≡◌, refl}
use mathlib.Core.Logic.{◌⊎◌, inl, inr}
use mathlib.Core.Bool.{Bool, true, false, ◌||◌}
use mathlib.Core.Option.{Option, none, some}
use mathlib.Core.List.{List, [], ◌∷◌}
use native.Mathlib.Omega.{arith}
use text.Mathlib.Text.{◌==◌}
use text.Mathlib.TextEquality.{eq_iff}
use ghostd.Prelude.Tests.{if◌then◌else◌}

-- for _, x := range xs { if x == s { return true } }; return false
unfoldable pub contains : List String → String → Bool
contains [] s = false
contains (x ∷ xs) s = x == s || contains xs s

abbrev pub length {ℓ} : {A : Type ℓ} → List A → ℕ
length [] = 0
length (x ∷ xs) = suc (length xs)

module _ {ℓ} {V : Type ℓ} where
  unfoldable pub lookup : String → List (String × V) → Option V
  lookup key [] = none
  lookup key ((name, value) ∷ rest) =
      let later = lookup key rest in if name == key then some value else later

  unfoldable pub erase : String → List (String × V) → List (String × V)
  erase key [] = []
  erase key ((name, value) ∷ entries) =
      let rest = erase key entries in if name == key then rest else (name, value) ∷ rest

  -- table[key] = value
  unfoldable pub insert : String → V → List (String × V) → List (String × V)
  unfolding erase
  insert key value entries = (key, value) ∷ erase key entries

  pub lookup-erase :
      (gone key : String) (entries : List (String × V))
      → lookup key (erase gone entries) ≡ (if gone == key then none else lookup key entries)
  unfolding lookup erase
  lookup-erase gone key [] = ground arith
  lookup-erase gone key ((name, value) ∷ entries) =
      ground
        (arith, lookup-erase gone key entries, eq_iff name gone, eq_iff name key, eq_iff gone key)

  abbrev pub or_else : V → Option V → V
  or_else d none = d
  or_else d (some v) = v

  abbrev pub is_none : Option V → Bool
  is_none none = true
  is_none (some v) = false

  pub some_inj : {a b : V} → some a ≡ some b → a ≡ b
  some_inj q = cc

  pub Option-cases : (o : Option V) → (o ≡ none) ⊎ ((v : V) × (o ≡ some v))
  Option-cases none = inl refl
  Option-cases (some v) = inr (v, refl)

-- Some entry of a list.
abbrev pub Any {ℓ} : {A : Type ℓ} → (A → Type 0) → List A → Type 0
Any P [] = ⊥
Any P (x ∷ xs) = P x ⊎ Any P xs

pub contains-Any : (xs : List String) (s : String) → contains xs s ≡ true → Any (λ x. x ≡ s) xs
unfolding contains
contains-Any [] s h = cc
contains-Any (x ∷ xs) s h = ground (arith, eq_iff x s, contains-Any xs s)

pub Any-contains : (xs : List String) (s : String) → Any (λ x. x ≡ s) xs → contains xs s ≡ true
unfolding contains
Any-contains [] s h = elim h [ ]
Any-contains (x ∷ xs) s h = ground (arith, eq_iff x s, Any-contains xs s)

-- Every entry of a list.
abbrev pub All {ℓ} : {A : Type ℓ} → (A → Type 0) → List A → Type 0
All P [] = Unit
All P (x ∷ xs) = P x × All P xs

pub All-mono {ℓ} :
    {A : Type ℓ} (P Q : A → Type 0) (xs : List A) → ((x : A) → P x → Q x) → All P xs → All Q xs
All-mono P Q [] f all = tt
All-mono P Q (x ∷ xs) f all = (f x all.0, All-mono P Q xs f all.1)
