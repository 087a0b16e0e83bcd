-- ===== src/Ledger/Partial.antt =====
-- Checks that end at the first error, and what follows when none does.
use ghostd.Prelude.{◌≡◌, refl, Bool, true, false, Option, none, some}

infixl 5 ◌>>=◌ ◌>>◌
abbrev pub ◌>>=◌ {ℓ κ} : {A : Type ℓ} {B : Type κ} → Option A → (A → Option B) → Option B
none >>= f = none
some a >>= f = f a

abbrev pub ◌>>◌ {ℓ} : {B : Type ℓ} → Option (Unit {0}) → Option B → Option B
m >> k = m >>= λ _. k

-- if !b { return error }
abbrev pub check : Bool → Option (Unit {0})
check true = some tt
check false = none

pub >>=-eq-some {ℓ κ} :
    {A : Type ℓ} {B : Type κ} (m : Option A) (f : A → Option B) {b : B}
    → (m >>= f) ≡ some b
    → (a : A) × (m ≡ some a) × (f a ≡ some b)
>>=-eq-some none f h = cc
>>=-eq-some (some a) f h = (a, refl, h)

pub check-eq-some {ℓ} :
    {B : Type ℓ} (c : Bool) (k : Option B) {b : B}
    → (check c >> k) ≡ some b
    → (c ≡ true) × (k ≡ some b)
check-eq-some true k h = (refl, h)
check-eq-some false k h = cc
