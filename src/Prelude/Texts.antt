-- ===== src/Prelude/Texts.antt =====
-- Texts joined, and what joining keeps apart.
use Prim.Native.Char.{code}
use Prim.Native.Nat.{ℕ, suc}
use mathlib.Core.List.{List, [], ◌∷◌}
use Prim.Native.String.{String, ◌++◌, count}
use mathlib.Core.Path.{◌≡◌, ap}
use mathlib.Core.Bool.{false, true}
use native.Mathlib.Omega.{arith}
use text.Mathlib.Text.{◌==◌}
use text.Mathlib.TextEquality.{eq_iff}
use text.Mathlib.TextLemmas.{length-append, append_cancel_right}

-- The code points of a text.
abbrev pub codes : String → List ℕ
codes String.[] = []
codes (String.◌∷◌ c s) = let rest = codes s in code c ∷ rest

-- s + t
abbrev pub joined : String → String → String
joined s t = s ++ t

pub ne→eq-false : (s t : String) → (s ≡ t → ⊥) → (s == t) ≡ false
ne→eq-false s t h = ground (arith, eq_iff s t, h)

pub joined-ne_self : (s t : String) (n : ℕ) → count t ≡ suc n → (joined s t == s) ≡ false
joined-ne_self s t n c =
    ne→eq-false (joined s t) s λ p. omega (arith, ap count p, length-append s t)

-- Names that end alike are as different as what stands before the end.
pub joined-eq : (s t u : String) → (joined s u == joined t u) ≡ true → (s == t) ≡ true
joined-eq s t u h =
    (eq_iff s t).1 (append_cancel_right s t u ((eq_iff (joined s u) (joined t u)).0 h))
