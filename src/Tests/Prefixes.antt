-- ===== src/Tests/Prefixes.antt =====
-- The theorem on delegated prefixes, at 2001:db8::/56 cut into prefixes of 64 bits.
use ghostd.Prelude.{ℕ, ◌+◌, ◌-◌, ◌*◌, ◌%◌, ◌^◌, ◌≡◌, refl, List, [], ◌∷◌, length, arith}
use ghostd.Ledger.Options.Wire.{AllBytes}
use ghostd.Ledger.Prefixes.{prefix_at, value, prefix_at-value, prefix_at_inj}

abbrev pool : List ℕ
pool = 0 ∷ 0 ∷ 0 ∷ 0 ∷ 0 ∷ 0 ∷ 0 ∷ 0 ∷ 0 ∷ 0 ∷ 0 ∷ 0 ∷ 184 ∷ 13 ∷ 1 ∷ 32 ∷ []

third : prefix_at pool 64 3 ≡ 0 ∷ 0 ∷ 0 ∷ 0 ∷ 0 ∷ 0 ∷ 0 ∷ 0 ∷ 3 ∷ 0 ∷ 0 ∷ 0 ∷ 184 ∷ 13 ∷ 1 ∷ 32 ∷ []
unfolding prefix_at
third = refl

prefix_at-value_example :
    AllBytes (prefix_at pool 64 3)
    × (length (prefix_at pool 64 3) ≡ 16)
    × (value (prefix_at pool 64 3) ≡ (value pool + 3 * 2 ^ (128 - 64)) % 2 ^ 128)
prefix_at-value_example = prefix_at-value pool 64 3 (omega arith) refl (omega arith) (omega arith)

third_again : prefix_at pool 64 3 ≡ prefix_at pool 64 (1 + 2)
third_again = refl

prefix_at_inj_example : ◌≡◌ {A = ℕ} 3 (1 + 2)
prefix_at_inj_example =
    prefix_at_inj pool 64 3 (1 + 2) (omega arith) refl (omega arith) (omega arith) (omega arith)
      (omega arith) (omega arith) third_again
