-- ===== src/Nft/Names.antt =====
-- internal/nft/render.go: the two regular expressions over names, ports, and the comparison of
-- targets, character by character.
use ghostd.Prelude.{
  codes, String, ℕ, zero, suc, ◌-◌, ℤ, pos, negsuc, Bool, true, false, ◌&&◌, ◌||◌, not, List, [],
  ◌∷◌, ◌==◌, leb, nat_eq, if◌then◌else◌, map,
}

between : ℕ → ℕ → ℕ → Bool
between low high c = leb low c && leb c high

-- [a-zA-Z_]
unfoldable pub is_letter : ℕ → Bool
unfolding between
is_letter c = between 97 122 c || (between 65 90 c || nat_eq c 95)

-- [a-zA-Z0-9_]
unfoldable pub is_word : ℕ → Bool
unfolding between
is_word c = is_letter c || between 48 57 c

-- [a-zA-Z0-9_.:-]
unfoldable pub is_interface_char : ℕ → Bool
is_interface_char c = is_word c || (nat_eq c 46 || (nat_eq c 58 || nat_eq c 45))

-- Every code passes, and there are at most `most`.
unfoldable pub all_within : (ℕ → Bool) → ℕ → List ℕ → Bool
all_within ok most [] = true
all_within ok zero (c ∷ cs) = false
all_within ok (suc most) (c ∷ cs) = ok c && all_within ok most cs

unfoldable pub all_codes : (ℕ → Bool) → List ℕ → Bool
all_codes ok [] = true
all_codes ok (c ∷ cs) = ok c && all_codes ok cs

-- zoneName: ^[a-zA-Z_][a-zA-Z0-9_]*$
unfoldable pub matches_zone : List ℕ → Bool
matches_zone [] = false
matches_zone (c ∷ cs) = is_letter c && all_codes is_word cs

-- interfaceName: ^[a-zA-Z0-9_.:-]{1,15}$
unfoldable pub matches_interface : List ℕ → Bool
matches_interface [] = false
matches_interface (c ∷ cs) = all_within is_interface_char 15 (c ∷ cs)

unfoldable pub valid_zone_name : String → Bool
unfolding matches_zone
valid_zone_name name = matches_zone (codes name)

unfoldable pub valid_interface : String → Bool
unfolding matches_interface
valid_interface name = matches_interface (codes name) && (not (name == ".") && not (name == ".."))

unfoldable pub valid_port : ℤ → Bool
valid_port (pos n) = leb 1 n && leb n 65535
valid_port (negsuc n) = false

-- port == toPort
unfoldable pub same_port : ℤ → ℤ → Bool
same_port (pos m) (pos n) = nat_eq m n
same_port (negsuc m) (negsuc n) = nat_eq m n
same_port _ _ = false

upper : ℕ → ℕ
unfolding between
upper c = if between 97 122 c then c - 32 else c

codes_eq : List ℕ → List ℕ → Bool
codes_eq [] [] = true
codes_eq (c ∷ cs) (d ∷ ds) = nat_eq c d && codes_eq cs ds
codes_eq _ _ = false

-- strings.EqualFold, for the two words it is used on: no letter outside ASCII folds into theirs.
unfoldable pub equal_fold : String → String → Bool
unfolding upper codes_eq
equal_fold s t = codes_eq (map upper (codes s)) (map upper (codes t))
