-- ===== src/Ledger/Options/Wire.antt =====
-- internal/addressbook/config.go: what the encoding of a numeric DHCP option spells.
use ghostd.Prelude.{
  ℕ, ◌+◌, ◌*◌, ◌<◌, ◌^◌, String, ◌≡◌, refl, sym, ◌∙◌, ap, subst, arith, true, some, List, [], ◌∷◌,
  ◌⊎◌, inl, inr, Option-cases, length,
}
use ghostd.Ledger.Config.{DhcpOption}
use ghostd.Ledger.Net.{Net}
use ghostd.Ledger.Options.{bytes_of, number_bits, number_of, is_number, valid_option, wire}

-- The number that big-endian bytes spell.
abbrev pub spelled : ℕ → List ℕ → ℕ
spelled n [] = n
spelled n (b ∷ bs) = spelled (n * 256 + b) bs

abbrev pub AllBytes : List ℕ → Type 0
AllBytes [] = Unit {0}
AllBytes (b ∷ bs) = (b < 256) × AllBytes bs

-- The bytes of n in a number of bits: n again, in as many bits.
abbrev pub Spells : ℕ → ℕ → List ℕ → Type 0
Spells bits n bs = (spelled 0 bs ≡ n) × (8 * length bs ≡ bits) × AllBytes bs

abbrev pub IsNumeric : String → Type 0
IsNumeric kind = (kind ≡ "u8") ⊎ ((kind ≡ "u16") ⊎ (kind ≡ "u32"))

abbrev Encodes : String → Type 0
Encodes kind =
    (n : ℕ) → n < 2 ^ number_bits kind → Spells (number_bits kind) n (bytes_of (number_bits kind) n)

bytes_of-Spells : (kind : String) → IsNumeric kind → Encodes kind
unfolding bytes_of number_bits
bytes_of-Spells kind (inl k) = subst Encodes (sym k) (λ n h. omega arith)
bytes_of-Spells kind (inr (inl k)) = subst Encodes (sym k) (λ n h. omega arith)
bytes_of-Spells kind (inr (inr k)) = subst Encodes (sym k) (λ n h. omega arith)

-- What the code does of a kind when it is numeric.
abbrev WireOf : Net → (String → List ℕ) → DhcpOption → String → Type 0
WireOf e utf8 o kind =
    (wire e utf8 (record o { kind = kind })
      ≡ bytes_of (number_bits kind) (number_of e kind o.value))
    × (valid_option e (record o { kind = kind }) ≡ true → is_number e kind o.value ≡ true)

wire_of :
    (e : Net) (utf8 : String → List ℕ) (o : DhcpOption) (kind : String)
    → IsNumeric kind
    → WireOf e utf8 o kind
unfolding wire valid_option
wire_of e utf8 o kind (inl k) = subst (WireOf e utf8 o) (sym k) (refl, λ h. ground arith)
wire_of e utf8 o kind (inr (inl k)) = subst (WireOf e utf8 o) (sym k) (refl, λ h. ground arith)
wire_of e utf8 o kind (inr (inr k)) = subst (WireOf e utf8 o) (sym k) (refl, λ h. ground arith)

-- A value that was accepted is one text, which parses.
one_number :
    (e : Net) (kind : String) (vs : List String)
    → is_number e kind vs ≡ true
    → (v : String) × (n : ℕ) × (vs ≡ v ∷ [])
      × (e.parse_uint v (number_bits kind) ≡ some n)
      × (number_of e kind vs ≡ n)
unfolding is_number number_of
one_number e kind [] h = cc
one_number e kind (v ∷ w ∷ vs) h = cc
one_number e kind (v ∷ []) h = elim (Option-cases (e.parse_uint v (number_bits kind))) [
  | inl bad ↦ cc
  | inr (n, good) ↦ (v, n, refl, good, rw (good, number_of) refl)
]

-- Given that a number that parses in so many bits is below two to that many: an option of a numeric
-- type that validation accepts has one value, which parses to a number, and its encoding is exactly
-- the type's number of bytes, each below 256, which spell that number with the highest byte first.
pub wire-Spells :
    (e : Net)
    → ((v : String) (b n : ℕ) → e.parse_uint v b ≡ some n → n < 2 ^ b)
    → (utf8 : String → List ℕ) (o : DhcpOption) → IsNumeric o.kind
    → valid_option e o ≡ true
    → (v : String) × (n : ℕ) × (o.value ≡ v ∷ [])
      × (e.parse_uint v (number_bits o.kind) ≡ some n)
      × Spells (number_bits o.kind) n (wire e utf8 o)
wire-Spells e small utf8 o numeric accepted =
    let of = wire_of e utf8 o o.kind numeric in
    let (v, n, one, good, same) = one_number e o.kind o.value (of.1 accepted) in
    (
      v,
      n,
      one,
      good,
      subst (Spells (number_bits o.kind) n) (sym (of.0 ∙ ap (bytes_of (number_bits o.kind)) same))
          (bytes_of-Spells o.kind numeric n (small v (number_bits o.kind) n good)),
    )
