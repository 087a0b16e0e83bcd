-- ===== src/Ledger/Options.antt =====
-- internal/addressbook/config.go: the extra DHCP options of a scope, checked and encoded.
pub mod Wire
use Prim.Native.String.{len}
use ghostd.Prelude.{
  ℕ, ◌+◌, ◌*◌, ◌<◌, ◌≡◌, arith, ◌/◌, ◌%◌, ◌^◌, String, ◌==◌, Bool, true, false, ◌&&◌, ◌||◌, not,
  Option, none, some, List, [], ◌∷◌, ◌++◌, if◌then◌else◌, leb, ltb, nat_eq, codes, ℤ, pos, negsuc,
  length,
}
use ghostd.Ledger.Config.{DhcpOption}
use ghostd.Ledger.Net.{Net}

-- reservedOptionCodes
abbrev pub reserved_codes : List ℕ
reserved_codes =
    0 ∷ 1 ∷ 3 ∷ 6 ∷ 12 ∷ 15 ∷ 28 ∷ 50 ∷ 51 ∷ 52 ∷ 53 ∷ 54 ∷ 55 ∷ 58 ∷ 59 ∷ 60 ∷ 61 ∷ 66 ∷ 67 ∷ 119
    ∷ 255 ∷ []

unfoldable pub has_code : ℕ → List ℕ → Bool
has_code n [] = false
has_code n (m ∷ ms) = nat_eq m n || has_code n ms

-- o.Code < 1 || o.Code > 254 || reservedOptionCodes[o.Code]
unfoldable pub refused_code : ℤ → Bool
unfolding has_code
refused_code (negsuc n) = true
refused_code (pos n) = ltb n 1 || (ltb 254 n || has_code n reserved_codes)

-- strings.ContainsAny(s, "\x00\r\n")
unfoldable pub has_control : List ℕ → Bool
has_control [] = false
has_control (c ∷ cs) = (nat_eq c 0 || (nat_eq c 13 || nat_eq c 10)) || has_control cs

-- The low bytes of a number, the highest first.
unfoldable pub bytes_of : ℕ → ℕ → List ℕ
bytes_of bits n =
    if nat_eq bits 8
    then n % 256 ∷ []
    else if nat_eq bits 16
    then (n / 2 ^ 8) % 256 ∷ n % 256 ∷ []
    else (n / 2 ^ 24) % 256 ∷ (n / 2 ^ 16) % 256 ∷ (n / 2 ^ 8) % 256 ∷ n % 256 ∷ []

unfoldable pub number_bits : String → ℕ
number_bits kind = if kind == "u8" then 8 else if kind == "u16" then 16 else 32

module _ (e : Net) where
  all_ipv4 : List String → Bool
  all_ipv4 [] = true
  all_ipv4 (v ∷ vs) = elim (e.parse_addr v) [ none ↦ false | some a ↦ e.is4 a ] && all_ipv4 vs

  unfoldable pub is_number : String → List String → Bool
  unfolding number_bits
  is_number kind (v ∷ []) = elim (e.parse_uint v (number_bits kind)) [
    | none ↦ false
    | some n ↦ true
  ]
  is_number kind _ = false

  is_one_text : List String → Bool
  unfolding has_control
  is_one_text (v ∷ []) = leb 1 (len v) && (leb (len v) 255 && not (has_control (codes v)))
  is_one_text _ = false

  -- DhcpOption.validate has no error.
  unfoldable pub valid_option : DhcpOption → Bool
  unfolding refused_code all_ipv4 is_number is_one_text
  valid_option o =
      not (refused_code o.code)
      && (leb 1 (length o.value)
          && (leb (length o.value) 16
              && (if o.kind == "ips"
                  then all_ipv4 o.value
                  else if o.kind == "text"
                  then is_one_text o.value
                  else if o.kind == "u8" || (o.kind == "u16" || o.kind == "u32")
                  then is_number o.kind o.value
                  else false)))

  addresses_of : List String → List ℕ
  unfolding bytes_of
  addresses_of [] = []
  addresses_of (v ∷ vs) =
      elim (e.parse_addr v) [ none ↦ [] | some a ↦ bytes_of 32 (e.as4 a) ] ++ addresses_of vs

  unfoldable pub number_of : String → List String → ℕ
  unfolding number_bits
  number_of kind [] = 0
  number_of kind (v ∷ vs) = elim (e.parse_uint v (number_bits kind)) [ none ↦ 0 | some n ↦ n ]

  -- DhcpOption.wire, of an option that was accepted: it has a value, and its addresses parse.
  unfoldable pub wire : (String → List ℕ) → DhcpOption → List ℕ
  unfolding addresses_of number_of number_bits bytes_of
  wire utf8 o =
      if o.kind == "ips"
      then addresses_of o.value
      else if o.kind == "text"
      then elim o.value [ [] ↦ [] | v ∷ vs ↦ utf8 v ]
      else if o.kind == "u8" || (o.kind == "u16" || o.kind == "u32")
      then bytes_of (number_bits o.kind) (number_of o.kind o.value)
      else []
