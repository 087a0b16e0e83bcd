-- ===== src/Ledger/Identifiers.antt =====
-- internal/addressbook/config.go: the texts that name scopes, devices, zones and clients.
use Prim.Native.String.{len, slice}
use text.Mathlib.Text.{starts_with, find?}
use ghostd.Prelude.{
  ℕ, zero, suc, ◌+◌, ◌-◌, ◌%◌, String, ◌==◌, Bool, true, false, ◌&&◌, ◌||◌, not, none, some, List,
  [], ◌∷◌, if◌then◌else◌, leb, nat_eq, codes, joined, length,
}
use ghostd.Nft.Names.{all_codes}
use ghostd.Ledger.Net.{Net}

-- strings.TrimPrefix
unfoldable pub trim_prefix : String → String → String
trim_prefix s t = if starts_with s t then slice s (len t) (len s) else s

-- strings.HasSuffix
unfoldable pub has_suffix : String → String → Bool
has_suffix s t = leb (len t) (len s) && slice s (len s - len t) (len s) == t

split_within : ℕ → String → String → List String
split_within zero s sep = s ∷ []
split_within (suc fuel) s sep = elim (find? s sep) [
  | none ↦ s ∷ []
  | some i ↦ slice s 0 i ∷ split_within fuel (slice s (i + len sep) (len s)) sep
]

-- strings.Split, by a separator that is not empty: there are no more parts than bytes and one.
unfoldable pub split : String → String → List String
unfolding split_within
split s sep = split_within (len s) s sep

lower_or_digit : ℕ → Bool
lower_or_digit c = (leb 97 c && leb c 122) || (leb 48 c && leb c 57)

label_rest : ℕ → List ℕ → Bool
label_rest most [] = true
label_rest zero (c ∷ cs) = false
label_rest (suc most) (c ∷ []) = lower_or_digit c
label_rest (suc most) (c ∷ d ∷ cs) = (lower_or_digit c || nat_eq c 45) && label_rest most (d ∷ cs)

label_codes : List ℕ → Bool
label_codes [] = false
label_codes (c ∷ cs) = lower_or_digit c && label_rest 62 cs

-- labelPattern: ^[a-z0-9](?:[a-z0-9-]{0,61}[a-z0-9])?$
unfoldable pub is_label : String → Bool
unfolding lower_or_digit label_rest label_codes
is_label s = label_codes (codes s)

all_labels : List String → Bool
unfolding is_label
all_labels [] = true
all_labels (x ∷ xs) = is_label x && all_labels xs

-- validZone
unfoldable pub valid_zone : String → Bool
unfolding has_suffix split all_labels
valid_zone s =
    elim (find? s ".") [ none ↦ false | some _ ↦ true ]
    && (not (has_suffix s ".local")
        && (not (has_suffix s ".ts.net") && (leb (len s) 200 && all_labels (split s "."))))

is_hex : ℕ → Bool
is_hex c = (leb 48 c && leb c 57) || ((leb 97 c && leb c 102) || (leb 65 c && leb c 70))

is_lower_hex : ℕ → Bool
is_lower_hex c = (leb 48 c && leb c 57) || (leb 97 c && leb c 102)

-- hex.DecodeString has no error.
decodes : String → Bool
unfolding is_hex all_codes
decodes s = nat_eq (len s % 2) 0 && all_codes is_hex (codes s)

module _ (e : Net) where
  valid_duid : String → List String → Bool
  unfolding decodes
  valid_duid s (duid ∷ iaid ∷ []) =
      nat_eq (len iaid) 8
      && (leb 4 (len duid)
          && (leb (len duid) 256 && (decodes duid && (decodes iaid && e.to_lower s == s))))
  valid_duid s _ = false

  -- validClient
  unfoldable pub valid_client : String → Bool
  unfolding valid_duid split trim_prefix is_lower_hex all_codes
  valid_client s =
      if starts_with s "duid:"
      then valid_duid s (split (trim_prefix s "duid:") "/iaid:")
      else if starts_with s "mac:"
      then elim (e.parse_mac (trim_prefix s "mac:")) [
        | none ↦ false
        | some mac ↦ nat_eq (length mac) 6 && joined "mac:" (e.print_mac mac) == s
      ]
      else if starts_with s "id:"
      then (let v = trim_prefix s "id:" in
          leb 2 (len v)
          && (leb (len v) 510 && (nat_eq (len v % 2) 0 && all_codes is_lower_hex (codes v))))
      else false
