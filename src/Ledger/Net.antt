-- ===== src/Ledger/Net.antt =====
-- What internal/addressbook takes from Go's net, net/netip, crypto/sha256, strconv, strings and
-- path/filepath packages.
use ghostd.Prelude.{ℕ, String, Bool, Option, List}

pub record Net : Type 1 where
  -- netip.Addr: Is4, Is6, Is4In6, Compare, ==, Next, IsUnspecified, IsMulticast, Zone() != "", and the
  -- 32 bits of As4 and AddrFrom4
  pub Addr : Type 0
  pub parse_addr : String → Option Addr
  pub print_addr : Addr → String
  pub is4 : Addr → Bool
  pub is6 : Addr → Bool
  pub is4in6 : Addr → Bool
  pub is_unspecified : Addr → Bool
  pub is_multicast : Addr → Bool
  pub has_zone : Addr → Bool
  pub same_addr : Addr → Addr → Bool
  pub is_after : Addr → Addr → Bool
  pub next : Addr → Addr
  pub as4 : Addr → ℕ
  pub from4 : ℕ → Addr
  -- netip.Prefix: Masked, ==, Addr, Bits, Contains, Overlaps
  pub Prefix : Type 0
  pub parse_prefix : String → Option Prefix
  pub masked : Prefix → Prefix
  pub same_prefix : Prefix → Prefix → Bool
  pub prefix_addr : Prefix → Addr
  pub bits : Prefix → ℕ
  pub in_prefix : Prefix → Addr → Bool
  pub overlaps : Prefix → Prefix → Bool
  -- net.ParseMAC and HardwareAddr.String
  pub parse_mac : String → Option (List ℕ)
  pub print_mac : List ℕ → String
  -- SHA-256 in hexadecimal, strings.ToValidUTF8(s, ""), strings.ToLower, and strconv.ParseUint(s, 10, n)
  pub digest : String → String
  pub to_valid_utf8 : String → String
  pub to_lower : String → String
  pub parse_uint : String → ℕ → Option ℕ
  -- filepath.IsAbs and filepath.Clean
  pub is_abs : String → Bool
  pub clean : String → String
