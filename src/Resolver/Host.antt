-- ===== src/Resolver/Host.antt =====
-- What internal/resolver takes from Go's net and strings packages.
use ghostd.Prelude.{String, ◌≡◌, Bool, Option, List}

pub record Host : Type 1 where
  -- net.IP: ParseIP, String, Equal, IsUnspecified, IsMulticast, To4() != nil
  pub Ip : Type 0
  pub parse_ip : String → Option Ip
  pub print_ip : Ip → String
  pub same_ip : Ip → Ip → Bool
  pub is_unspecified : Ip → Bool
  pub is_multicast : Ip → Bool
  pub is_v4 : Ip → Bool
  -- strings.ToLower and strings.Fields
  pub to_lower : String → String
  pub fields : String → List String

-- Lower case has no upper case left.
pub record IsLowering (h : Host) : Type 0 where
  pub again : (s : String) → h.to_lower (h.to_lower s) ≡ h.to_lower s
