-- ===== src/Resolver/Labels.antt =====
-- internal/resolver/acl.go: the names of identities, of hosts and of DNS-SD services.
use Prim.Native.String.{len, slice}
use text.Mathlib.Text.{starts_with}
use ghostd.Ledger.Identifiers.{has_suffix, split}
use ghostd.Nft.Names.{all_codes}
use ghostd.Prelude.{
  ℕ, ◌-◌, String, ◌==◌, Bool, ◌&&◌, ◌||◌, not, Option, none, some, List, [], ◌∷◌, codes, joined,
  if◌then◌else◌, leb, nat_eq,
}
use ghostd.Resolver.Host.{Host}

-- strings.TrimSuffix
unfoldable pub trim_suffix : String → String → String
unfolding has_suffix
trim_suffix s t = if has_suffix s t then slice s 0 (len s - len t) else s

-- [a-z0-9-]
name_char : ℕ → Bool
name_char c = (leb 97 c && leb c 122) || ((leb 48 c && leb c 57) || nat_eq c 45)

-- validName
unfoldable pub valid_name : String → Bool
unfolding name_char all_codes
valid_name s = not (s == "" || not (leb (len s) 63)) && all_codes name_char (codes s)

-- The loop of serviceClass, from the last label on.
unfoldable pub class_in : List String → Option String
class_in (proto ∷ kind ∷ labels) =
    let rest = class_in (kind ∷ labels) in
    if (proto == "_tcp" || proto == "_udp") && starts_with kind "_"
    then some (joined kind (joined "." proto))
    else rest
class_in _ = none

unfoldable pub class_of : List String → Option String
class_of (top ∷ second ∷ third ∷ labels) =
    if top == "local" then class_in (second ∷ third ∷ labels) else none
class_of _ = none

backwards : List String → List String → List String
backwards [] done = done
backwards (x ∷ xs) done = backwards xs (x ∷ done)

-- serviceClass
unfoldable pub service_class : Host → String → Option String
unfolding trim_suffix split backwards
service_class h name = class_of (backwards (split (trim_suffix (h.to_lower name) ".") ".") [])
