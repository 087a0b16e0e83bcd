-- ===== src/Resolver/Acl.antt =====
-- internal/resolver/acl.go: the identities of dns-acl.json, and which of these files are accepted.
pub mod Separate
use text.Mathlib.Text.{starts_with}
use ghostd.Ledger.Partial.{◌>>=◌, ◌>>◌, check}
use ghostd.Nft.Names.{all_codes}
use ghostd.Prelude.{
  ℕ, String, ◌==◌, Bool, true, false, ◌&&◌, ◌||◌, not, Option, none, some, List, [], ◌∷◌, codes,
  joined, contains, nat_eq,
}
use ghostd.Resolver.Host.{Host}
use ghostd.Resolver.Labels.{valid_name, service_class}

-- DnsIdentity
pub record DnsIdentity : Type 0 where
  pub name : String
  pub listen : String
  pub allow_names : List String
  pub allow_services : List String

-- strings.ContainsAny(n, " /\t") is false.
plain_char : ℕ → Bool
plain_char c = not (nat_eq c 32 || (nat_eq c 47 || nat_eq c 9))

unfoldable pub accepts_name : String → Bool
unfolding plain_char all_codes
accepts_name n =
    n == "*" || not (not (all_codes plain_char (codes n)) || (starts_with n "." || n == ""))

unfoldable pub accept_names : List String → Bool
accept_names [] = true
accept_names (n ∷ ns) = accepts_name n && accept_names ns

unfoldable pub class_is : Option String → String → Bool
class_is none s = false
class_is (some c) s = c == s

unfoldable pub accepts_service : Host → String → Bool
accepts_service h s = class_is (service_class h (joined s ".local.")) (h.to_lower s)

unfoldable pub accept_services : Host → List String → Bool
accept_services h [] = true
accept_services h (s ∷ ss) = accepts_service h s && accept_services h ss

-- One round of ACL.Validate, with the names and the listeners before it: the address listened on.
unfoldable pub accept_identity : Host → List String → List String → DnsIdentity → Option String
accept_identity h names listens id = do
  check (valid_name id.name && not (contains names id.name))
  ip ← h.parse_ip id.listen
  check (not (h.is_unspecified ip || h.is_multicast ip))
  check (not (contains listens (h.print_ip ip)))
  check (accept_names id.allow_names)
  check (accept_services h id.allow_services)
  some (h.print_ip ip)

unfoldable pub accept_from : Host → List String → List String → List DnsIdentity → Option (Unit {0})
accept_from h names listens [] = some tt
accept_from h names listens (id ∷ ids) = do
  listen ← accept_identity h names listens id
  accept_from h (id.name ∷ names) (listen ∷ listens) ids

-- ACL.Validate
unfoldable pub validate_acl : Host → List DnsIdentity → Option (Unit {0})
unfolding accept_from
validate_acl h ids = accept_from h [] [] ids
