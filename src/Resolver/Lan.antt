-- ===== src/Resolver/Lan.antt =====
-- internal/resolver/resolver.go: the lookups that ghostlocal makes, through the LAN client of the
-- build or through getent.
pub mod Distinct
use ghostd.Ledger.Identifiers.{split}
use ghostd.Prelude.{ℕ, String, Option, none, some, List, [], ◌∷◌, contains, if◌then◌else◌, nat_eq}
use ghostd.Resolver.Host.{Host}
use ghostd.Resolver.Local.{Rr, Browsed, no_lan, lan_error, found}

module _ (h : Host) where
  -- LANClient, with `none` for an error
  pub record LanClient : Type 0 where
    pub lookup : String → Option (List h.Ip)
    pub browse : String → ℕ → Option (List (Rr h) × List (Rr h))

  -- How `getent ahosts` ends: its context is over, it exits with a code, it cannot be run, or it
  -- prints.
  pub data Getent : Type 0 where
    cancelled : Getent
    exits : ℕ → Getent
    fails_to_run : Getent
    prints : String → Getent

  unfoldable pub browsed_by : Option (List (Rr h) × List (Rr h)) → Browsed h
  browsed_by none = lan_error
  browsed_by (some (answers, extra)) = found answers extra

  -- browseLocal
  unfoldable pub browse_local : Option LanClient → String → ℕ → Browsed h
  unfolding browsed_by
  browse_local none name qtype = no_lan
  browse_local (some client) name qtype = browsed_by (client.browse name qtype)

  -- The address of a line, if it is a new one.
  unfoldable pub add_address : List String → Option h.Ip → (List String → List h.Ip) → List h.Ip
  add_address seen none rest = rest seen
  add_address seen (some ip) rest =
      let text = h.print_ip ip in if contains seen text then rest seen else ip ∷ rest (text ∷ seen)

  unfoldable pub parsed_first : List String → Option h.Ip
  parsed_first [] = none
  parsed_first (field ∷ _) = h.parse_ip field

  unfoldable pub listed_addresses : List String → List String → List h.Ip
  unfolding add_address parsed_first
  listed_addresses [] seen = []
  listed_addresses (line ∷ lines) seen =
      add_address seen (parsed_first (h.fields line)) (λ seen'. listed_addresses lines seen')

  -- lookupHost
  unfoldable pub lookup_host : Getent → Option (List h.Ip)
  unfolding listed_addresses split
  lookup_host cancelled = none
  lookup_host (exits code) = if nat_eq code 2 then some [] else none
  lookup_host fails_to_run = none
  lookup_host (prints output) = some (listed_addresses (split output "\n") [])

  first_of : Option (List h.Ip) → Option (List h.Ip) → Option (List h.Ip)
  first_of (some ips) other = some ips
  first_of none other = other

  -- lookupLocal
  unfoldable pub lookup_local : Option LanClient → (String → Getent) → String → Option (List h.Ip)
  unfolding lookup_host first_of
  lookup_local none getent name = lookup_host (getent name)
  lookup_local (some client) getent name = first_of (client.lookup name) (lookup_host (getent name))
