-- ===== src/Ledger/Settings.antt =====
-- internal/addressbook/config.go: Config.Validate, from the times of a scope to its reservations, and
-- the whole of it.
use Prim.Native.String.{len}
use text.Mathlib.Text.{starts_with}
use ghostd.Prelude.{
  ℕ, ◌+◌, ◌*◌, String, ◌==◌, Bool, true, false, ◌&&◌, ◌||◌, not, Option, none, some, List, [], ◌∷◌,
  if◌then◌else◌, leb, ltb, nat_eq, codes, joined, length, contains, ℤ, pos, negsuc, is_none,
  is_positive, pos_part,
}
use ghostd.Nft.Names.{matches_interface}
use ghostd.Ledger.Config.{
  Config, Scope, Reservation, RaConfig, BootConfig, PdConfig, DhcpOption, scope_is6,
}
use ghostd.Ledger.Identifiers.{is_label, valid_zone, valid_client, has_suffix}
use ghostd.Ledger.Options.{valid_option, has_control, has_code}
use ghostd.Ledger.Net.{Net}
use ghostd.Ledger.Partial.{◌>>=◌, ◌>>◌, check}
use ghostd.Ledger.Accept.{
  within, device_ids, valid_tftp, overlaps_any, is_host, valid_prefix, valid_server, selector_of,
  valid_pool,
}

module _ (e : Net) where
  open e use {Addr, Prefix}

  -- s.PreferredSeconds < 1 || s.PreferredSeconds > s.LeaseSeconds is false
  preferred_fits : ℤ → ℤ → Bool
  preferred_fits (pos n) lease = leb 1 n && leb n (pos_part lease)
  preferred_fits (negsuc n) lease = false

  is_zero : ℤ → Bool
  is_zero (pos n) = nat_eq n 0
  is_zero (negsuc n) = false

  valid_ra : Scope → Prefix → RaConfig → Bool
  unfolding within
  valid_ra s p ra =
      is_none s.relay
      && (nat_eq (e.bits p) 64
          && (within 4 600 ra.interval
              && (within 0 9000 ra.router_lifetime
                  && (not (is_positive ra.router_lifetime)
                      || leb (pos_part ra.interval * 3) (pos_part ra.router_lifetime)))))

  unfoldable pub valid_times : Scope → Prefix → Bool
  unfolding within preferred_fits is_zero valid_ra
  valid_times s p =
      within 60 604800 s.lease_seconds
      && ((if scope_is6 e s
            then preferred_fits s.preferred_seconds s.lease_seconds
            else is_zero s.preferred_seconds && is_none s.ra)
          && elim s.ra [ none ↦ true | some ra ↦ valid_ra s p ra ])

  is_unicast4 : Addr → Bool
  is_unicast4 a = e.is4 a && (not (e.is_unspecified a) && not (e.is_multicast a))

  parses_unicast4 : String → Bool
  unfolding is_unicast4
  parses_unicast4 v = elim (e.parse_addr v) [ none ↦ false | some a ↦ is_unicast4 a ]

  all_unicast4 : List String → Bool
  unfolding parses_unicast4
  all_unicast4 [] = true
  all_unicast4 (d ∷ ds) = parses_unicast4 d && all_unicast4 ds

  distinct_options : List DhcpOption → List ℕ → Bool
  distinct_options [] seen = true
  distinct_options (o ∷ os) seen =
      valid_option e o
      && (not (has_code (pos_part o.code) seen) && distinct_options os (pos_part o.code ∷ seen))

  unfoldable pub valid_extras : Scope → Bool
  unfolding all_unicast4 distinct_options valid_option has_code
  valid_extras s =
      (nat_eq (length s.dns_servers) 0 && nat_eq (length s.options) 0)
      || (not (scope_is6 e s)
          && (leb (length s.dns_servers) 8
              && (leb (length s.options) 32
                  && (all_unicast4 s.dns_servers && distinct_options s.options []))))

  -- pool.Bits() < l <= 64, l - pool.Bits() <= 16, l >= 32
  fits_pool : ℤ → ℕ → Bool
  fits_pool (pos l) bits = ltb bits l && (leb l 64 && (leb l (bits + 16) && leb 32 l))
  fits_pool (negsuc l) bits = false

  -- The pool of a scope is kept apart from the scope's subnet, the earlier subnets and pools.
  unfoldable pub valid_pd :
      Scope → Prefix → List Prefix → List Prefix → PdConfig → Option (List Prefix)
  unfolding overlaps_any fits_pool
  valid_pd s p earlier pools pd = elim (e.parse_prefix pd.prefix) [
    | none ↦ none
    | some pool ↦
        if scope_is6 e s
          && (e.same_prefix pool (e.masked pool)
              && (e.is6 (e.prefix_addr pool)
                  && (not (e.is4in6 (e.prefix_addr pool))
                      && (fits_pool pd.length (e.bits pool)
                          && (not (e.overlaps pool p)
                              && (not (overlaps_any e pool earlier)
                                  && not (overlaps_any e pool pools)))))))
        then some (pool ∷ pools)
        else none
  ]

  unfoldable pub valid_boot : Scope → BootConfig → Bool
  unfolding has_control parses_unicast4
  valid_boot s boot =
      not (scope_is6 e s)
      && (not (boot.file == "")
          && (leb (len boot.file) 128
              && (not (has_control (codes boot.file))
                  && (boot.next_server == "" || parses_unicast4 boot.next_server))))

  unfoldable pub nested : String → List String → Bool
  unfolding has_suffix
  nested zone [] = false
  nested zone (z ∷ zs) =
      (has_suffix z (joined "." zone) || has_suffix zone (joined "." z)) || nested zone zs

  unfoldable pub valid_reservations :
      Scope → Prefix → List String → List Reservation → List String → List String → Bool
  valid_reservations s p devices [] clients addresses = true
  valid_reservations s p devices (r ∷ rs) clients addresses =
      valid_client e r.client
      && (is_host e p r.address
          && (not (r.address == s.server)
              && (not (r.address == s.router)
                  && (contains devices r.device
                      && (not (contains clients r.client)
                          && (not (contains addresses r.address)
                              && (elim (scope_is6 e s) [
                                | true ↦ starts_with r.client "duid:"
                                | false ↦ not (starts_with r.client "duid:")
                              ]
                                  && valid_reservations s p devices rs (r.client ∷ clients)
                                      (r.address ∷ addresses))))))))

  -- What the loop over the scopes has collected.
  pub record Seen : Type 0 where
    pub ids : List String
    pub selectors : List String
    pub zones : List String
    pub prefixes : List Prefix
    pub pools : List Prefix

  unfoldable pub no_scopes : Seen
  no_scopes = record { ids = []; selectors = []; zones = []; prefixes = []; pools = [] }

  unfoldable pub pools_with : Scope → Prefix → Seen → Option (List Prefix)
  unfolding valid_pd
  pools_with s p seen = elim s.pd [
    | none ↦ some seen.pools
    | some pd ↦ valid_pd s p seen.prefixes seen.pools pd
  ]

  unfoldable pub boots : Scope → Bool
  unfolding valid_boot
  boots s = elim s.boot [ none ↦ true | some boot ↦ valid_boot s boot ]

  -- One round of the loop over the scopes.
  unfoldable pub accept_scope : List String → Scope → Seen → Option Seen
  accept_scope devices s seen = do
    check (is_label s.id && (not (contains seen.ids s.id) && matches_interface (codes s.interface)))
    p ← e.parse_prefix s.subnet
    check (valid_prefix e p && not (overlaps_any e p seen.prefixes))
    server ← e.parse_addr s.server
    check (valid_server e p server)
    selector ← selector_of e s p server
    check (
        not (contains seen.selectors selector)
        && (valid_pool e s p && (valid_times s p && valid_extras s)))
    pools ← pools_with s p seen
    check (
        boots s
        && (valid_zone s.zone
            && (not (nested s.zone seen.zones)
                && valid_reservations s p devices s.reservations [] [])))
    some (record {
      ids = s.id ∷ seen.ids;
      selectors = selector ∷ seen.selectors;
      zones = s.zone ∷ seen.zones;
      prefixes = p ∷ seen.prefixes;
      pools = pools;
    })

  unfoldable pub accept_scopes : List String → List Scope → Seen → Option Seen
  accept_scopes devices [] seen = some seen
  accept_scopes devices (s ∷ ss) seen =
      accept_scope devices s seen >>= λ seen'. accept_scopes devices ss seen'

  -- Config.Validate returns no error.
  unfoldable pub validate_config : Config → Bool
  validate_config c = not (
      is_none (do
        devices ← device_ids c.devices [] [] []
        check (valid_tftp e c.tftp)
        accept_scopes devices c.scopes no_scopes))
