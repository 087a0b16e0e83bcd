-- ===== src/Ledger/Admit.antt =====
-- internal/addressbook/allocate.go: the checks of Store.Allocate before its transaction.
use text.Mathlib.Text.{starts_with}
use ghostd.Prelude.{
  String, ◌==◌, Bool, ◌||◌, not, Option, none, some, if◌then◌else◌, nat_eq, length, ◌≡◌, ap, subst,
  true, some_inj,
}
use ghostd.Ledger.Config.{Config, Scope, find_scope, scope_is6}
use ghostd.Ledger.Identifiers.{valid_client}
use ghostd.Ledger.Net.{Net}
use ghostd.Ledger.Partial.{◌>>=◌, ◌>>◌, check, >>=-eq-some, check-eq-some}

module _ (e : Net) where
  -- The hardware address of a request in its usual form; IPv6 clients may have none.
  unfoldable pub hardware : Bool → String → Option String
  hardware is6 mac =
      if not (mac == "") || not is6
      then elim (e.parse_mac mac) [
        | none ↦ none
        | some hw ↦ if nat_eq (length hw) 6 then some (e.print_mac hw) else none
      ]
      else some mac

  unfoldable pub fits_family : Scope → String → Bool
  fits_family s client =
      if scope_is6 e s then starts_with client "duid:" else not (starts_with client "duid:")

  -- The checks before the transaction: the scope and the hardware address.
  unfoldable pub admit : Config → String → String → String → Option (Scope × String)
  unfolding hardware fits_family
  admit c scope_id client mac = do
    s ← find_scope c scope_id
    check s.enabled
    check (valid_client e client)
    hw ← hardware (scope_is6 e s) mac
    check (fits_family s client)
    some (s, hw)

  -- A request that passes the checks.
  pub record Admitted (c : Config) (scope_id client mac : String) (s : Scope) (hw : String)
      : Type 0 where
    pub configured : find_scope c scope_id ≡ some s
    pub enabled : s.enabled ≡ true
    pub well_formed : valid_client e client ≡ true
    pub usual : hardware (scope_is6 e s) mac ≡ some hw
    pub family : fits_family s client ≡ true

  pub admit-eq-some :
      (c : Config) (scope_id client mac : String) (s : Scope) (hw : String)
      → admit c scope_id client mac ≡ some (s, hw)
      → Admitted c scope_id client mac s hw
  unfolding admit
  admit-eq-some c scope_id client mac s hw h =
      let (s', found, rest) =
        >>=-eq-some (find_scope c scope_id)
          (λ s'.
            check s'.enabled
            >> (check (valid_client e client)
                >> (hardware (scope_is6 e s') mac >>= λ hw'.
                    check (fits_family s' client) >> some (s', hw'))))
          h in
      let (enabled, rest1) =
        check-eq-some s'.enabled
          (check (valid_client e client)
            >> (hardware (scope_is6 e s') mac >>= λ hw'.
                check (fits_family s' client) >> some (s', hw')))
          rest in
      let (well_formed, rest2) =
        check-eq-some (valid_client e client)
          (hardware (scope_is6 e s') mac >>= λ hw'. check (fits_family s' client) >> some (s', hw'))
          rest1 in
      let (hw', usual, rest3) =
        >>=-eq-some (hardware (scope_is6 e s') mac)
          (λ hw'. check (fits_family s' client) >> some (s', hw')) rest2 in
      let (family, last) = check-eq-some (fits_family s' client) (some (s', hw')) rest3 in
      let same = some_inj last in
      let same_scope = ap (λ p. p.0) same in
      let same_hw = ap (λ p. p.1) same in
      subst (λ x. Admitted c scope_id client mac x hw) same_scope
        (subst (Admitted c scope_id client mac s') same_hw (record {
          configured = found;
          enabled = enabled;
          well_formed = well_formed;
          usual = usual;
          family = family;
        }))
