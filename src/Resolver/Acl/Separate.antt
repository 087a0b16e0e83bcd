-- ===== src/Resolver/Acl/Separate.antt =====
-- internal/resolver/acl.go: what an accepted dns-acl.json keeps apart.
use ghostd.Ledger.Partial.{>>=-eq-some, check-eq-some}
use ghostd.Prelude.{
  String, ◌≡◌, ◌≢◌, sym, ◌∙◌, ap, arith, eq_iff, true, false, ◌&&◌, ◌||◌, not, Option, none, some,
  some_inj, List, [], ◌∷◌, All, All-mono, contains, joined,
}
use ghostd.Resolver.Acl.{
  DnsIdentity, accepts_name, accept_names, class_is, accepts_service, accept_services,
  accept_identity, accept_from, validate_acl,
}
use ghostd.Resolver.Host.{Host}
use ghostd.Resolver.Labels.{valid_name, service_class}

module _ (h : Host) where
  -- Two identities have different names and listen on different listed_addresses.
  abbrev pub Apart : DnsIdentity → DnsIdentity → Type 0
  Apart x y =
      (x.name ≢ y.name)
      × ((i j : h.Ip)
          → h.parse_ip x.listen ≡ some i
          → h.parse_ip y.listen ≡ some j
          → h.print_ip i ≢ h.print_ip j)

  abbrev pub Separate : List DnsIdentity → Type 0
  Separate [] = Unit
  Separate (x ∷ xs) = All (Apart x) xs × Separate xs

  -- An identity has a label for its name, one specific address, and sound lists.
  abbrev pub IsSound : DnsIdentity → Type 0
  IsSound x =
      (valid_name x.name ≡ true)
      × ((i : h.Ip) × (h.parse_ip x.listen ≡ some i)
          × (h.is_unspecified i ≡ false)
          × (h.is_multicast i ≡ false))
      × All (λ n. accepts_name n ≡ true) x.allow_names
      × All (λ s. service_class h (joined s ".local.") ≡ some (h.to_lower s)) x.allow_services

  names-All : (ns : List String) → accept_names ns ≡ true → All (λ n. accepts_name n ≡ true) ns
  unfolding accept_names
  names-All [] e = tt
  names-All (n ∷ ns) e = (ground (arith, e), names-All ns (ground (arith, e)))

  class_is-eq : (c : Option String) (s : String) → class_is c s ≡ true → c ≡ some s
  unfolding class_is
  class_is-eq none s e = cc
  class_is-eq (some c) s e = ap some ((eq_iff c s).0 e)

  services-All :
      (ss : List String)
      → accept_services h ss ≡ true
      → All (λ s. service_class h (joined s ".local.") ≡ some (h.to_lower s)) ss
  unfolding accept_services accepts_service
  services-All [] e = tt
  services-All (s ∷ ss) e = (
    class_is-eq (service_class h (joined s ".local.")) (h.to_lower s) (ground (arith, e)),
    services-All ss (ground (arith, e)),
  )

  -- Names and listeners that came before.
  abbrev Fresh : List String → List String → DnsIdentity → Type 0
  Fresh names listens x =
      (contains names x.name ≡ false)
      × ((i : h.Ip) → h.parse_ip x.listen ≡ some i → contains listens (h.print_ip i) ≡ false)

  identity-Fresh :
      (names listens : List String) (x : DnsIdentity) (listen : String)
      → accept_identity h names listens x ≡ some listen
      → IsSound x
        × Fresh names listens x
        × ((i : h.Ip) → h.parse_ip x.listen ≡ some i → h.print_ip i ≡ listen)
  unfolding accept_identity
  identity-Fresh names listens x listen e =
      let (named, e1) = check-eq-some (valid_name x.name && not (contains names x.name)) _ e in
      let (ip, parsed, e2) = >>=-eq-some (h.parse_ip x.listen) _ e1 in
      let (specific, e3) = check-eq-some (not (h.is_unspecified ip || h.is_multicast ip)) _ e2 in
      let (unused, e4) = check-eq-some (not (contains listens (h.print_ip ip))) _ e3 in
      let (names_ok, e5) = check-eq-some (accept_names x.allow_names) _ e4 in
      let (services_ok, e6) = check-eq-some (accept_services h x.allow_services) _ e5 in
      let same = λ (i : h.Ip) (p : h.parse_ip x.listen ≡ some i).
        ap h.print_ip (some_inj (sym p ∙ parsed)) in
      (
        (
          ground (arith, named),
          (ip, parsed, ground (arith, specific), ground (arith, specific)),
          names-All x.allow_names names_ok,
          services-All x.allow_services services_ok,
        ),
        (ground (arith, named), λ i p. ap (contains listens) (same i p) ∙ ground (arith, unused)),
        λ i p. same i p ∙ some_inj e6,
      )

  older :
      (names listens : List String) (x : DnsIdentity) (listen : String) (y : DnsIdentity)
      → ((i : h.Ip) → h.parse_ip x.listen ≡ some i → h.print_ip i ≡ listen)
      → Fresh (x.name ∷ names) (listen ∷ listens) y
      → Fresh names listens y × Apart x y
  unfolding contains
  older names listens x listen y same (new_name, new_listen) = (
    (ground (arith, new_name), λ j q. let off = new_listen j q in ground (arith, off)),
    (
      λ e. ground (arith, new_name, eq_iff x.name y.name, e),
      λ i j p q e.
          let off = new_listen j q in
          ground (arith, off, eq_iff listen (h.print_ip j), sym (same i p) ∙ e),
    ),
  )

  accept_from-Separate :
      (names listens : List String) (ids : List DnsIdentity)
      → accept_from h names listens ids ≡ some tt
      → All (λ x. IsSound x) ids × All (Fresh names listens) ids × Separate ids
  unfolding accept_from
  accept_from-Separate names listens [] e = (tt, tt, tt)
  accept_from-Separate names listens (x ∷ xs) e =
      let (listen, first, rest) =
        >>=-eq-some (accept_identity h names listens x)
          (λ l. accept_from h (x.name ∷ names) (l ∷ listens) xs) e in
      let (sound, fresh, same) = identity-Fresh names listens x listen first in
      let (sounds, later, apart) =
        accept_from-Separate (x.name ∷ names) (listen ∷ listens) xs rest in
      let step = λ (y : DnsIdentity) (f : Fresh (x.name ∷ names) (listen ∷ listens) y).
        older names listens x listen y same f in
      (
        (sound, sounds),
        (
          fresh,
          All-mono (Fresh (x.name ∷ names) (listen ∷ listens)) (Fresh names listens) xs
              (λ y f. (step y f).0) later,
        ),
        (
          All-mono (Fresh (x.name ∷ names) (listen ∷ listens)) (Apart x) xs (λ y f. (step y f).1)
              later,
          apart,
        ),
      )

  -- An accepted list of identities has a label for each name, one specific address for each
  -- listener, which is neither the wildcard nor a multicast address, sound entries of allow_names,
  -- and entries of allow_services that are classes of services; and no two of them have the same
  -- name, or listen on listed_addresses that are written the same.
  pub validate_acl-Separate :
      (ids : List DnsIdentity)
      → validate_acl h ids ≡ some tt
      → All (λ x. IsSound x) ids × Separate ids
  unfolding validate_acl
  validate_acl-Separate ids e =
      let (sound, _, apart) = accept_from-Separate [] [] ids e in (sound, apart)
