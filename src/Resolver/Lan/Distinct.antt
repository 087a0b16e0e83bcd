-- ===== src/Resolver/Lan/Distinct.antt =====
-- internal/resolver/resolver.go: the addresses that getent prints, each once.
use ghostd.Ledger.Identifiers.{split}
use ghostd.Prelude.{
  String, ◌==◌, ◌≡◌, ◌≢◌, refl, sym, ◌∙◌, ap, subst, arith, eq_iff, false, inl, inr, Bool-cases,
  Option, none, some, some_inj, List, [], ◌∷◌, All, All-mono, Any, contains,
}
use ghostd.Resolver.Host.{Host}
use ghostd.Resolver.Lan.{prints, add_address, parsed_first, listed_addresses, lookup_host}

module _ (h : Host) where
  -- No two addresses of a list are written the same.
  abbrev pub Distinct : List h.Ip → Type 0
  Distinct [] = Unit
  Distinct (ip ∷ ips) = All (λ other. h.print_ip other ≢ h.print_ip ip) ips × Distinct ips

  abbrev Unseen : List String → h.Ip → Type 0
  Unseen seen ip = contains seen (h.print_ip ip) ≡ false

  Unseen-again :
      (seen : List String) (text : String) (ip : h.Ip)
      → Unseen (text ∷ seen) ip
      → Unseen seen ip × (h.print_ip ip ≢ text)
  unfolding contains
  Unseen-again seen text ip new =
      (ground (arith, new), λ e. ground (arith, new, eq_iff text (h.print_ip ip), e))

  -- An address of a list is written like this one.
  abbrev pub Written : String → List h.Ip → Type 0
  Written text ips = Any (λ ip. h.print_ip ip ≡ text) ips

  -- New addresses, each once, and every one of the lines that was not seen.
  abbrev Lists : List String → List String → List h.Ip → Type 0
  Lists lines seen ips =
      All (Unseen seen) ips
      × Distinct ips
      × ((ip : h.Ip)
          → Any (λ line. parsed_first h (h.fields line) ≡ some ip) lines
          → contains seen (h.print_ip ip) ≡ false
          → Written (h.print_ip ip) ips)

  next-Lists :
      (line : String) (lines seen : List String) (found : Option h.Ip)
      → parsed_first h (h.fields line) ≡ found
      → ((seen' : List String) → Lists lines seen' (listed_addresses h lines seen'))
      → Lists (line ∷ lines) seen (add_address h seen found (listed_addresses h lines))
  unfolding add_address contains
  next-Lists line lines seen none is rest =
      let (unseen, distinct, all) = rest seen in
      (
        unseen,
        distinct,
        λ ip there new. elim there [
          | inl here ↦ absurd (cc (sym is ∙ here))
          | inr later ↦ all ip later new
        ],
      )
  next-Lists line lines seen (some ip) is rest = elim (Bool-cases (contains seen (h.print_ip ip))) [
    | inl old ↦
        let (unseen, distinct, all) = rest seen in
        rw old (
          unseen,
          distinct,
          λ other there new. elim there [
            | inl here ↦ absurd (
                cc (
                  sym new
                  ∙ ap (λ x. contains seen (h.print_ip x)) (some_inj (sym here ∙ is))
                  ∙ old))
            | inr later ↦ all other later new
          ],
        )
    | inr fresh ↦
        let text = h.print_ip ip in
        let (unseen, distinct, all) = rest (text ∷ seen) in
        let ips = listed_addresses h lines (text ∷ seen) in
        rw fresh (
          (
            fresh,
            All-mono (Unseen (text ∷ seen)) (Unseen seen) ips
                (λ x new. (Unseen-again seen text x new).0) unseen,
          ),
          (
            All-mono (Unseen (text ∷ seen)) (λ x. h.print_ip x ≢ text) ips
                (λ x new. (Unseen-again seen text x new).1) unseen,
            distinct,
          ),
          λ other there new. elim there [
            | inl here ↦ inl (ap h.print_ip (some_inj (sym is ∙ here)))
            | inr later ↦ elim (Bool-cases (text == h.print_ip other)) [
              | inl same ↦ inl ((eq_iff text (h.print_ip other)).0 same)
              | inr differs ↦ inr (all other later (ground (arith, differs, new)))
            ]
          ],
        )
  ]

  all-Lists : (lines seen : List String) → Lists lines seen (listed_addresses h lines seen)
  unfolding listed_addresses
  all-Lists [] seen = (tt, tt, λ ip there new. elim there [ ])
  all-Lists (line ∷ lines) seen =
      next-Lists line lines seen (parsed_first h (h.fields line)) refl (all-Lists lines)

  -- What getent prints is read as addresses of which no two are written the same, and the first field
  -- of every line that is an address is among them.
  pub lookup_host-Distinct :
      (output : String) (ips : List h.Ip)
      → lookup_host h (prints output) ≡ some ips
      → Distinct ips
        × ((ip : h.Ip)
            → Any (λ line. parsed_first h (h.fields line) ≡ some ip) (split output "\n")
            → Written (h.print_ip ip) ips)
  unfolding lookup_host contains
  lookup_host-Distinct output ips e =
      let (unseen, distinct, all) = all-Lists (split output "\n") [] in
      let same = some_inj e in
      (
        subst Distinct same distinct,
        λ ip there. subst (Written (h.print_ip ip)) same (all ip there refl),
      )
