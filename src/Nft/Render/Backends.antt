-- ===== src/Nft/Render/Backends.antt =====
-- internal/nft/render.go: the ports that the input chain opens for the ingress.
use mathlib.Core.List.{append_assoc}
use ghostd.Nft.Chains.{
  ReachabilityGuard, quoted, iface_set, sorted_strings, port_set, when, new_ports, backend_ports,
  sorted_redirects, input_head, guard_lines, zone_jump, ingress_input, input_chain,
}
use ghostd.Nft.Names.{same_port}
use ghostd.Nft.Policy.{RedirectRule, Zone, Ingress, DesiredState}
use ghostd.Nft.Render.Members.{Any-insert_sorted, sort-Any}
use ghostd.Nft.Render.Spelled.{open_text}
use ghostd.Nft.Sorting.{port_le, insert_sorted, sort}
use ghostd.Nft.Validate.{any_of, is_empty_list}
use ghostd.Prelude.{
  ℤ, pos, negsuc, String, ◌≡◌, ◌↔◌, refl, sym, ◌∙◌, ap, subst, arith, true, false, ◌⊎◌, inl, inr,
  Bool-cases, some, List, [], ◌∷◌, ◌++◌, map, Any,
}

same_port-eq : (p q : ℤ) → same_port p q ≡ true → p ≡ q
unfolding same_port
same_port-eq (pos m) (pos n) e = ap pos (ground (arith, e))
same_port-eq (negsuc m) (negsuc n) e = ap negsuc (ground (arith, e))
same_port-eq (pos m) (negsuc n) e = cc
same_port-eq (negsuc m) (pos n) e = cc

module _ (n : ℤ) where
  Has : List ℤ → Type 0
  Has ports = Any (λ p. p ≡ n) ports

  seen-Has : (p : ℤ) (seen : List ℤ) → any_of (same_port p) seen ≡ true → p ≡ n → Has seen
  unfolding any_of Has
  seen-Has p [] e is = cc e
  seen-Has p (q ∷ seen) e is = elim (Bool-cases (same_port p q)) [
    | inl here ↦ inl (sym (same_port-eq p q here) ∙ is)
    | inr other ↦ inr (seen-Has p seen (rw other at e) is)
  ]

  Has-new_ports :
      (rules : List RedirectRule) (seen : List ℤ)
      → Has (new_ports rules seen)
      → Any (λ r. r.to_port ≡ n) rules
  unfolding new_ports Has
  Has-new_ports [] seen there = elim there [ ]
  Has-new_ports (r ∷ rules) seen there = elim (Bool-cases (any_of (same_port r.to_port) seen)) [
    | inl old ↦ inr (Has-new_ports rules seen (rw old at there))
    | inr new ↦ added (Has-new_ports rules (r.to_port ∷ seen)) (rw new at there)
  ]
    where
      added :
          (Has (new_ports rules (r.to_port ∷ seen)) → Any (λ r. r.to_port ≡ n) rules)
          → (r.to_port ≡ n) ⊎ Has (new_ports rules (r.to_port ∷ seen))
          → (r.to_port ≡ n) ⊎ Any (λ r. r.to_port ≡ n) rules
      added f (inl is) = inl is
      added f (inr more) = inr (f more)

  new_ports-Has :
      (rules : List RedirectRule) (seen : List ℤ)
      → Any (λ r. r.to_port ≡ n) rules
      → Has (new_ports rules seen) ⊎ Has seen
  unfolding new_ports Has
  new_ports-Has [] seen there = elim there [ ]
  new_ports-Has (r ∷ rules) seen there = elim (Bool-cases (any_of (same_port r.to_port) seen)) [
    | inl old ↦ rw old (elim there [
      | inl is ↦ inr (seen-Has r.to_port seen old is)
      | inr more ↦ new_ports-Has rules seen more
    ])
    | inr new ↦ rw new (elim there [
      | inl is ↦ inl (inl is)
      | inr more ↦ elim (new_ports-Has rules (r.to_port ∷ seen) more) [
        | inl later ↦ inl (inr later)
        | inr (inl is) ↦ inl (inl is)
        | inr (inr old) ↦ inr old
      ]
    ])
  ]

  backend_ports-Has :
      (ingress : Ingress) → Has (backend_ports ingress) ↔ Any (λ r. r.to_port ≡ n) ingress.redirects
  unfolding backend_ports sorted_redirects Has
  backend_ports-Has ingress =
      let ports = new_ports (sorted_redirects ingress) [] in
      let sorted = sort-Any (λ p. p ≡ n) port_le ports in
      let rules = sort-Any (λ r. r.to_port ≡ n) (λ r s. port_le r.port s.port) ingress.redirects in
      (
        λ a. rules.0 (Has-new_ports (sorted_redirects ingress) [] (sorted.0 a)),
        λ a. sorted.1 (elim (new_ports-Has (sorted_redirects ingress) [] (rules.1 a)) [
          | inl new ↦ new
          | inr none_left ↦ elim none_left [ ]
        ]),
      )

-- No port stands twice in a list.
abbrev pub Once : List ℤ → Type 0
Once [] = Unit
Once (p ∷ ports) = ¬ Any (λ q. q ≡ p) ports × Once ports

insert_sorted-Once :
    (p : ℤ) (ports : List ℤ)
    → ¬ Any (λ q. q ≡ p) ports
    → Once ports
    → Once (insert_sorted port_le p ports)
unfolding insert_sorted
insert_sorted-Once p [] new once = (new, tt)
insert_sorted-Once p (q ∷ ports) new once =
    let rest = insert_sorted-Once p ports (λ a. new (inr a)) once.1 in
    elim (Bool-cases (port_le p q)) [
      | inl first ↦ rw first (new, once)
      | inr later ↦ rw later (
        λ a. elim (Any-insert_sorted (λ r. r ≡ q) port_le p ports a) [
          | inl e ↦ new (inl (sym e))
          | inr old ↦ once.0 old
        ],
        rest,
      )
    ]

sort-Once : (ports : List ℤ) → Once ports → Once (sort port_le ports)
unfolding sort
sort-Once [] once = tt
sort-Once (p ∷ ports) once =
    insert_sorted-Once p (sort port_le ports)
      (λ a. once.0 ((sort-Any (λ q. q ≡ p) port_le ports).0 a)) (sort-Once ports once.1)

same_port_refl : (p : ℤ) → same_port p p ≡ true
unfolding same_port
same_port_refl (pos n) = ground arith
same_port_refl (negsuc n) = ground arith

seen-any_of : (p : ℤ) (seen : List ℤ) → Any (λ q. q ≡ p) seen → any_of (same_port p) seen ≡ true
unfolding any_of
seen-any_of p [] a = elim a [ ]
seen-any_of p (q ∷ seen) (inl e) =
    let here : same_port p q ≡ true =
      subst (λ r. same_port p r ≡ true) (sym e) (same_port_refl p) in
    rw here refl
seen-any_of p (q ∷ seen) (inr a) = elim (Bool-cases (same_port p q)) [
  | inl here ↦ rw here refl
  | inr other ↦ rw other (seen-any_of p seen a)
]

-- A port that was seen is not listed again.
new_ports-unseen :
    (p : ℤ) (rules : List RedirectRule) (seen : List ℤ)
    → Any (λ q. q ≡ p) seen
    → Any (λ q. q ≡ p) (new_ports rules seen)
    → ⊥
unfolding new_ports
new_ports-unseen p [] seen old a = elim a [ ]
new_ports-unseen p (r ∷ rules) seen old there =
    elim (Bool-cases (any_of (same_port r.to_port) seen)) [
      | inl known ↦ new_ports-unseen p rules seen old (rw known at there)
      | inr new ↦ elim (rw new at there) [
        | inl e ↦
            absurd (
              cc (new, seen-any_of r.to_port seen (subst (λ x. Any (λ q. q ≡ x) seen) (sym e) old)))
        | inr more ↦ new_ports-unseen p rules (r.to_port ∷ seen) (inr old) more
      ]
    ]

new_ports-Once : (rules : List RedirectRule) (seen : List ℤ) → Once (new_ports rules seen)
unfolding new_ports
new_ports-Once [] seen = tt
new_ports-Once (r ∷ rules) seen = elim (Bool-cases (any_of (same_port r.to_port) seen)) [
  | inl known ↦ rw known (new_ports-Once rules seen)
  | inr new ↦ rw new (
    new_ports-unseen r.to_port rules (r.to_port ∷ seen) (inl refl),
    new_ports-Once rules (r.to_port ∷ seen),
  )
]

backend_ports-Once : (ingress : Ingress) → Once (backend_ports ingress)
unfolding backend_ports
backend_ports-Once ingress =
    sort-Once (new_ports (sorted_redirects ingress) [])
      (new_ports-Once (sorted_redirects ingress) [])

-- For an ingress that has redirects, the input chain ends with one line that accepts, as nft reads it,
-- what comes in by the interfaces of the ingress for some TCP ports. They are exactly the ports that
-- a redirect leads to, and none is written twice.
pub input_chain-Opens :
    (at : String → Zone) (ds : DesiredState) (guard : ReachabilityGuard) (names : List String)
    (ingress : Ingress)
    → ds.ingress ≡ some ingress
    → is_empty_list ingress.redirects ≡ false
    → (before : List String) × (ports : List ℤ) × (input_chain at ds guard names
        ≡ before ++ (open_text ingress.interfaces ports ∷ "  }" ∷ []))
      × Once ports
      × ((n : ℤ) → Any (λ p. p ≡ n) ports ↔ Any (λ r. r.to_port ≡ n) ingress.redirects)
unfolding input_chain ingress_input iface_set quoted sorted_strings port_set when Has
input_chain-Opens at ds guard names ingress is some_redirect = (
  input_head ++ (guard_lines guard ++ map (zone_jump at) names),
  backend_ports ingress,
  rw (is, some_redirect) (simp (append_assoc)),
  backend_ports-Once ingress,
  λ n. backend_ports-Has n ingress,
)
