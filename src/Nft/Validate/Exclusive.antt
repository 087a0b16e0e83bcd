-- ===== src/Nft/Validate/Exclusive.antt =====
-- validate in internal/nft/render.go: interfaces and reachability.
use ghostd.Prelude.{
  ℕ, suc, ◌+◌, ◌≤◌, String, ◌==◌, ◌≡◌, refl, Bool, true, false, ◌||◌, some, List, [], ◌∷◌, ◌⊎◌, inl,
  inr, if◌then◌else◌, contains, arith, eq_iff, some_inj, Option-cases, All, Any,
}
use ghostd.Nft.Policy.{Zone, DesiredState}
use ghostd.Nft.Names.{valid_interface}
use ghostd.Nft.Validate.{
  NetIp, assign_all, validate_zone, validate_zones, validate, any_of, is_some, reachable_zone,
}

-- How often a name stands in a list.
abbrev pub occurrences : String → List String → ℕ
occurrences x [] = 0
occurrences x (y ∷ ys) = let rest = occurrences x ys in if y == x then suc rest else rest

-- How often the zones name an interface.
abbrev pub claims : String → List (String × Zone) → ℕ
claims x [] = 0
claims x ((name, zone) ∷ zones) = occurrences x zone.interfaces + claims x zones

contains-occurrences :
    (xs : List String) (x : String) → contains xs x ≡ false → occurrences x xs ≡ 0
unfolding contains
contains-occurrences [] x h = refl
contains-occurrences (y ∷ ys) x h = ground (arith, contains-occurrences ys x)

module _ (ip : NetIp) where
  assign_all-adds :
      (is assigned after : List String) (x : String)
      → assign_all is assigned ≡ some after
      → occurrences x after ≡ occurrences x is + occurrences x assigned
  unfolding assign_all
  assign_all-adds [] assigned after x h = ground arith
  assign_all-adds (i ∷ is) assigned after x h =
      ground (arith, assign_all-adds is (i ∷ assigned) after x)

  -- An interface that is assigned is valid and new, and the rest follows.
  record Assigns (i : String) (is assigned after : List String) : Type 0 where
    valid : valid_interface i ≡ true
    fresh : contains assigned i ≡ false
    rest : assign_all is (i ∷ assigned) ≡ some after

  assign_all-Assigns :
      (i : String) (is assigned after : List String)
      → assign_all (i ∷ is) assigned ≡ some after
      → Assigns i is assigned after
  unfolding assign_all
  assign_all-Assigns i is assigned after h = record {
    valid = ground arith;
    fresh = ground arith;
    rest = ground arith;
  }

  once-cons :
      (i : String) (assigned : List String)
      → contains assigned i ≡ false
      → ((x : String) → occurrences x assigned ≤ 1)
      → (x : String) → occurrences x (i ∷ assigned) ≤ 1
  once-cons i assigned fresh once x =
      ground (arith, once x, eq_iff i x, contains-occurrences assigned i fresh)

  assign_all-once :
      (is assigned after : List String)
      → assign_all is assigned ≡ some after
      → ((x : String) → occurrences x assigned ≤ 1)
      → (x : String) → occurrences x after ≤ 1
  unfolding assign_all
  assign_all-once [] assigned after h once x = rw (← some_inj h) (once x)
  assign_all-once (i ∷ is) assigned after h once x =
      let a = assign_all-Assigns i is assigned after h in
      assign_all-once is (i ∷ assigned) after a.rest (once-cons i assigned a.fresh once) x

  assign_all-All :
      (is assigned after : List String)
      → assign_all is assigned ≡ some after
      → All (λ i. valid_interface i ≡ true) is
  assign_all-All [] assigned after h = tt
  assign_all-All (i ∷ is) assigned after h =
      let a = assign_all-Assigns i is assigned after h in
      (a.valid, assign_all-All is (i ∷ assigned) after a.rest)

  -- A zone that is accepted assigns its interfaces.
  validate_zone-assigns :
      (redirect_only : Bool) (all : List (String × Zone)) (name : String) (zone : Zone)
      (assigned after : List String)
      → validate_zone ip redirect_only all name zone assigned ≡ some after
      → assign_all zone.interfaces assigned ≡ some after
  unfolding validate_zone
  validate_zone-assigns redirect_only all name zone assigned after h = ground arith

  record Accepts (redirect_only : Bool) (all : List (String × Zone)) (name : String) (zone : Zone)
      (rest : List (String × Zone)) (assigned after : List String) : Type 0 where
    between : List String
    first : assign_all zone.interfaces assigned ≡ some between
    later : validate_zones ip redirect_only all rest between ≡ some after

  validate_zones-Accepts :
      (redirect_only : Bool) (all : List (String × Zone)) (name : String) (zone : Zone)
      (rest : List (String × Zone)) (assigned after : List String)
      → validate_zones ip redirect_only all ((name, zone) ∷ rest) assigned ≡ some after
      → Accepts redirect_only all name zone rest assigned after
  unfolding validate_zones
  validate_zones-Accepts redirect_only all name zone rest assigned after h =
      elim (Option-cases (validate_zone ip redirect_only all name zone assigned)) [
        | inl refused ↦ cc (rw (refused, validate_zones) at h)
        | inr (between, passed) ↦ record {
          between = between;
          first = validate_zone-assigns redirect_only all name zone assigned between passed;
          later = rw (passed, validate_zones) at h;
        }
      ]

  validate_zones-adds :
      (redirect_only : Bool) (all zones : List (String × Zone)) (assigned after : List String)
      (x : String)
      → validate_zones ip redirect_only all zones assigned ≡ some after
      → occurrences x after ≡ claims x zones + occurrences x assigned
  unfolding validate_zones
  validate_zones-adds redirect_only all [] assigned after x h = ground arith
  validate_zones-adds redirect_only all ((name, zone) ∷ rest) assigned after x h =
      let a = validate_zones-Accepts redirect_only all name zone rest assigned after h in
      omega (
        arith,
        assign_all-adds zone.interfaces assigned a.between x a.first,
        validate_zones-adds redirect_only all rest a.between after x a.later,
      )

  validate_zones-once :
      (redirect_only : Bool) (all zones : List (String × Zone)) (assigned after : List String)
      → validate_zones ip redirect_only all zones assigned ≡ some after
      → ((x : String) → occurrences x assigned ≤ 1)
      → (x : String) → occurrences x after ≤ 1
  unfolding validate_zones
  validate_zones-once redirect_only all [] assigned after h once x = rw (← some_inj h) (once x)
  validate_zones-once redirect_only all ((name, zone) ∷ rest) assigned after h once x =
      let a = validate_zones-Accepts redirect_only all name zone rest assigned after h in
      validate_zones-once redirect_only all rest a.between after a.later
        (assign_all-once zone.interfaces assigned a.between a.first once) x

  validate_zones-All :
      (redirect_only : Bool) (all zones : List (String × Zone)) (assigned after : List String)
      → validate_zones ip redirect_only all zones assigned ≡ some after
      → All (λ z. All (λ i. valid_interface i ≡ true) z.1.interfaces) zones
  validate_zones-All redirect_only all [] assigned after h = tt
  validate_zones-All redirect_only all ((name, zone) ∷ rest) assigned after h =
      let a = validate_zones-Accepts redirect_only all name zone rest assigned after h in
      (
        assign_all-All zone.interfaces assigned a.between a.first,
        validate_zones-All redirect_only all rest a.between after a.later,
      )

-- A policy under which no interface is claimed twice, every interface has a name that is safe to
-- render, and the host is not cut off: some zone is trusted or has ssh, unless the policy filters
-- nothing.
pub record IsEnforceable (ds : DesiredState) : Type 0 where
  pub exclusive : (x : String) → claims x ds.zones ≤ 1
  pub named : All (λ z. All (λ i. valid_interface i ≡ true) z.1.interfaces) ds.zones
  pub reachable :
      Any (λ z. (z.0 ≡ "trusted") ⊎ (is_some z.1.ssh ≡ true)) ds.zones ⊎ (ds.redirect_only ≡ true)

or_cases : (x y z : Bool) → ((x || y) || z) ≡ true → ((x ≡ true) ⊎ (y ≡ true)) ⊎ (z ≡ true)
or_cases x y z h = ground arith

any_of-reachable :
    (zones : List (String × Zone))
    → any_of reachable_zone zones ≡ true
    → Any (λ z. (z.0 ≡ "trusted") ⊎ (is_some z.1.ssh ≡ true)) zones
unfolding any_of
any_of-reachable [] h = cc
any_of-reachable ((name, zone) ∷ zones) h =
    elim (or_cases (name == "trusted") (is_some zone.ssh) (any_of reachable_zone zones) h) [
      | inl (inl trusted) ↦ inl (inl ((eq_iff name "trusted").0 trusted))
      | inl (inr ssh) ↦ inl (inr ssh)
      | inr later ↦ inr (any_of-reachable zones later)
    ]

-- A policy that validate accepts claims no interface twice, names only interfaces of the form that
-- Render may write out, and leaves some zone that is named trusted or declares ssh, unless it
-- is a redirect-only policy.
pub validate-IsEnforceable :
    (ip : NetIp) (ds : DesiredState) → validate ip ds ≡ true → IsEnforceable ds
unfolding validate
validate-IsEnforceable ip ds h =
    let ends : (is_some (validate_zones ip ds.redirect_only ds.zones ds.zones []) ≡ true)
        × ((any_of reachable_zone ds.zones || ds.redirect_only) ≡ true) =
      (ground arith, ground arith) in
    elim (Option-cases (validate_zones ip ds.redirect_only ds.zones ds.zones [])) [
      | inl refused ↦ cc (rw refused at ends.0)
      | inr (after, taken) ↦ record {
        exclusive = λ x. omega (
          arith,
          validate_zones-adds ip ds.redirect_only ds.zones ds.zones [] after x taken,
          validate_zones-once ip ds.redirect_only ds.zones ds.zones [] after taken none_twice x,
        );
        named = validate_zones-All ip ds.redirect_only ds.zones ds.zones [] after taken;
        reachable = elim (or_true _ _ ends.1) [
          | inl q ↦ inl (any_of-reachable ds.zones q)
          | inr q ↦ inr q
        ];
      }
    ]
  where
    or_true : (x y : Bool) → (x || y) ≡ true → (x ≡ true) ⊎ (y ≡ true)
    or_true x y h = ground arith

    none_twice : (x : String) → occurrences x [] ≤ 1
    none_twice x = omega arith
