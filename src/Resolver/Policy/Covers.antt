-- ===== src/Resolver/Policy/Covers.antt =====
-- internal/resolver/acl.go: which names the entries of allow_names cover.
use ghostd.Ledger.Identifiers.{has_suffix}
use ghostd.Prelude.{
  String, ◌==◌, ◌≡◌, refl, arith, eq_iff, Bool, true, false, ◌||◌, ◌⊎◌, inl, inr, ◌↔◌, Bool-cases,
  List, [], ◌∷◌, Any, joined,
}
use ghostd.Resolver.Host.{Host}
use ghostd.Resolver.Labels.{trim_suffix}
use ghostd.Resolver.Policy.{matches_entry, matches_any}

-- An entry of allow_names covers a name: "*" for what is not .local, the name itself, or a name
-- above it.
abbrev pub Covers : String → String → Type 0
Covers name entry =
    ((entry ≡ "*") × (has_suffix name ".local" ≡ false) × ((name == "local") ≡ false))
    ⊎ ((name ≡ entry) ⊎ (has_suffix name (joined "." entry) ≡ true))

matches_entry-Covers : (name entry : String) → (matches_entry name entry ≡ true) ↔ Covers name entry
unfolding matches_entry
matches_entry-Covers name entry = (
  λ e. elim (Bool-cases (name == entry || has_suffix name (joined "." entry))) [
    | inl below ↦ inr (ground (arith, below, eq_iff name entry))
    | inr beside ↦ inl (ground (arith, e, beside, eq_iff entry "*"))
  ],
  λ c. ground (arith, c, eq_iff entry "*", eq_iff name entry),
)

or-cases : (x y : Bool) → (x || y) ≡ true → (x ≡ true) ⊎ (y ≡ true)
or-cases true y e = inl refl
or-cases false y e = inr e

or-true_left : (x y : Bool) → x ≡ true → (x || y) ≡ true
or-true_left true y e = refl
or-true_left false y e = cc

or-true_right : (x y : Bool) → y ≡ true → (x || y) ≡ true
or-true_right true y e = refl
or-true_right false y e = e

module _ (h : Host) where
  -- The text without its last dot, in lower case.
  abbrev pub bare : String → String
  bare s = trim_suffix (h.to_lower s) "."

  abbrev pub AnyCovers : String → List String → Type 0
  AnyCovers name entries = Any (λ e. Covers name (bare e)) entries

  pub matches_any→Covers :
      (name : String) (entries : List String)
      → matches_any h name entries ≡ true
      → AnyCovers name entries
  unfolding matches_any
  matches_any→Covers name [] m = cc m
  matches_any→Covers name (e ∷ entries) m =
      elim (or-cases (matches_entry name (bare e)) (matches_any h name entries) m) [
        | inl here ↦ inl ((matches_entry-Covers name (bare e)).0 here)
        | inr there ↦ inr (matches_any→Covers name entries there)
      ]

  pub Covers→matches_any :
      (name : String) (entries : List String)
      → AnyCovers name entries
      → matches_any h name entries ≡ true
  unfolding matches_any
  Covers→matches_any name [] c = elim c [ ]
  Covers→matches_any name (e ∷ entries) (inl here) =
      or-true_left (matches_entry name (bare e)) (matches_any h name entries)
        ((matches_entry-Covers name (bare e)).1 here)
  Covers→matches_any name (e ∷ entries) (inr there) =
      or-true_right (matches_entry name (bare e)) (matches_any h name entries)
        (Covers→matches_any name entries there)
