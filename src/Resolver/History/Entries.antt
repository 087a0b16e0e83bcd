-- ===== src/Resolver/History/Entries.antt =====
-- internal/resolver/acl.go: which entries a table of granted hosts has after a grant.
use ghostd.Prelude.{
  ℕ, suc, ◌+◌, String, ◌==◌, ◌≡◌, refl, ◌∙◌, arith, eq_iff, Bool, true, false, ◌⊎◌, inl, inr,
  Bool-cases, some, some_inj, List, [], ◌∷◌, Any, lookup, erase, insert, length, if◌then◌else◌, ltb,
}
use ghostd.Resolver.Host.{Host}
use ghostd.Resolver.Local.{Rr, a, aaaa, srv, other, Header, grant_targets}
use ghostd.Resolver.Policy.{Policy, sweep, grant_host, grant_time, most_grants}

abbrev pub Holds : String → ℕ → List (String × ℕ) → Type 0
Holds host expiry = Any (λ e. (e.0 ≡ host) × (e.1 ≡ expiry))

pub lookup-Holds :
    (host : String) (expiry : ℕ) (entries : List (String × ℕ))
    → lookup host entries ≡ some expiry
    → Holds host expiry entries
unfolding lookup
lookup-Holds host expiry [] h = cc
lookup-Holds host expiry ((name, e) ∷ entries) h = elim (Bool-cases (name == host)) [
  | inl same ↦ inl ((eq_iff name host).0 same, some_inj (rw same at h))
  | inr differs ↦ inr (lookup-Holds host expiry entries (rw differs at h))
]

Holds-keep :
    (b : Bool) (host : String) (expiry : ℕ) (e : String × ℕ) (rest all : List (String × ℕ))
    → (Holds host expiry rest → Holds host expiry all)
    → Holds host expiry (if b then e ∷ rest else rest)
    → Holds host expiry (e ∷ all)
Holds-keep true host expiry e rest all f (inl here) = inl here
Holds-keep true host expiry e rest all f (inr there) = inr (f there)
Holds-keep false host expiry e rest all f h = inr (f h)

sweep-Holds :
    (host : String) (expiry now : ℕ) (entries : List (String × ℕ))
    → Holds host expiry (sweep now entries)
    → Holds host expiry entries
unfolding sweep
sweep-Holds host expiry now [] h = h
sweep-Holds host expiry now ((name, e) ∷ entries) h =
    Holds-keep (ltb now e) host expiry (name, e) (sweep now entries) entries
      (sweep-Holds host expiry now entries) h

erase-Holds :
    (host key : String) (expiry : ℕ) (entries : List (String × ℕ))
    → Holds host expiry (erase key entries)
    → Holds host expiry entries
unfolding erase
erase-Holds host key expiry [] h = h
erase-Holds host key expiry ((name, e) ∷ entries) h = elim (Bool-cases (name == key)) [
  | inl gone ↦ inr (erase-Holds host key expiry entries (rw gone at h))
  | inr kept ↦
      Holds-keep true host expiry (name, e) (erase key entries) entries
        (erase-Holds host key expiry entries) (rw kept at h)
]

module _ (h : Host) where
  -- An entry after a grant is an old one, or the one that was granted.
  grant_host-Holds :
      (host target : String) (expiry now : ℕ) (p : Policy)
      → Holds host expiry (grant_host h now target p).granted
      → Holds host expiry p.granted ⊎ ((h.to_lower target ≡ host) × (now + grant_time ≡ expiry))
  unfolding grant_host insert
  grant_host-Holds host target expiry now p holds =
      elim (Bool-cases (ltb (length (sweep now p.granted)) most_grants)) [
        | inr full ↦ inl (sweep-Holds host expiry now p.granted (rw full at holds))
        | inl room ↦ new (rw room at holds)
      ]
    where
      new :
          Holds host expiry (
            (h.to_lower target, now + grant_time) ∷ erase (h.to_lower target) (sweep now p.granted))
          → Holds host expiry p.granted ⊎ ((h.to_lower target ≡ host) × (now + grant_time ≡ expiry))
      new (inl here) = inr here
      new (inr there) = inl (
          sweep-Holds host expiry now p.granted
            (erase-Holds host (h.to_lower target) expiry (sweep now p.granted) there))

  grant_host-id : (target : String) (now : ℕ) (p : Policy) → (grant_host h now target p).id ≡ p.id
  unfolding grant_host
  grant_host-id target now p = ground arith

  -- A record of a reply that names a host as the target of a service.
  pub data Names (host : String) : List (Rr h) → Type 0 where
    here :
        (header : Header) (target : String) (rrs : List (Rr h))
        → h.to_lower target ≡ host
        → Names host (srv header target ∷ rrs)
    there : (rr : Rr h) (rrs : List (Rr h)) → Names host rrs → Names host (rr ∷ rrs)

  abbrev Grants : (ℕ → ℕ) → List (Rr h) → String → ℕ → Type 0
  Grants clock rrs host expiry = Names host rrs × ((k : ℕ) × (clock k + grant_time ≡ expiry))

  more :
      {P : Type 0} (host : String) (expiry : ℕ) (clock : ℕ → ℕ) (rr : Rr h) (rrs : List (Rr h))
      → P ⊎ Grants clock rrs host expiry
      → P ⊎ Grants clock (rr ∷ rrs) host expiry
  more host expiry clock rr rrs (inl old) = inl old
  more host expiry clock rr rrs (inr (names, at)) = inr (there rr rrs names, at)

  pub grant_targets-Holds :
      (host : String) (expiry : ℕ) (clock : ℕ → ℕ) (rrs : List (Rr h)) (p : Policy)
      → Holds host expiry (grant_targets h clock rrs p).granted
      → Holds host expiry p.granted ⊎ Grants clock rrs host expiry
  unfolding grant_targets
  grant_targets-Holds host expiry clock [] p holds = inl holds
  grant_targets-Holds host expiry clock (srv header target ∷ rrs) p holds =
      elim (grant_targets-Holds host expiry (λ n. clock (suc n)) rrs
        (grant_host h (clock 0) target p) holds) [
          | inr (names, (k, at)) ↦ inr (there (srv header target) rrs names, (suc k, at))
          | inl before ↦ elim (grant_host-Holds host target expiry (clock 0) p before) [
            | inl old ↦ inl old
            | inr (same, at) ↦ inr (here header target rrs same, (0, at))
          ]
        ]
  grant_targets-Holds host expiry clock (a header ip ∷ rrs) p holds =
      more host expiry clock (a header ip) rrs (grant_targets-Holds host expiry clock rrs p holds)
  grant_targets-Holds host expiry clock (aaaa header ip ∷ rrs) p holds =
      more host expiry clock (aaaa header ip) rrs
        (grant_targets-Holds host expiry clock rrs p holds)
  grant_targets-Holds host expiry clock (other header ∷ rrs) p holds =
      more host expiry clock (other header) rrs (grant_targets-Holds host expiry clock rrs p holds)

  pub grant_targets-id :
      (clock : ℕ → ℕ) (rrs : List (Rr h)) (p : Policy) → (grant_targets h clock rrs p).id ≡ p.id
  unfolding grant_targets
  grant_targets-id clock [] p = refl
  grant_targets-id clock (srv header target ∷ rrs) p =
      grant_targets-id (λ n. clock (suc n)) rrs (grant_host h (clock 0) target p)
      ∙ grant_host-id target (clock 0) p
  grant_targets-id clock (a header ip ∷ rrs) p = grant_targets-id clock rrs p
  grant_targets-id clock (aaaa header ip ∷ rrs) p = grant_targets-id clock rrs p
  grant_targets-id clock (other header ∷ rrs) p = grant_targets-id clock rrs p
