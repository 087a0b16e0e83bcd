-- ===== src/Ledger/Accepted.antt =====
-- internal/addressbook/config.go: what holds of a configuration that Config.Validate accepts.
mod Inventory
pub mod Whole
use ghostd.Prelude.{
  ℕ, zero, suc, ◌≤◌, String, ◌==◌, ◌≡◌, ◌≢◌, refl, sym, ◌∙◌, ap, subst, arith, eq_iff, Bool, true,
  false, ◌&&◌, ◌||◌, not, Option, none, some, List, [], ◌∷◌, ◌⊎◌, inl, inr, Bool-cases,
  Option-cases, some_inj, All, contains, if◌then◌else◌, ℤ, pos, negsuc, map, leb,
}
use ghostd.Ledger.Accept.{valid_pool, pool_ends, within, overlaps_any, is_host, device_ids}
use ghostd.Ledger.Config.{
  Config, Scope, Reservation, DeviceConfig, find_scope, find_device, scope_is6,
}
use ghostd.Ledger.Net.{Net}
use ghostd.Ledger.Partial.{◌>>=◌, ◌>>◌, check, >>=-eq-some, check-eq-some}
use ghostd.Ledger.Settings.{
  Seen, accept_scope, accept_scopes, valid_reservations, valid_times, validate_config, no_scopes,
}

module _ (e : Net) where
  open e use {Addr, Prefix}

  abbrev pub nth_next : ℕ → Addr → Addr
  nth_next zero a = a
  nth_next (suc n) a = nth_next n (e.next a)

  -- The pool of a scope: both ends parse, and so many steps from the start lead past the end.
  pub record PoolEnds (s : Scope) : Type 0 where
    pub first : Addr
    pub last : Addr
    pub start_parses : e.parse_addr s.start ≡ some first
    pub end_parses : e.parse_addr s.end ≡ some last
    pub rounds : ℕ
    pub few : rounds ≤ 65536
    pub passes : e.is_after (nth_next rounds first) last ≡ true

  pool_ends-passes :
      (n : ℕ) (a end : Addr)
      → pool_ends e n a end ≡ true
      → (k : ℕ) × (k ≤ n) × (e.is_after (nth_next k a) end ≡ true)
  unfolding pool_ends
  pool_ends-passes zero a end h = (0, omega arith, h)
  pool_ends-passes (suc n) a end h = elim (Bool-cases (e.is_after a end)) [
    | inl after ↦ (0, omega arith, after)
    | inr before ↦
        let (k, le, p) = pool_ends-passes n (e.next a) end (ground (arith, before)) in
        (suc k, omega arith, p)
  ]

  pub accept_scope-pool :
      (devices : List String) (s : Scope) (seen seen' : Seen e) (p : Prefix)
      → e.parse_prefix s.subnet ≡ some p
      → accept_scope e devices s seen ≡ some seen'
      → valid_pool e s p ≡ true
  unfolding accept_scope
  accept_scope-pool devices s seen seen' p is h = ground arith

  pub accept_scope-prefix :
      (devices : List String) (s : Scope) (seen seen' : Seen e)
      → accept_scope e devices s seen ≡ some seen'
      → (p : Prefix) × (e.parse_prefix s.subnet ≡ some p)
  unfolding accept_scope
  accept_scope-prefix devices s seen seen' h = elim (Option-cases (e.parse_prefix s.subnet)) [
    | inr found ↦ found
    | inl bad ↦ absurd (ground arith)
  ]

  -- What a round adds, and what it has found missing before.
  pub record Adds (s : Scope) (p : Prefix) (seen seen' : Seen e) : Type 0 where
    pub ids : seen'.ids ≡ s.id ∷ seen.ids
    pub prefixes : seen'.prefixes ≡ p ∷ seen.prefixes
    pub new_id : contains seen.ids s.id ≡ false
    pub apart : overlaps_any e p seen.prefixes ≡ false

  pub accept_scope-Adds :
      (devices : List String) (s : Scope) (seen seen' : Seen e) (p : Prefix)
      → e.parse_prefix s.subnet ≡ some p
      → accept_scope e devices s seen ≡ some seen'
      → Adds s p seen seen'
  unfolding accept_scope
  accept_scope-Adds devices s seen seen' p is h = record {
    ids = ground arith;
    prefixes = ground arith;
    new_id = ground arith;
    apart = ground arith;
  }

  pub accept_scope-times :
      (devices : List String) (s : Scope) (seen seen' : Seen e) (p : Prefix)
      → e.parse_prefix s.subnet ≡ some p
      → accept_scope e devices s seen ≡ some seen'
      → (valid_times e s p ≡ true) × (valid_reservations e s p devices s.reservations [] [] ≡ true)
  unfolding accept_scope
  accept_scope-times devices s seen seen' p is h = (ground arith, ground arith)

  pub times-lease :
      (s : Scope) (p : Prefix)
      → valid_times e s p ≡ true
      → (n : ℕ) × (s.lease_seconds ≡ pos n) × (60 ≤ n) × (n ≤ 604800)
  unfolding valid_times
  times-lease s p h = lease s.lease_seconds (ground arith)
    where
      lease : (z : ℤ) → within 60 604800 z ≡ true → (n : ℕ) × (z ≡ pos n) × (60 ≤ n) × (n ≤ 604800)
      lease (pos n) g = (n, refl, ground arith, ground arith)
      lease (negsuc n) g = cc

  pub pool-PoolEnds : (s : Scope) (p : Prefix) → valid_pool e s p ≡ true → PoolEnds s
  unfolding valid_pool
  pool-PoolEnds s p h = elim (Option-cases (e.parse_addr s.start)) [
    | inl bad ↦ absurd (ground arith)
    | inr (first, is_first) ↦ elim (Option-cases (e.parse_addr s.end)) [
      | inl bad ↦ absurd (ground arith)
      | inr (last, is_last) ↦
          let (k, le, passes) = pool_ends-passes 65536 first last (ground arith) in
          record {
            first = first;
            last = last;
            start_parses = is_first;
            end_parses = is_last;
            rounds = k;
            few = le;
            passes = passes;
          }
    ]
  ]

abbrev pub Pairwise {ℓ} : {A : Type ℓ} → (A → A → Type 0) → List A → Type 0
Pairwise R [] = Unit {0}
Pairwise R (x ∷ xs) = All (R x) xs × Pairwise R xs

-- A reservation that leads to a device of the inventory, and not to the server or the router.
abbrev pub IsKept : Config → Scope → Reservation → Type 0
IsKept c s r =
    ((d : DeviceConfig) × (find_device c r.device ≡ some d))
    × (r.address ≢ s.server)
    × (r.address ≢ s.router)

abbrev pub Differ : Reservation → Reservation → Type 0
Differ r t = (r.client ≢ t.client) × (r.address ≢ t.address)
