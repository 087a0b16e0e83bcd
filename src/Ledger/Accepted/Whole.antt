-- ===== src/Ledger/Accepted/Whole.antt =====
-- internal/addressbook/config.go: Config.Validate as a whole.
use ghostd.Prelude.{
  ℕ, ◌≤◌, String, ◌≡◌, ◌≢◌, refl, sym, ◌∙◌, subst, arith, eq_iff, true, false, not, Option, none,
  some, List, [], ◌∷◌, inl, inr, some_inj, All, contains, pos, is_none,
}
use ghostd.Ledger.Accept.{device_ids, valid_tftp, overlaps_any}
use ghostd.Ledger.Accepted.{
  Pairwise, IsKept, Differ, PoolEnds, Adds, accept_scope-pool, accept_scope-prefix,
  accept_scope-Adds, accept_scope-times, times-lease, pool-PoolEnds,
}
use ghostd.Ledger.Accepted.Inventory.{reservations-Fresh, reservations-IsKept, device_ids-find}
use ghostd.Ledger.Config.{Config, Scope, DeviceConfig, find_device}
use ghostd.Ledger.Net.{Net}
use ghostd.Ledger.Partial.{◌>>=◌, ◌>>◌, check, >>=-eq-some, check-eq-some}
use ghostd.Ledger.Settings.{Seen, accept_scope, accept_scopes, validate_config, no_scopes}

module _ (e : Net) where
  open e use {Addr, Prefix}

  -- A scope that the allocator can work with.
  pub record Sound (c : Config) (s : Scope) : Type 0 where
    pub pool : PoolEnds e s
    pub lease : (n : ℕ) × (s.lease_seconds ≡ pos n) × (60 ≤ n) × (n ≤ 604800)
    pub kept : All (IsKept c s) s.reservations
    pub distinct : Pairwise Differ s.reservations

  -- Two scopes with different names and subnets that do not overlap.
  abbrev pub Apart : Scope → Scope → Type 0
  Apart s t =
      (s.id ≢ t.id)
      × ((p q : Prefix)
          → e.parse_prefix s.subnet ≡ some p
          → e.parse_prefix t.subnet ≡ some q
          → e.overlaps q p ≡ false)

  -- New to what was collected.
  abbrev Clear : Seen e → Scope → Type 0
  Clear seen t =
      (contains seen.ids t.id ≡ false)
      × ((q : Prefix) → e.parse_prefix t.subnet ≡ some q → overlaps_any e q seen.prefixes ≡ false)

  Clear-step :
      (s t : Scope) (p : Prefix) (seen seen' : Seen e)
      → e.parse_prefix s.subnet ≡ some p
      → Adds e s p seen seen'
      → Clear seen' t
      → Apart s t × Clear seen t
  unfolding contains overlaps_any
  Clear-step s t p seen seen' is adds (ids, prefixes) =
      let id_test : contains (s.id ∷ seen.ids) t.id ≡ false =
        subst (λ x. contains x t.id ≡ false) adds.ids ids in
      let apart = λ (q : Prefix) (found : e.parse_prefix t.subnet ≡ some q).
        subst (λ x. overlaps_any e q x ≡ false) adds.prefixes (prefixes q found) in
      (
        (
          (λ same. ground (arith, eq_iff s.id t.id)),
          (λ p' q is' found.
              let one = apart q found in
              subst (λ x. e.overlaps q x ≡ false) (some_inj (sym is ∙ is')) (ground arith)),
        ),
        (ground arith, λ q found. let one = apart q found in ground arith),
      )

  All-Clear :
      (s : Scope) (ts : List Scope) (p : Prefix) (seen seen' : Seen e)
      → e.parse_prefix s.subnet ≡ some p
      → Adds e s p seen seen'
      → All (Clear seen') ts
      → All (Apart s) ts × All (Clear seen) ts
  All-Clear s [] p seen seen' is adds all = (tt, tt)
  All-Clear s (t ∷ ts) p seen seen' is adds all =
      let here = Clear-step s t p seen seen' is adds all.0 in
      let rest = All-Clear s ts p seen seen' is adds all.1 in ((here.0, rest.0), (here.1, rest.1))

  own-Clear :
      (s : Scope) (p : Prefix) (seen seen' : Seen e)
      → e.parse_prefix s.subnet ≡ some p
      → Adds e s p seen seen'
      → Clear seen s
  own-Clear s p seen seen' is adds = (
    adds.new_id,
    λ q found.
        subst (λ x. overlaps_any e x seen.prefixes ≡ false) (some_inj (sym is ∙ found)) adds.apart,
  )

  module _ (c : Config) (devices : List String)
      (known : (x : String)
        → contains devices x ≡ true
        → (d : DeviceConfig) × (find_device c x ≡ some d)) where
    scope-Sound :
        (s : Scope) (seen seen' : Seen e) (p : Prefix)
        → e.parse_prefix s.subnet ≡ some p
        → accept_scope e devices s seen ≡ some seen'
        → Sound c s
    scope-Sound s seen seen' p is h =
        let (times, reservations) = accept_scope-times e devices s seen seen' p is h in
        record {
          pool = pool-PoolEnds e s p (accept_scope-pool e devices s seen seen' p is h);
          lease = times-lease e s p times;
          kept = reservations-IsKept e s p devices c s.reservations [] [] known reservations;
          distinct = (reservations-Fresh e s p devices s.reservations [] [] reservations).1;
        }

    scopes-Sound :
        (ss : List Scope) (seen last : Seen e)
        → accept_scopes e devices ss seen ≡ some last
        → All (Sound c) ss × Pairwise Apart ss × All (Clear seen) ss
    unfolding accept_scopes
    scopes-Sound [] seen last h = (tt, tt, tt)
    scopes-Sound (s ∷ ss) seen last h =
        let (seen', one, rest) =
          >>=-eq-some (accept_scope e devices s seen) (accept_scopes e devices ss) h in
        let (p, is) = accept_scope-prefix e devices s seen seen' one in
        let adds = accept_scope-Adds e devices s seen seen' p is one in
        let later = scopes-Sound ss seen' last rest in
        let clear = All-Clear s ss p seen seen' is adds later.2 in
        (
          (scope-Sound s seen seen' p is one, later.0),
          (clear.0, later.1),
          (own-Clear s p seen seen' is adds, clear.1),
        )

some_of : {A : Type 0} (o : Option A) → not (is_none o) ≡ true → (a : A) × (o ≡ some a)
some_of none h = cc
some_of (some a) h = (a, refl)

-- In a configuration that is accepted, each scope has a pool whose ends parse and whose end is passed
-- within 65536 steps from its start, a lease time from one minute to seven days, and reservations
-- that differ in client and in address, lead to a device that is configured, and avoid the server
-- and the router; and any two scopes differ in their names, and their subnets do not overlap.
pub validate_config-Sound :
    (e : Net) (c : Config)
    → validate_config e c ≡ true
    → All (Sound e c) c.scopes × Pairwise (Apart e) c.scopes
unfolding validate_config find_device no_scopes contains
validate_config-Sound e c h =
    let (last, all) =
      some_of
        (device_ids c.devices [] [] [] >>= λ devices.
          check (valid_tftp e c.tftp) >> accept_scopes e devices c.scopes (no_scopes e))
        h in
    let (devices, collected, rest) =
      >>=-eq-some (device_ids c.devices [] [] [])
        (λ devices. check (valid_tftp e c.tftp) >> accept_scopes e devices c.scopes (no_scopes e))
        all in
    let accepted =
      (check-eq-some (valid_tftp e c.tftp) (accept_scopes e devices c.scopes (no_scopes e))
        rest).1 in
    let sound =
      scopes-Sound e c devices
        (λ x m. elim (device_ids-find c.devices [] [] [] devices x collected m) [
          | inl none_yet ↦ absurd (cc none_yet)
          | inr found ↦ found
        ])
        c.scopes (no_scopes e) last accepted in
    (sound.0, sound.1)
