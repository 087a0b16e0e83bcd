-- ===== src/Ledger/Accepted/Inventory.antt =====
-- internal/addressbook/config.go: the devices and the reservations of a configuration that is
-- accepted.
use ghostd.Prelude.{
  String, ◌==◌, ◌≡◌, ◌≢◌, refl, sym, subst, arith, eq_iff, Bool, true, false, ◌||◌, some, List, [],
  ◌∷◌, ◌++◌, ◌⊎◌, inl, inr, Bool-cases, Option-cases, some_inj, All, contains,
}
use ghostd.Ledger.Accept.{device_ids, add_aliases, add_nodes}
use ghostd.Ledger.Accepted.{Pairwise, IsKept, Differ}
use ghostd.Ledger.Config.{Config, Scope, Reservation, DeviceConfig, find_device, find_device_in}
use ghostd.Ledger.Net.{Net}
use ghostd.Ledger.Settings.{valid_reservations}

ne_of_test : (s t : String) → (s == t) ≡ false → s ≢ t
ne_of_test s t h p = ground (arith, eq_iff s t)

contains-cons :
    (x y : String) (xs : List String)
    → contains (x ∷ xs) y ≡ false
    → (x ≢ y) × (contains xs y ≡ false)
unfolding contains
contains-cons x y xs h = (ne_of_test x y (ground arith), ground arith)

abbrev Fresh : List String → List String → Reservation → Type 0
Fresh clients addresses t =
    (contains clients t.client ≡ false) × (contains addresses t.address ≡ false)

-- What is new to more sets differs from what is in them.
shrink :
    (r : Reservation) (clients addresses : List String) (ts : List Reservation)
    → All (Fresh (r.client ∷ clients) (r.address ∷ addresses)) ts
    → All (Differ r) ts × All (Fresh clients addresses) ts
shrink r clients addresses [] all = (tt, tt)
shrink r clients addresses (t ∷ ts) all =
    let client = contains-cons r.client t.client clients all.0.0 in
    let address = contains-cons r.address t.address addresses all.0.1 in
    let rest = shrink r clients addresses ts all.1 in
    (((client.0, address.0), rest.0), ((client.1, address.1), rest.1))

module _ (e : Net) (s : Scope) (p : e.Prefix) (devices : List String) where
  reservations_step :
      (r : Reservation) (rs : List Reservation) (clients addresses : List String)
      → valid_reservations e s p devices (r ∷ rs) clients addresses ≡ true
      → Fresh clients addresses r
        × (contains devices r.device ≡ true)
        × ((r.address == s.server) ≡ false)
        × ((r.address == s.router) ≡ false)
        × (valid_reservations e s p devices rs (r.client ∷ clients) (r.address ∷ addresses) ≡ true)
  unfolding valid_reservations
  reservations_step r rs clients addresses h =
      ((ground arith, ground arith), ground arith, ground arith, ground arith, ground arith)

  pub reservations-Fresh :
      (rs : List Reservation) (clients addresses : List String)
      → valid_reservations e s p devices rs clients addresses ≡ true
      → All (Fresh clients addresses) rs × Pairwise Differ rs
  reservations-Fresh [] clients addresses h = (tt, tt)
  reservations-Fresh (r ∷ rs) clients addresses h =
      let step = reservations_step r rs clients addresses h in
      let rest = reservations-Fresh rs (r.client ∷ clients) (r.address ∷ addresses) step.4 in
      let less = shrink r clients addresses rs rest.0 in ((step.0, less.1), (less.0, rest.1))

  pub reservations-IsKept :
      (c : Config) (rs : List Reservation) (clients addresses : List String)
      → ((x : String) → contains devices x ≡ true → (d : DeviceConfig) × (find_device c x ≡ some d))
      → valid_reservations e s p devices rs clients addresses ≡ true
      → All (IsKept c s) rs
  reservations-IsKept c [] clients addresses known h = tt
  reservations-IsKept c (r ∷ rs) clients addresses known h =
      let step = reservations_step r rs clients addresses h in
      (
        (
          known r.device step.1,
          ne_of_test r.address s.server step.2,
          ne_of_test r.address s.router step.3,
        ),
        reservations-IsKept c rs (r.client ∷ clients) (r.address ∷ addresses) known step.4,
      )

devices_step :
    (d : DeviceConfig) (ds : List DeviceConfig) (ids names nodes out : List String)
    → device_ids (d ∷ ds) ids names nodes ≡ some out
    → (names' : List String) × (nodes' : List String) × (device_ids ds (d.id ∷ ids) names' nodes'
        ≡ some out)
unfolding device_ids
devices_step d ds ids names nodes out h =
    elim (Option-cases (add_aliases d.aliases (d.name ∷ names))) [
      | inl bad ↦ absurd (ground arith)
      | inr (names', good) ↦
          elim (Option-cases (add_nodes (d.node_ids ++ (d.node_id ∷ [])) nodes)) [
            | inl bad ↦ absurd (ground arith)
            | inr (nodes', fine) ↦ (names', nodes', ground arith)
          ]
    ]

either : (a b : Bool) → (a || b) ≡ true → (a ≡ true) ⊎ (b ≡ true)
either true b h = inl refl
either false b h = inr h

-- The devices that were collected are found again.
pub device_ids-find :
    (ds : List DeviceConfig) (ids names nodes out : List String) (x : String)
    → device_ids ds ids names nodes ≡ some out
    → contains out x ≡ true
    → (contains ids x ≡ true) ⊎ ((d : DeviceConfig) × (find_device_in x ds ≡ some d))
unfolding contains find_device_in device_ids
device_ids-find [] ids names nodes out x h m =
    inl (subst (λ o. contains o x ≡ true) (sym (some_inj h)) m)
device_ids-find (d ∷ ds) ids names nodes out x h m =
    let (names', nodes', rest) = devices_step d ds ids names nodes out h in
    elim (Bool-cases (d.id == x)) [
      | inl here ↦ inr (d, rw here refl)
      | inr other ↦ elim (device_ids-find ds (d.id ∷ ids) names' nodes' out x rest m) [
        | inl old ↦ inl (ground (arith, old))
        | inr found ↦ inr (found.0, rw other found.1)
      ]
    ]
