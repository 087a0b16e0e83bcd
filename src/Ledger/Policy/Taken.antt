-- ===== src/Ledger/Policy/Taken.antt =====
-- internal/addressbook/allocate.go: when an address is not there for a client.
use ghostd.Prelude.{
  ℕ, ◌<◌, arith, eq_iff, String, ◌≡◌, ◌≢◌, refl, true, false, ◌||◌, not, ◌⊎◌, inl, inr, Bool-cases,
}
use ghostd.Ledger.Allocate.{is_held, is_own}
use ghostd.Ledger.Binding.{
  Binding, LeaseState, unset, active, offered, declined, released, expired, is_live, is_declined,
}

-- The state keeps an address from others.
abbrev InUse : LeaseState → Type 0
InUse state = (state ≡ active) ⊎ ((state ≡ offered) ⊎ (state ≡ declined))

-- Until a later time than now the address is held, for another client or as declined.
abbrev pub IsTaken : ℕ → String → Binding → Type 0
IsTaken now client old =
    (now < old.end) × InUse old.state × ((old.client ≢ client) ⊎ (old.state ≡ declined))

live-InUse : (state : LeaseState) → is_live state ≡ true → InUse state
live-InUse active h = inl refl
live-InUse offered h = inr (inl refl)
live-InUse declined h = inr (inr refl)
live-InUse unset h = cc
live-InUse released h = cc
live-InUse expired h = cc

InUse-live : (state : LeaseState) → InUse state → is_live state ≡ true
InUse-live state (inl e) = rw e refl
InUse-live state (inr (inl e)) = rw e refl
InUse-live state (inr (inr e)) = rw e refl

declined-eq : (state : LeaseState) → is_declined state ≡ true → state ≡ declined
declined-eq declined h = refl
declined-eq active h = cc
declined-eq offered h = cc
declined-eq unset h = cc
declined-eq released h = cc
declined-eq expired h = cc

eq-declined : (state : LeaseState) → state ≡ declined → is_declined state ≡ true
eq-declined state e = rw e refl

module _ (now : ℕ) (client : String) (old : Binding) where
  pub busy-IsTaken : (not (is_held now old) || is_own client old) ≡ false → IsTaken now client old
  busy-IsTaken busy =
      let live : is_live old.state ≡ true = ground (arith, busy) in
      (
        ground (arith, busy),
        live-InUse old.state live,
        elim (Bool-cases (is_declined old.state)) [
          | inl gone ↦ inr (declined-eq old.state gone)
          | inr kept ↦ inl (λ e. ground (arith, busy, kept, eq_iff old.client client, e))
        ],
      )

  pub usable-free : (not (is_held now old) || is_own client old) ≡ true → ¬ IsTaken now client old
  usable-free usable (late, in_use, other) =
      let live = InUse-live old.state in_use in
      elim other [
        | inl apart ↦ apart ((eq_iff old.client client).0 (ground (arith, usable, late, live)))
        | inr gone ↦ ground (arith, usable, late, live, eq-declined old.state gone)
      ]
