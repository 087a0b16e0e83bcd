-- ===== src/Ledger/Policy.antt =====
-- internal/addressbook/allocate.go: what a client gets from Store.Allocate.
pub mod Whole
pub mod Commit
pub mod Taken
use ghostd.Prelude.{
  ℕ, String, ◌==◌, ◌≡◌, refl, sym, ◌∙◌, ap, subst, arith, eq_iff, eq_refl, Bool, true, false, ◌&&◌,
  ◌||◌, not, Option, none, some, ◌⊎◌, inl, inr, Bool-cases, Option-cases, if◌then◌else◌, ltb,
}
use ghostd.Ledger.Allocate.{allowed, is_held, is_own, preferred, later, reservation}
use ghostd.Ledger.Binding.{
  Binding, Association, LeaseState, active, offered, is_live, is_active, is_declined, no_binding,
}
use ghostd.Ledger.Config.{Config, Scope, Reservation, find_scope, scope_is6}
use ghostd.Ledger.Grant.{
  allocate, allocating, making, choose, grant_of, new_offer, keeps, associated, inventoried, timed,
  grant_kind,
}
use ghostd.Ledger.Held.{Fit, preferred-Reading, choose-eq-ok}
use ghostd.Ledger.Indexed.Save.{IsIndexed}
use ghostd.Ledger.Net.{Net}
use ghostd.Ledger.Readings.{pure-eq-ok, read_association-Reading}
use ghostd.Ledger.Policy.Taken.{IsTaken, usable-free}
use ghostd.Ledger.Saved.{>>=-eq-ok, Reads, read_binding-Reads, save_binding-eq-ok, slot_after}
use ghostd.Ledger.Store.{
  read_binding, save_binding, read_association, rewritten, append_event, put_slot,
}
use ghostd.Ledger.Tx.{
  Ledger, Slot, absent, corrupt, holds, Tx, Result, ok, err, ◌>>=◌, ◌>>◌, pure, require, update,
  unavailable, gets,
}

-- Two bindings are of one client at one address of one scope.
abbrev Matches : Binding → Binding → Type 0
Matches a b = (a.scope ≡ b.scope) × (a.address ≡ b.address) × (a.client ≡ b.client)

keeps-Matches :
    (now : ℕ) (client : String) (old b : Binding)
    → Matches (keeps now client old b) b × ((keeps now client old b).state ≡ b.state)
unfolding keeps
keeps-Matches now client old b =
    elim (Bool-cases (old.client == client && (ltb now old.end && not (is_declined old.state)))) [
      | inl same ↦ rw same ((refl, refl, refl), refl)
      | inr other ↦ rw other ((refl, refl, refl), refl)
    ]

associated-Matches :
    (known : Option Association) (b : Binding)
    → Matches (associated known b) b × ((associated known b).state ≡ b.state)
unfolding associated
associated-Matches none b = ((refl, refl, refl), refl)
associated-Matches (some a) b = ((refl, refl, refl), refl)

inventoried-Matches :
    (c : Config) (r : Option Reservation) (b : Binding)
    → Matches (inventoried c r b) b × ((inventoried c r b).state ≡ b.state)
unfolding inventoried
inventoried-Matches c none b = ((refl, refl, refl), refl)
inventoried-Matches c (some r) b = ((refl, refl, refl), refl)

-- The state and the end of a lease: a commit makes it active for the time of the scope.
abbrev pub IsTimed : ℕ → Scope → Bool → Binding → Type 0
IsTimed now s commit b =
    (is_live b.state ≡ true)
    × (commit ≡ true → (b.state ≡ active) × (b.end ≡ later now s.lease_seconds))

timed-Matches :
    (now : ℕ) (s : Scope) (is6 commit : Bool) (b : Binding)
    → is_live b.state ≡ true
    → Matches (timed now s is6 commit b) b × IsTimed now s commit (timed now s is6 commit b)
unfolding timed
timed-Matches now s is6 false b live = ((refl, refl, refl), (live, λ f. absurd (cc f)))
timed-Matches now s is6 true b live = ((refl, refl, refl), (refl, λ _. (refl, refl)))

module _ (e : Net) (now : ℕ) (c : Config) (s : Scope) (scope_id client mac claimed : String) where
  pub grant_of_lem :
      (ip : String) (commit : Bool) (old : Binding) (known : Option Association)
      → ((grant_of e now c s scope_id client mac claimed ip commit old known).scope ≡ scope_id)
        × ((grant_of e now c s scope_id client mac claimed ip commit old known).address ≡ ip)
        × ((grant_of e now c s scope_id client mac claimed ip commit old known).client ≡ client)
        × IsTimed now s commit (grant_of e now c s scope_id client mac claimed ip commit old known)
  unfolding grant_of new_offer
  grant_of_lem ip commit old known =
      let first = new_offer e now s scope_id client mac claimed ip in
      let kept = keeps now client old first in
      let repaired = associated known kept in
      let listed = inventoried c (reservation s client mac) repaired in
      let k = keeps-Matches now client old first in
      let a = associated-Matches known kept in
      let i = inventoried-Matches c (reservation s client mac) repaired in
      let same_state = i.1 ∙ a.1 ∙ k.1 in
      let t = timed-Matches now s (scope_is6 e s) commit listed (ap is_live same_state) in
      (
        t.0.0 ∙ i.0.0 ∙ a.0.0 ∙ k.0.0,
        t.0.1 ∙ i.0.1 ∙ a.0.1 ∙ k.0.1,
        t.0.2 ∙ i.0.2 ∙ a.0.2 ∙ k.0.2,
        t.1,
      )

-- A save of a binding stores it in its slot, and leaves every other slot.
abbrev pub Stores : Ledger → Ledger → Binding → Type 0
Stores l l' b =
    (l'.bindings b.scope b.address ≡ holds b)
    × ((s a : String) → ((s ≡ b.scope) × (a ≡ b.address) → ⊥) → l'.bindings s a ≡ l.bindings s a)

pub save_binding-Stores :
    (clock : ℕ → ℕ) (b : Binding) (kind : String) (l l' : Ledger)
    → save_binding clock b kind l ≡ ok (tt, l')
    → Stores l l' b
unfolding append_event rewritten
save_binding-Stores clock b kind l l' h =
    let (old, read, after) = save_binding-eq-ok clock b kind l l' h in
    subst (λ x. Stores l x b) (sym after)
      (
        ground (arith, eq_refl b.scope, eq_refl b.address),
        λ s a other. elim (slot_after b.scope b.address s a (holds b) l.bindings) [
          | inl (s_eq, a_eq, _) ↦ absurd (other (s_eq, a_eq))
          | inr (_, same) ↦ same
        ],
      )

-- What a client gets: an address that its scope allows it, which the ledger did not hold for another
-- client or as declined, and which it now stores for this one.
pub record Granted (e : Net) (now : ℕ) (s : Scope) (scope_id client mac requested : String)
    (commit : Bool) (l l' : Ledger) (b : Binding) : Type 0 where
  pub for_client : (b.scope ≡ scope_id) × (b.client ≡ client)
  pub permitted : allowed e s client mac b.address ≡ some true
  pub found : Binding
  pub read : read_binding scope_id b.address l ≡ ok (found, l)
  pub vacant : ¬ IsTaken now client found
  pub live : is_live b.state ≡ true
  pub committed :
      commit ≡ true
      → (b.address ≡ requested) × (b.state ≡ active) × (b.end ≡ later now s.lease_seconds)
  pub stored : Stores l l' b

module _ (e : Net) (clock : ℕ → ℕ) (now : ℕ) (c : Config) (s : Scope)
    (scope_id client mac claimed requested : String) where
  -- The last steps: anything but an offer that stands is made and saved.
  pub make-eq-ok :
      (commit : Bool) (old : Binding) (ip : String) (l l' : Ledger) (b : Binding)
      → Fit e now s scope_id client mac l ip
      → (commit ≡ true → ip ≡ requested)
      → read_binding scope_id ip l ≡ ok (old, l)
      → making e clock now c s scope_id client mac claimed ip commit old l ≡ ok (b, l')
      → Granted e now s scope_id client mac requested commit l l' b
  unfolding making
  make-eq-ok commit old ip l l' b fit asked old_read h =
      let make = λ (known : Option Association).
        grant_of e now c s scope_id client mac claimed ip commit old known in
      let kind = grant_kind now client old commit in
      let (known, l1, known_read, rest) =
        >>=-eq-ok (read_association client)
          (λ known. save_binding clock (make known) kind >>= λ _. pure (make known)) l l' b h in
      let (done, l2, saved, last) =
        >>=-eq-ok (save_binding clock (make known) kind) (λ _. pure (make known)) l1 l' b rest in
      let (made, same2) = pure-eq-ok (make known) b l2 l' last in
      let same1 = read_association-Reading client known l l1 known_read in
      let facts = grant_of_lem e now c s scope_id client mac claimed ip commit old known in
      let stores : Stores l l' (make known) = save_binding-Stores clock (make known) kind l l' (
        subst (λ x. save_binding clock (make known) kind x ≡ ok (tt, l')) same1
          (saved ∙ ap (λ x. ok (tt, x)) (sym same2))) in
      subst (Granted e now s scope_id client mac requested commit l l') made (record {
        for_client = (facts.0, facts.2);
        permitted = subst (λ x. allowed e s client mac x ≡ some true) (sym facts.1) fit.permitted;
        found = fit.found;
        read = subst (λ x. read_binding scope_id x l ≡ ok (fit.found, l)) (sym facts.1) fit.read;
        vacant = usable-free now client fit.found fit.vacant;
        live = facts.3.0;
        committed = λ t. (facts.1 ∙ asked t, (facts.3.1 t).0, (facts.3.1 t).1);
        stored = stores;
      })
