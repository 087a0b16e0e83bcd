-- ===== src/Ledger/Policy/Whole.antt =====
-- internal/addressbook/allocate.go: Store.Allocate as a whole.
use ghostd.Prelude.{
  ℕ, String, ◌==◌, ◌≡◌, refl, sym, ◌∙◌, subst, arith, eq_iff, Bool, true, false, ◌&&◌, not, Option,
  none, some, inl, inr, Bool-cases, if◌then◌else◌, ltb,
}
use ghostd.Ledger.Admit.{Admitted, admit, admit-eq-some}
use ghostd.Ledger.Allocate.{preferred, allowed}
use ghostd.Ledger.Binding.{
  Binding, LeaseState, unset, active, offered, declined, released, expired, is_live, is_active,
}
use ghostd.Ledger.Config.{Config, Scope}
use ghostd.Ledger.Grant.{allocate, allocating, making, choose, allocate_for}
use ghostd.Ledger.Held.{Fit, preferred-Reading, choose-eq-ok}
use ghostd.Ledger.Indexed.Save.{IsIndexed}
use ghostd.Ledger.Net.{Net}
use ghostd.Ledger.Policy.{Granted, make-eq-ok}
use ghostd.Ledger.Policy.Taken.{usable-free}
use ghostd.Ledger.Readings.{pure-eq-ok}
use ghostd.Ledger.Saved.{>>=-eq-ok, Reads, read_binding-Reads}
use ghostd.Ledger.Store.{read_binding}
use ghostd.Ledger.Tx.{
  Ledger, holds, Tx, Result, ok, err, ◌>>=◌, pure, require, update, end_of, unavailable, Fault,
}

pub require-eq-ok :
    (b : Bool) (c : Fault) (l l' : Ledger) (u : Unit {0})
    → require b c l ≡ ok (u, l')
    → (b ≡ true) × (l' ≡ l)
unfolding require
require-eq-ok true c l l' u h = (refl, cc)
require-eq-ok false c l l' u h = cc

-- A transaction that answers has run, and was written.
pub update-eq-ok :
    {A : Type 0} (commits : Bool) (m : Tx A) (a : A) (l l' : Ledger)
    → update commits m l ≡ (ok a, l')
    → m l ≡ ok (a, l')
unfolding update
update-eq-ok {A} commits m a l l' h = from commits (m l) h
  where
    from : (c : Bool) (r : Result (A × Ledger)) → end_of c l r ≡ (ok a, l') → r ≡ ok (a, l')
    from true (ok (x, l1)) g = cc
    from false (ok (x, l1)) g = cc
    from commits (err x) g = cc

active-live : (s : LeaseState) → is_active s ≡ true → is_live s ≡ true
active-live active h = refl
active-live unset h = cc
active-live offered h = refl
active-live declined h = refl
active-live released h = cc
active-live expired h = cc

-- An active binding that is read is one that is stored.
standing :
    (b : Binding) (s a : String) (l : Ledger)
    → Reads l s a b
    → is_active b.state ≡ true
    → l.bindings s a ≡ holds b
standing b s a l (inr here) h = here
standing b s a l (inl (gone, zero_b)) h =
    absurd (cc (subst (λ x. is_active x.state ≡ true) zero_b h))

module _ (e : Net) (clock : ℕ → ℕ) (now : ℕ) (c : Config) (s : Scope)
    (scope_id client mac claimed requested : String) where
  -- An offer or a lease that stands is returned as it is stored.
  again-eq-ok :
      (old : Binding) (ip : String) (l l' : Ledger) (b : Binding)
      → IsIndexed l
      → Fit e now s scope_id client mac l ip
      → read_binding scope_id ip l ≡ ok (old, l)
      → (old.client == client && (is_active old.state && ltb now old.end)) ≡ true
      → pure old l ≡ ok (b, l')
      → Granted e now s scope_id client mac requested false l l' b
  again-eq-ok old ip l l' b inv fit old_read stands h =
      let own : old.client ≡ client = ground (arith, eq_iff old.client client) in
      let here : l.bindings scope_id ip ≡ holds old =
        standing old scope_id ip l (read_binding-Reads scope_id ip l l old old_read).0
          (ground arith) in
      let at = inv.placed scope_id ip old here in
      let (same, after) = pure-eq-ok old b l l' h in
      subst (λ x. Granted e now s scope_id client mac requested false l x b) (sym after)
        (subst (Granted e now s scope_id client mac requested false l l) same (record {
          for_client = (at.0, own);
          permitted = subst (λ x. allowed e s client mac x ≡ some true) (sym at.1) fit.permitted;
          found = fit.found;
          read = subst (λ x. read_binding scope_id x l ≡ ok (fit.found, l)) (sym at.1) fit.read;
          vacant = usable-free now client fit.found fit.vacant;
          live = active-live old.state (ground arith);
          committed = λ f. absurd (cc f);
          stored = ((λ i. l.bindings (at.0 i) (at.1 i)) ∙ here, λ s a other. refl);
        }))

  -- The last steps of an allocation that has settled on an address.
  settled-eq-ok :
      (commit : Bool) (old : Binding) (ip : String) (l l' : Ledger) (b : Binding)
      → IsIndexed l
      → Fit e now s scope_id client mac l ip
      → (commit ≡ true → ip ≡ requested)
      → read_binding scope_id ip l ≡ ok (old, l)
      → (if not commit && (old.client == client && (is_active old.state && ltb now old.end))
            then pure old
            else making e clock now c s scope_id client mac claimed ip commit old)
          l
        ≡ ok (b, l')
      → Granted e now s scope_id client mac requested commit l l' b
  settled-eq-ok true old ip l l' b inv fit asked old_read h =
      make-eq-ok e clock now c s scope_id client mac claimed requested true old ip l l' b fit asked
        old_read h
  settled-eq-ok false old ip l l' b inv fit asked old_read h =
      elim (Bool-cases (old.client == client && (is_active old.state && ltb now old.end))) [
        | inl stands ↦ again-eq-ok old ip l l' b inv fit old_read stands (rw stands at h)
        | inr new ↦
            make-eq-ok e clock now c s scope_id client mac claimed requested false old ip l l' b fit
              asked old_read (rw new at h)
      ]

  allocating-eq-ok :
      (commit : Bool) (l l' : Ledger) (b : Binding)
      → IsIndexed l
      → allocating e clock now c s scope_id client mac claimed requested commit l ≡ ok (b, l')
      → Granted e now s scope_id client mac requested commit l l' b
  unfolding allocating preferred
  allocating-eq-ok commit l l' b inv h =
      let finish = λ (ip : String) (old : Binding).
        if not commit && (old.client == client && (is_active old.state && ltb now old.end))
        then pure old
        else making e clock now c s scope_id client mac claimed ip commit old in
      let look_up = λ (ip : String). read_binding scope_id ip >>= finish ip in
      let pick =
        λ (candidate : String). choose e now s scope_id client mac candidate commit >>= look_up in
      let wish = preferred e now s scope_id client mac requested commit in
      let (u, l1, first, rest1) =
        >>=-eq-ok (require (not (commit && requested == "")) unavailable) (λ _. wish >>= pick) l l'
          b h in
      let (candidate, l2, second, rest2) = >>=-eq-ok wish pick l1 l' b rest1 in
      let (ip, l3, third, rest3) =
        >>=-eq-ok (choose e now s scope_id client mac candidate commit) look_up l2 l' b rest2 in
      let (old, l4, fourth, rest4) =
        >>=-eq-ok (read_binding scope_id ip) (finish ip) l3 l' b rest3 in
      let same1 = (require-eq-ok (not (commit && requested == "")) unavailable l l1 u first).1 in
      let same2 =
        preferred-Reading e now s scope_id client mac requested commit candidate l1 l2 second in
      let to2 = same2 ∙ same1 in
      let (same3, fit, kept) = choose-eq-ok e now s scope_id client mac candidate commit l l3 ip (
        subst (λ x. choose e now s scope_id client mac candidate commit x ≡ ok (ip, l3)) to2
          third) in
      let same4 = (read_binding-Reads scope_id ip l3 l4 old fourth).1 in
      settled-eq-ok commit old ip l l' b inv fit
        (λ t. kept t ∙ asked commit t candidate l1 l2 second)
        (subst (λ x. read_binding scope_id ip x ≡ ok (old, x)) same3
          (subst (λ x. read_binding scope_id ip l3 ≡ ok (old, x)) same4 fourth))
        (subst (λ x. finish ip old x ≡ ok (b, l')) (same4 ∙ same3) rest4)
    where
      asked :
          (k : Bool)
          → k ≡ true
          → (candidate : String) (l1 l2 : Ledger)
          → preferred e now s scope_id client mac requested k l1 ≡ ok (candidate, l2)
          → candidate ≡ requested
      asked true t candidate l1 l2 g = sym (pure-eq-ok requested candidate l1 l2 g).0
      asked false t candidate l1 l2 g = absurd (cc t)

-- If the bindings and the indices agree and an allocation answers with a binding, then its scope is
-- configured and enabled, the client identifier and the hardware address are well formed and of the
-- scope's family, and the binding is of that scope and client. Its address is one that the
-- scope allows the client; before, the ledger held it for nobody, or for this client and not as
-- declined. The binding is offered, active or declined; a commit makes it active at the address
-- that was asked for, until the lease time from now. It is stored in its slot, and every other slot
-- is as it was.
pub allocate-Granted :
    (e : Net) (commits : Bool) (clock : ℕ → ℕ) (now : ℕ) (c : Config)
    (scope_id client mac claimed requested : String) (commit : Bool) (l l' : Ledger) (b : Binding)
    → IsIndexed l
    → allocate e commits clock now c scope_id client mac claimed requested commit l ≡ (ok b, l')
    → (s : Scope) × (hw : String) × Admitted e c scope_id client mac s hw
      × Granted e now s scope_id client hw requested commit l l' b
unfolding allocate allocate_for
allocate-Granted e commits clock now c scope_id client mac claimed requested commit l l' b inv h =
    from (admit e c scope_id client mac) refl h
  where
    from :
        (o : Option (Scope × String))
        → admit e c scope_id client mac ≡ o
        → allocate_for e commits clock now c scope_id client claimed requested commit o l
          ≡ (ok b, l')
        → (s : Scope) × (hw : String) × Admitted e c scope_id client mac s hw
          × Granted e now s scope_id client hw requested commit l l' b
    from none is g = cc
    from (some (s, hw)) is g = (
      s,
      hw,
      admit-eq-some e c scope_id client mac s hw is,
      allocating-eq-ok e clock now c s scope_id client hw claimed requested commit l l' b inv (
          update-eq-ok commits
            (allocating e clock now c s scope_id client hw claimed requested commit) b l l' g),
    )
