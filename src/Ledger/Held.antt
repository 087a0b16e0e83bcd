-- ===== src/Ledger/Held.antt =====
-- internal/addressbook/allocate.go: what holds of an address that the allocator settles on.
use ghostd.Prelude.{
  ℕ, zero, suc, String, ◌≡◌, refl, sym, ◌∙◌, ap, subst, Bool, true, false, ◌||◌, not, Option, none,
  some, [], ◌∷◌, some_inj, is_none,
}
use ghostd.Ledger.Binding.{Binding}
use ghostd.Ledger.Config.{Scope}
use ghostd.Ledger.Allocate.{
  allowed, look, settle_on, unless_after, available, first_available, is_held, is_own, preferred,
  reservation, current,
}
use ghostd.Ledger.Grant.{choose, chosen, from_pool, found_ip}
use ghostd.Ledger.Live.{live_by_client}
use ghostd.Ledger.Net.{Net}
use ghostd.Ledger.Readings.{
  Reading, must-eq-ok, pure-eq-ok, fail-eq-ok, >>=-Reading, pure-Reading, must-Reading,
  live_from_index-Reading,
}
use ghostd.Ledger.Saved.{>>=-eq-ok, read_binding-Reads}
use ghostd.Ledger.Store.{read_binding}
use ghostd.Ledger.Tx.{Ledger, Tx, ok, ◌>>=◌, pure, must, unavailable, endless}

module _ (e : Net) (now : ℕ) (s : Scope) (scope_id client mac : String) where
  pub preferred-Reading :
      (requested : String) (commit : Bool)
      → Reading (preferred e now s scope_id client mac requested commit)
  unfolding preferred live_by_client
  preferred-Reading requested true = pure-Reading requested
  preferred-Reading requested false =
      let pick = λ (c : String). elim (reservation s client mac) as (λ _. String) [
        | none ↦ c
        | some r ↦ r.address
      ] in
      >>=-Reading (live_by_client scope_id client)
        (λ mine. must (current e now s client mac mine requested) >>= λ c. pure (pick c))
        (live_from_index-Reading "idx-client-v1" (client ∷ scope_id ∷ []))
        (λ mine.
          >>=-Reading (must (current e now s client mac mine requested)) (λ c. pure (pick c))
            (must-Reading (current e now s client mac mine requested)) (λ c. pure-Reading (pick c)))

  -- What an address must be for the client: allowed, and not held by another one or declined.
  pub record Fit (l : Ledger) (ip : String) : Type 0 where
    pub permitted : allowed e s client mac ip ≡ some true
    pub found : Binding
    pub read : read_binding scope_id ip l ≡ ok (found, l)
    pub vacant : (not (is_held now found) || is_own client found) ≡ true

  look-eq-ok :
      (may : Bool) (ip : String) (l l' : Ledger) (usable : Bool)
      → allowed e s client mac ip ≡ some may
      → look now scope_id client ip may l ≡ ok (usable, l')
      → (l' ≡ l) × (usable ≡ true → Fit l ip)
  unfolding look
  look-eq-ok false ip l l' usable may h =
      let done = pure-eq-ok false usable l l' h in (done.1, λ u. absurd (cc (done.0 ∙ u)))
  look-eq-ok true ip l l' usable may h =
      let (b, l1, read, rest) =
        >>=-eq-ok (read_binding scope_id ip) (λ b. pure (not (is_held now b) || is_own client b)) l
          l' usable h in
      let same = (read_binding-Reads scope_id ip l l1 b read).1 in
      let done = pure-eq-ok (not (is_held now b) || is_own client b) usable l1 l' rest in
      (
        done.1 ∙ same,
        λ u. record {
          permitted = may;
          found = b;
          read = subst (λ x. read_binding scope_id ip l ≡ ok (b, x)) same read;
          vacant = done.0 ∙ u;
        },
      )

  pub available-eq-ok :
      (ip : String) (l l' : Ledger) (usable : Bool)
      → available e now s scope_id client mac ip l ≡ ok (usable, l')
      → (l' ≡ l) × (usable ≡ true → Fit l ip)
  unfolding available
  available-eq-ok ip l l' usable h =
      let (may, l1, first, rest) =
        >>=-eq-ok (must (allowed e s client mac ip)) (look now scope_id client ip) l l' usable h in
      let (permitted, same) = must-eq-ok (allowed e s client mac ip) may l l1 first in
      look-eq-ok may ip l l' usable permitted
        (subst (λ x. look now scope_id client ip may x ≡ ok (usable, l')) same rest)

  settle-eq-ok :
      (usable : Bool) (here : String) (rest : Tx (Option String)) (l l' : Ledger) (ip : String)
      → (usable ≡ true → Fit l here)
      → (rest l ≡ ok (some ip, l') → (l' ≡ l) × Fit l ip)
      → settle_on here rest usable l ≡ ok (some ip, l')
      → (l' ≡ l) × Fit l ip
  unfolding settle_on
  settle-eq-ok true here rest l l' ip fit later h =
      let done = pure-eq-ok (some here) (some ip) l l' h in
      (done.1, subst (Fit l) (some_inj done.0) (fit refl))
  settle-eq-ok false here rest l l' ip fit later h = later h

  -- One round of the loop over the pool.
  round-eq-ok :
      (after : Bool) (here : String) (rest : Tx (Option String)) (l l' : Ledger) (ip : String)
      → ((l1 : Ledger) → rest l1 ≡ ok (some ip, l') → (l' ≡ l1) × Fit l1 ip)
      → unless_after after (available e now s scope_id client mac here >>= settle_on here rest) l
        ≡ ok (some ip, l')
      → (l' ≡ l) × Fit l ip
  unfolding unless_after
  round-eq-ok true here rest l l' ip later h = absurd (cc (pure-eq-ok none (some ip) l l' h).0)
  round-eq-ok false here rest l l' ip later h =
      let (usable, l1, looked, then_rest) =
        >>=-eq-ok (available e now s scope_id client mac here) (settle_on here rest) l l' (some ip)
          h in
      let (same, fit) = available-eq-ok here l l1 usable looked in
      settle-eq-ok usable here rest l l' ip fit (later l)
        (subst (λ x. settle_on here rest usable x ≡ ok (some ip, l')) same then_rest)

  first_available-eq-ok :
      (fuel : ℕ) (a end : e.Addr) (l l' : Ledger) (ip : String)
      → first_available e fuel now s scope_id client mac a end l ≡ ok (some ip, l')
      → (l' ≡ l) × Fit l ip
  unfolding first_available
  first_available-eq-ok zero a end l l' ip h = absurd (fail-eq-ok endless (some ip) l l' h)
  first_available-eq-ok (suc fuel) a end l l' ip h =
      round-eq-ok (e.is_after a end) (e.print_addr a)
        (first_available e fuel now s scope_id client mac (e.next a) end) l l' ip
        (λ l1. first_available-eq-ok fuel (e.next a) end l1 l' ip) h

  found_ip-eq-ok :
      (found : Option String) (l l' : Ledger) (ip : String)
      → found_ip found l ≡ ok (ip, l')
      → (found ≡ some ip) × (l' ≡ l)
  unfolding found_ip
  found_ip-eq-ok none l l' ip h = absurd (fail-eq-ok unavailable ip l l' h)
  found_ip-eq-ok (some x) l l' ip h = let done = pure-eq-ok x ip l l' h in (ap some done.0, done.1)

  from_pool-eq-ok :
      (l l' : Ledger) (ip : String)
      → from_pool e now s scope_id client mac l ≡ ok (ip, l')
      → (l' ≡ l) × Fit l ip
  unfolding from_pool
  from_pool-eq-ok l l' ip h =
      let (start, l1, first, rest) =
        >>=-eq-ok (must (e.parse_addr s.start))
          (λ start. must (e.parse_addr s.end) >>= λ end.
            first_available e 65537 now s scope_id client mac start end >>= found_ip)
          l l' ip h in
      let (end, l2, second, rest2) =
        >>=-eq-ok (must (e.parse_addr s.end))
          (λ end. first_available e 65537 now s scope_id client mac start end >>= found_ip) l1 l' ip
          rest in
      let (found, l3, third, last) =
        >>=-eq-ok (first_available e 65537 now s scope_id client mac start end) found_ip l2 l' ip
          rest2 in
      let same1 = (must-eq-ok (e.parse_addr s.start) start l l1 first).1 in
      let same2 = (must-eq-ok (e.parse_addr s.end) end l1 l2 second).1 in
      let (is_found, same4) = found_ip-eq-ok found l3 l' ip last in
      let here : first_available e 65537 now s scope_id client mac start end l ≡ ok (some ip, l3) =
        subst
          (λ x. first_available e 65537 now s scope_id client mac start end x ≡ ok (some ip, l3))
          (same2 ∙ same1)
          (subst (λ f. first_available e 65537 now s scope_id client mac start end l2 ≡ ok (f, l3))
            is_found third) in
      let (same3, fit) = first_available-eq-ok 65537 start end l l3 ip here in (same4 ∙ same3, fit)

  chosen-eq-ok :
      (commit reserved usable : Bool) (candidate : String) (pool : Tx String) (l l' : Ledger)
      (ip : String)
      → (usable ≡ true → Fit l candidate)
      → (pool l ≡ ok (ip, l') → (l' ≡ l) × Fit l ip)
      → chosen (commit || reserved) candidate pool usable l ≡ ok (ip, l')
      → (l' ≡ l) × Fit l ip × (commit ≡ true → ip ≡ candidate)
  unfolding chosen
  chosen-eq-ok commit reserved true candidate pool l l' ip fit other h =
      let done = pure-eq-ok candidate ip l l' h in
      (done.1, subst (Fit l) done.0 (fit refl), λ _. sym done.0)
  chosen-eq-ok true reserved false candidate pool l l' ip fit other h =
      absurd (fail-eq-ok unavailable ip l l' h)
  chosen-eq-ok false true false candidate pool l l' ip fit other h =
      absurd (fail-eq-ok unavailable ip l l' h)
  chosen-eq-ok false false false candidate pool l l' ip fit other h =
      let done = other h in (done.0, done.1, λ c. absurd (cc c))

  -- The candidate that is chosen fits, and on a commit it is the one that was asked for.
  pub choose-eq-ok :
      (candidate : String) (commit : Bool) (l l' : Ledger) (ip : String)
      → choose e now s scope_id client mac candidate commit l ≡ ok (ip, l')
      → (l' ≡ l) × Fit l ip × (commit ≡ true → ip ≡ candidate)
  unfolding choose
  choose-eq-ok candidate commit l l' ip h =
      let reserved = not (is_none (reservation s client mac)) in
      let pool = from_pool e now s scope_id client mac in
      let (usable, l1, looked, rest) =
        >>=-eq-ok (available e now s scope_id client mac candidate)
          (chosen (commit || reserved) candidate pool) l l' ip h in
      let (same, fit) = available-eq-ok candidate l l1 usable looked in
      chosen-eq-ok commit reserved usable candidate pool l l' ip fit (from_pool-eq-ok l l' ip)
        (subst (λ x. chosen (commit || reserved) candidate pool usable x ≡ ok (ip, l')) same rest)
