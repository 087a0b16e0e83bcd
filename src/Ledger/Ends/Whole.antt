-- ===== src/Ledger/Ends/Whole.antt =====
-- internal/addressbook: Store.Allocate under a configuration that Config.Validate accepts.
use ghostd.Prelude.{
  ℕ, zero, suc, ◌<◌, String, ◌==◌, ◌≡◌, refl, subst, arith, Bool, true, false, ◌&&◌, ◌||◌, not,
  Option, none, some, List, [], ◌∷◌, ◌⊎◌, inl, inr, Bool-cases, Option-cases, some_inj, All,
  if◌then◌else◌, ltb, is_none,
}
use ghostd.Ledger.Accepted.{PoolEnds, nth_next}
use ghostd.Ledger.Accepted.Whole.{Sound, validate_config-Sound}
use ghostd.Ledger.Admit.{admit, admit-eq-some}
use ghostd.Ledger.Allocate.{
  in_pool, allowed, look, available, current, preferred, first_available, settle_on, unless_after,
  reservation, is_held, is_own,
}
use ghostd.Ledger.Binding.{Binding, Association, is_active, is_offered}
use ghostd.Ledger.Config.{Config, Scope, find_scope, find_scope_in}
use ghostd.Ledger.Ends.Choices.{
  no_address, enough, must_then-Calm, if-Calm, settle-Calm, found_ip-Calm, chosen-Calm,
}
use ghostd.Ledger.Ends.{
  Answers, Calm, >>=-Calm, pure-Calm, must-Calm, require-Calm, refused-Answers, read_binding-Calm,
  read_association-Calm, save_binding-Calm, live_by_client-Calm,
}
use ghostd.Ledger.Grant.{
  allocate, allocate_for, allocating, making, choose, chosen, from_pool, found_ip, grant_of,
  grant_kind,
}
use ghostd.Ledger.Live.{live_by_client}
use ghostd.Ledger.Net.{Net}
use ghostd.Ledger.Settings.{validate_config}
use ghostd.Ledger.Store.{read_binding, read_association, save_binding, is_delegated}
use ghostd.Ledger.Tx.{
  Ledger, Tx, Fault, Result, ok, err, ◌>>=◌, pure, must, require, update, end_of, unavailable,
  refused, broken,
}

module _ (e : Net) (s : Scope) (pool : PoolEnds e s) where
  in_pool-total : (a : e.Addr) → (may : Bool) × (in_pool e s a ≡ some may)
  unfolding in_pool
  in_pool-total a = elim (Bool-cases (e.is_after pool.first a)) [
    | inl early ↦ (false, rw (pool.start_parses, in_pool) (rw (early) refl))
    | inr from ↦ (
      not (e.is_after a pool.last),
      rw (pool.start_parses, in_pool) (rw (from) (rw (pool.end_parses) refl)),
    )
  ]

  allowed-total : (client mac ip : String) → (may : Bool) × (allowed e s client mac ip ≡ some may)
  unfolding allowed
  allowed-total client mac ip = elim (Option-cases (e.parse_addr ip)) [
    | inl bad ↦ (false, rw (bad, allowed) refl)
    | inr (a, good) ↦
        let (may, total) = in_pool-total a in
        elim (Option-cases (allowed e s client mac ip)) [
          | inl stuck ↦ absurd (ground arith)
          | inr found ↦ found
        ]
  ]

  module _ (now : ℕ) (scope_id client mac : String) where
    available-Calm : (ip : String) → Calm (available e now s scope_id client mac ip)
    unfolding available
    available-Calm ip =
        let (may, total) = allowed-total client mac ip in
        >>=-Calm (must (allowed e s client mac ip)) (look now scope_id client ip)
          (must-Calm (allowed e s client mac ip) may total) look-Calm
      where
        look-Calm : (m : Bool) → Calm (look now scope_id client ip m)
        look-Calm false = pure-Calm false
        look-Calm true =
            >>=-Calm (read_binding scope_id ip) (λ b. pure (not (is_held now b) || is_own client b))
              (read_binding-Calm scope_id ip)
              (λ b. pure-Calm (not (is_held now b) || is_own client b))

    current-total :
        (bs : List Binding) (candidate : String)
        → (ip : String) × (current e now s client mac bs candidate ≡ some ip)
    unfolding current
    current-total [] candidate = (candidate, refl)
    current-total (b ∷ bs) candidate =
        elim (Bool-cases
          (not (is_delegated b) && (ltb now b.end && (is_active b.state || is_offered b.state)))) [
            | inr other ↦ rw (other, current) (current-total bs candidate)
            | inl mine ↦
                let (may, total) = allowed-total client mac b.address in
                rw (mine, current)
                  (rw (total, current) (current-total bs (if may then b.address else candidate)))
          ]

    preferred-Calm :
        (requested : String) (commit : Bool)
        → Calm (preferred e now s scope_id client mac requested commit)
    unfolding preferred
    preferred-Calm requested true = pure-Calm requested
    preferred-Calm requested false =
        let pick = λ (x : String). elim (reservation s client mac) as (λ _. String) [
          | none ↦ x
          | some r ↦ r.address
        ] in
        >>=-Calm (live_by_client scope_id client)
          (λ mine. must (current e now s client mac mine requested) >>= λ x. pure (pick x))
          (live_by_client-Calm scope_id client)
          (λ mine.
            let (ip, total) = current-total mine requested in
            >>=-Calm (must (current e now s client mac mine requested)) (λ x. pure (pick x))
              (must-Calm (current e now s client mac mine requested) ip total)
              (λ x. pure-Calm (pick x)))

    -- The loop stops within its fuel when the pool is passed within one round less.
    first_available-Calm :
        (fuel k : ℕ) (a : e.Addr)
        → k < fuel
        → e.is_after (nth_next e k a) pool.last ≡ true
        → Calm (first_available e fuel now s scope_id client mac a pool.last)
    unfolding first_available unless_after
    first_available-Calm zero k a h passes = elim h [ ]
    first_available-Calm (suc fuel) zero a h passes = rw (passes, first_available) (pure-Calm none)
    first_available-Calm (suc fuel) (suc k) a h passes =
        let rest = first_available e fuel now s scope_id client mac (e.next a) pool.last in
        elim (Bool-cases (e.is_after a pool.last)) [
          | inl after ↦ rw (after, first_available) (pure-Calm none)
          | inr before ↦
              rw (before, first_available)
                (>>=-Calm (available e now s scope_id client mac (e.print_addr a))
                  (settle_on (e.print_addr a) rest) (available-Calm (e.print_addr a))
                  (settle-Calm (e.print_addr a) rest
                    (first_available-Calm fuel k (e.next a) (omega arith) passes)))
        ]

    from_pool-Calm : Calm (from_pool e now s scope_id client mac)
    unfolding from_pool
    from_pool-Calm =
        let scan = λ (start end : e.Addr).
          first_available e 65537 now s scope_id client mac start end >>= found_ip in
        must_then-Calm (e.parse_addr s.start) pool.first
          (λ start. must (e.parse_addr s.end) >>= scan start) pool.start_parses
          (must_then-Calm (e.parse_addr s.end) pool.last (scan pool.first) pool.end_parses (
            >>=-Calm (first_available e 65537 now s scope_id client mac pool.first pool.last)
              found_ip
              (first_available-Calm 65537 pool.rounds pool.first (enough pool.rounds pool.few)
                pool.passes)
              found_ip-Calm))

    choose-Calm :
        (candidate : String) (commit : Bool)
        → Calm (choose e now s scope_id client mac candidate commit)
    unfolding choose
    choose-Calm candidate commit =
        let settled = commit || not (is_none (reservation s client mac)) in
        let pool_scan = from_pool e now s scope_id client mac in
        >>=-Calm (available e now s scope_id client mac candidate)
          (chosen settled candidate pool_scan) (available-Calm candidate)
          (chosen-Calm settled candidate pool_scan from_pool-Calm)

    making-Calm :
        (clock : ℕ → ℕ) (c : Config) (claimed ip : String) (commit : Bool) (old : Binding)
        → Calm (making e clock now c s scope_id client mac claimed ip commit old)
    unfolding making
    making-Calm clock c claimed ip commit old =
        let make = λ (known : Option Association).
          grant_of e now c s scope_id client mac claimed ip commit old known in
        let kind = grant_kind now client old commit in
        >>=-Calm (read_association client)
          (λ known. save_binding clock (make known) kind >>= λ _. pure (make known))
          (read_association-Calm client)
          (λ known.
            >>=-Calm (save_binding clock (make known) kind) (λ _. pure (make known))
              (save_binding-Calm clock (make known) kind) (λ _. pure-Calm (make known)))

    allocating-Calm :
        (clock : ℕ → ℕ) (c : Config) (claimed requested : String) (commit : Bool)
        → Calm (allocating e clock now c s scope_id client mac claimed requested commit)
    unfolding allocating
    allocating-Calm clock c claimed requested commit =
        let make = making e clock now c s scope_id client mac claimed in
        let stands = λ (old : Binding).
          not commit && (old.client == client && (is_active old.state && ltb now old.end)) in
        let finish =
          λ (ip : String) (old : Binding). if stands old then pure old else make ip commit old in
        let look_up = λ (ip : String). read_binding scope_id ip >>= finish ip in
        let pick =
          λ (candidate : String). choose e now s scope_id client mac candidate commit >>= look_up in
        let wish = preferred e now s scope_id client mac requested commit in
        >>=-Calm (require (not (commit && requested == "")) unavailable) (λ _. wish >>= pick)
          (require-Calm (not (commit && requested == "")) unavailable no_address)
          (λ _. >>=-Calm wish pick (preferred-Calm requested commit) (λ candidate.
            >>=-Calm (choose e now s scope_id client mac candidate commit) look_up
              (choose-Calm candidate commit)
              (λ ip.
                >>=-Calm (read_binding scope_id ip) (finish ip) (read_binding-Calm scope_id ip)
                  (λ old.
                    if-Calm (stands old) (pure old) (make ip commit old) (pure-Calm old)
                      (making-Calm clock c claimed ip commit old)))))

found-All :
    (P : Scope → Type 0) (ss : List Scope) (id : String) (s : Scope)
    → All P ss
    → find_scope_in id ss ≡ some s
    → P s
unfolding find_scope_in
found-All P [] id s all h = absurd (cc h)
found-All P (x ∷ xs) id s all h = elim (Bool-cases (x.id == id)) [
  | inl here ↦ subst P (some_inj (rw here at h)) all.0
  | inr other ↦ found-All P xs id s all.1 (rw other at h)
]

-- A binding, or an answer of the code that leaves the ledger as it is.
abbrev pub Settles : {A : Type 0} → Ledger → Result A × Ledger → Type 0
Settles {A} l r = ((a : A) × (r.0 ≡ ok a)) ⊎ ((c : Fault) × (r ≡ (err c, l)) × Answers c)

update-Settles :
    {A : Type 0} (commits : Bool) (m : Tx A) (l : Ledger) → Calm m → Settles l (update commits m l)
unfolding update end_of
update-Settles {A} commits m l calm = from commits (m l) refl
  where
    from : (k : Bool) (r : Result (A × Ledger)) → m l ≡ r → Settles l (end_of k l r)
    from true (ok (a, l1)) is = inl (a, refl)
    from false (ok (a, l1)) is = inr (broken, refl, refused-Answers broken (inr (inr refl)))
    from k (err d) is = inr (d, refl, calm l d is)

-- Under a configuration that is accepted every allocation comes to an end, whatever the ledger, the
-- client and the request: it answers with a binding, or with an error that is no panic and no loop
-- without end, and then the ledger is as it was. So the 65537 rounds that the search of a pool has
-- are enough.
pub allocate-Settles :
    (e : Net) (commits : Bool) (clock : ℕ → ℕ) (now : ℕ) (c : Config)
    (scope_id client mac claimed requested : String) (commit : Bool) (l : Ledger)
    → validate_config e c ≡ true
    → Settles l (allocate e commits clock now c scope_id client mac claimed requested commit l)
unfolding allocate allocate_for find_scope
allocate-Settles e commits clock now c scope_id client mac claimed requested commit l accepted =
    from (admit e c scope_id client mac) refl
  where
    from :
        (o : Option (Scope × String))
        → admit e c scope_id client mac ≡ o
        → Settles l
            (allocate_for e commits clock now c scope_id client claimed requested commit o l)
    from none is = inr (refused, refl, refused-Answers refused (inr (inl refl)))
    from (some (s, hw)) is =
        let found = (admit-eq-some e c scope_id client mac s hw is).configured in
        let sound =
          found-All (Sound e c) c.scopes scope_id s (validate_config-Sound e c accepted).0 found in
        update-Settles commits
          (allocating e clock now c s scope_id client hw claimed requested commit) l
          (allocating-Calm e s sound.pool now scope_id client hw clock c claimed requested commit)
