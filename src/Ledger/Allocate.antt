-- ===== src/Ledger/Allocate.antt =====
-- internal/addressbook/allocate.go: which addresses a client may have, and Store.Allocate.
use ghostd.Prelude.{
  ℕ, zero, suc, ◌+◌, ◌-◌, String, ◌==◌, Bool, true, false, ◌&&◌, ◌||◌, not, Option, none, some,
  List, [], ◌∷◌, if◌then◌else◌, ltb, joined, ℤ, pos, negsuc,
}
use ghostd.Ledger.Binding.{Binding, is_active, is_offered, is_declined, is_live}
use ghostd.Ledger.Config.{Scope, Reservation, scope_is6}
use ghostd.Ledger.Live.{live_by_client}
use ghostd.Ledger.Net.{Net}
use ghostd.Ledger.Store.{read_binding, is_delegated}
use ghostd.Ledger.Tx.{Tx, endless, ◌>>=◌, pure, fail, must}

find_reservation : List Reservation → String → String → Option Reservation
find_reservation [] client mac = none
find_reservation (r ∷ rs) client mac =
    let rest = find_reservation rs client mac in
    if r.client == client || r.client == joined "mac:" mac then some r else rest

-- reservation
unfoldable pub reservation : Scope → String → String → Option Reservation
unfolding find_reservation
reservation s client mac = find_reservation s.reservations client mac

unfoldable pub reserves : List Reservation → String → Bool
reserves [] ip = false
reserves (r ∷ rs) ip = r.address == ip || reserves rs ip

-- An end that lies before 1970 counts as 1970.
abbrev pub later : ℕ → ℤ → ℕ
later now (pos n) = now + n
later now (negsuc n) = now - suc n

-- The binding is held at a time: End > now and an active, offered or declined state.
abbrev pub is_held : ℕ → Binding → Bool
is_held now b = ltb now b.end && is_live b.state

-- The holder is the client, and has not declined.
abbrev pub is_own : String → Binding → Bool
is_own client b = b.client == client && not (is_declined b.state)

-- An address that the client may have is usable if nobody else holds it.
unfoldable pub look : ℕ → String → String → String → Bool → Tx Bool
look now scope_id client ip false = pure false
look now scope_id client ip true =
    read_binding scope_id ip >>= λ b. pure (not (is_held now b) || is_own client b)

unfoldable pub settle_on : String → Tx (Option String) → Bool → Tx (Option String)
settle_on ip rest true = pure (some ip)
settle_on ip rest false = rest

unfoldable pub unless_after : Bool → Tx (Option String) → Tx (Option String)
unless_after true round = pure none
unless_after false round = round

module _ (e : Net) where
  open e use {Addr}

  -- a is at least the start, and then at most the end; either panics if it does not parse.
  unfoldable pub in_pool : Scope → Addr → Option Bool
  in_pool s a = elim (e.parse_addr s.start) [
    | none ↦ none
    | some start ↦
        if e.is_after start a
        then some false
        else elim (e.parse_addr s.end) [ none ↦ none | some end ↦ some (not (e.is_after a end)) ]
  ]

  same_family : Scope → Addr → Bool
  same_family s a = if scope_is6 e s then e.is6 a else not (e.is6 a)

  -- allowed
  unfoldable pub allowed : Scope → String → String → String → Option Bool
  unfolding reservation reserves in_pool same_family
  allowed s client mac ip = elim (e.parse_addr ip) [
    | none ↦ some false
    | some a ↦
        if not (same_family s a) || (ip == s.server || ip == s.router)
        then some false
        else elim (reservation s client mac) [
          | some r ↦ some (r.address == ip)
          | none ↦ if reserves s.reservations ip then some false else in_pool s a
        ]
  ]

  -- The closure `available`.
  unfoldable pub available : ℕ → Scope → String → String → String → String → Tx Bool
  unfolding allowed look
  available now s scope_id client mac ip =
      must (allowed s client mac ip) >>= look now scope_id client ip

  -- The current address of a client that asks again: the last one of its live bindings that is
  -- still allowed.
  unfoldable pub current : ℕ → Scope → String → String → List Binding → String → Option String
  unfolding allowed
  current now s client mac [] candidate = some candidate
  current now s client mac (b ∷ bs) candidate =
      elim (not (is_delegated b) && (ltb now b.end && (is_active b.state || is_offered b.state))) [
        | false ↦ current now s client mac bs candidate
        | true ↦ elim (allowed s client mac b.address) [
          | none ↦ none
          | some may ↦ current now s client mac bs (if may then b.address else candidate)
        ]
      ]

  -- The candidate of an offer: its reservation, or its current address, or the one it asks for.
  unfoldable pub preferred : ℕ → Scope → String → String → String → String → Bool → Tx String
  unfolding current reservation
  preferred now s scope_id client mac requested true = pure requested
  preferred now s scope_id client mac requested false = do
    mine ← live_by_client scope_id client
    candidate ← must (current now s client mac mine requested)
    pure (elim (reservation s client mac) [ none ↦ candidate | some r ↦ r.address ])

  -- The loop over the pool, with fuel for its rounds: the first address that is available.
  unfoldable pub first_available :
      ℕ → ℕ → Scope → String → String → String → Addr → Addr → Tx (Option String)
  unfolding available settle_on unless_after
  first_available zero now s scope_id client mac a end = fail endless
  first_available (suc fuel) now s scope_id client mac a end = unless_after (e.is_after a end) (
      available now s scope_id client mac (e.print_addr a)
      >>= settle_on (e.print_addr a)
          (first_available fuel now s scope_id client mac (e.next a) end))
