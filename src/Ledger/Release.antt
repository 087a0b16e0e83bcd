-- ===== src/Ledger/Release.antt =====
-- internal/addressbook/allocate.go: Store.Release and Store.Expire.
use ghostd.Prelude.{
  ℕ, zero, suc, ◌+◌, String, ◌==◌, Bool, true, false, ◌&&◌, ◌||◌, List, [], ◌∷◌, if◌then◌else◌, ltb,
  leb, nat_eq,
}
use ghostd.Ledger.Binding.{Binding, released, declined, expired, is_active, is_offered, is_live}
use ghostd.Ledger.Keys.{Key, delete_key}
use ghostd.Ledger.Store.{read_binding, save_binding}
use ghostd.Ledger.Tx.{
  Ledger, Slot, absent, corrupt, holds, Tx, Result, refused, ◌>>=◌, ◌>>◌, pure, gets, modify,
  require, update,
}

-- The binding after its client has let go of it: a declined address stays out of use for ten minutes.
unfoldable pub let_go : ℕ → Bool → Binding → Binding
let_go now decline b =
    if decline
    then record b { state = declined; end = now + 600 }
    else record b { state = released; end = now }

-- The transaction of Store.Release.
unfoldable pub releasing : (ℕ → ℕ) → ℕ → String → String → String → Bool → Tx (Unit {0})
unfolding let_go
releasing clock now scope client ip decline = do
  b ← read_binding scope ip
  require (b.client == client && (ltb now b.end && (is_active b.state || is_offered b.state)))
      refused
  save_binding clock (let_go now decline b) (if decline then "decline" else "release")

-- Store.Release
unfoldable pub release :
    Bool → (ℕ → ℕ) → ℕ → String → String → String → Bool → Ledger → Result (Unit {0}) × Ledger
unfolding releasing
release commits clock now scope client ip decline =
    update commits (releasing clock now scope client ip decline)

-- The first due keys of the expiry index, and so many at most.
unfoldable pub due_keys : ℕ → ℕ → List Key → List Key
due_keys zero now ks = []
due_keys (suc room) now [] = []
due_keys (suc room) now (k ∷ ks) = elim (k.bucket == "expiry-v1") [
  | false ↦ due_keys (suc room) now ks
  | true ↦ elim (leb k.number now) [ true ↦ k ∷ due_keys room now ks | false ↦ [] ]
]

-- A key of the expiry index says so of its binding.
abbrev pub ends_now : Key → Binding → Bool
ends_now k b = is_live b.state && nat_eq b.end k.number

-- One due key: a binding that it says nothing of any more is left alone, and the key dropped.
unfoldable pub expire_slot : (ℕ → ℕ) → Key → Slot → Tx (Unit {0})
expire_slot clock k absent = modify (λ l. record l { index = delete_key k l.index })
expire_slot clock k corrupt = modify (λ l. record l { index = delete_key k l.index })
expire_slot clock k (holds b) =
    if ends_now k b
    then save_binding clock (record b { state = expired }) "expire"
    else modify (λ l. record l { index = delete_key k l.index })

-- The bucket of the bindings has the same keys without the number.
unfoldable pub slot_under : List String → Ledger → Slot
slot_under (s ∷ a ∷ []) l = l.bindings s a
slot_under _ l = absent

unfoldable pub slot_at : Key → Ledger → Slot
unfolding slot_under
slot_at k l = slot_under k.parts l

unfoldable pub expire_key : (ℕ → ℕ) → Key → Tx (Unit {0})
unfolding expire_slot slot_at
expire_key clock k = do slot ← gets (slot_at k); expire_slot clock k slot

unfoldable pub expire_all : (ℕ → ℕ) → List Key → Tx (Unit {0})
unfolding expire_key
expire_all clock [] = pure tt
expire_all clock (k ∷ ks) = expire_key clock k >> expire_all clock ks

-- The transaction of Store.Expire.
unfoldable pub expiring : (ℕ → ℕ) → ℕ → Tx (Unit {0})
unfolding due_keys expire_all
expiring clock now = do ks ← gets (λ l. due_keys 1000 now l.index); expire_all clock ks

-- Store.Expire
unfoldable pub expire : Bool → (ℕ → ℕ) → ℕ → Ledger → Result (Unit {0}) × Ledger
unfolding expiring
expire commits clock now = update commits (expiring clock now)
