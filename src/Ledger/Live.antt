-- ===== src/Ledger/Live.antt =====
-- internal/addressbook/index.go: the live bindings that an index names.
use ghostd.Prelude.{
  String, ◌==◌, Bool, true, false, ◌&&◌, ◌||◌, not, Option, none, some, List, [], ◌∷◌,
  if◌then◌else◌,
}
use ghostd.Ledger.Binding.{Binding, is_live}
use ghostd.Ledger.Keys.{Key}
use ghostd.Ledger.Store.{read_binding}
use ghostd.Ledger.Tx.{Tx, ◌>>=◌, pure, gets}

-- The scope and the address of a key: `x, scope, address`, and `address, scope` in the address index.
unfoldable pub key_slot : String → List String → Option (String × String)
key_slot bucket (a ∷ s ∷ []) = if bucket == "idx-addr-v1" then some (s, a) else none
key_slot bucket (x ∷ s ∷ a ∷ []) = some (s, a)
key_slot bucket _ = none

unfoldable pub has_parts : List String → List String → Bool
has_parts [] parts = true
has_parts (x ∷ xs) [] = false
has_parts (x ∷ xs) (y ∷ ys) = x == y && has_parts xs ys

unfoldable pub add_live : Binding → List Binding → List Binding
add_live b bs = if b.scope == "" || not (is_live b.state) then bs else b ∷ bs

-- Where a key of the scan leads, if it leads anywhere.
unfoldable pub leads_to : String → List String → Key → Option (String × String)
unfolding key_slot has_parts
leads_to bucket prefix k =
    if k.bucket == bucket && has_parts prefix k.parts then key_slot bucket k.parts else none

-- One round: the binding is read again, before the rest of the scan.
unfoldable pub collect_one : Option (String × String) → Tx (List Binding) → Tx (List Binding)
unfolding add_live
collect_one none rest = rest
collect_one (some (scope, address)) rest =
    read_binding scope address >>= λ b. rest >>= λ bs. pure (add_live b bs)

unfoldable pub collect : String → List String → List Key → Tx (List Binding)
unfolding leads_to collect_one
collect bucket prefix [] = pure []
collect bucket prefix (k ∷ ks) = collect_one (leads_to bucket prefix k) (collect bucket prefix ks)

-- liveFromIndex
unfoldable pub live_from_index : String → List String → Tx (List Binding)
unfolding collect
live_from_index bucket prefix = do index ← gets (λ l. l.index); collect bucket prefix index

-- liveByClient
unfoldable pub live_by_client : String → String → Tx (List Binding)
unfolding live_from_index
live_by_client scope client = live_from_index "idx-client-v1" (client ∷ scope ∷ [])
