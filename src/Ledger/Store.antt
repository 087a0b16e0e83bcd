-- ===== src/Ledger/Store.antt =====
-- internal/addressbook/store.go and index.go: reading and saving a binding, with its indices and
-- its event.
use ghostd.Prelude.{
  ℕ, suc, ◌%◌, ◌^◌, String, ◌==◌, Bool, ◌&&◌, not, Option, none, some, List, [], ◌∷◌, ◌++◌,
  if◌then◌else◌,
}
use ghostd.Ledger.Binding.{Binding, is_live, is_active, no_binding, Association}
use ghostd.Ledger.Keys.{Key, put_key, delete_key}
use ghostd.Ledger.Tx.{
  Ledger, Slot, absent, corrupt, holds, Tx, broken, ◌>>=◌, ◌>>◌, pure, fail, gets, modify,
}

-- readBinding: nothing under the key is the zero binding.
unfoldable pub read_slot : Slot → Tx Binding
read_slot absent = pure no_binding
read_slot corrupt = fail broken
read_slot (holds b) = pure b

unfoldable pub read_binding : String → String → Tx Binding
unfolding read_slot
read_binding scope address = do slot ← gets (λ l. l.bindings scope address); read_slot slot

unfoldable pub decoded_association : Option (Option Association) → Tx (Option Association)
decoded_association none = pure none
decoded_association (some none) = fail broken
decoded_association (some (some a)) = pure (some a)

-- readAssociation
unfoldable pub read_association : String → Tx (Option Association)
unfolding decoded_association
read_association client = do found ← gets (λ l. l.associations client); decoded_association found

abbrev pub index_key : String → List String → Key
index_key bucket parts = record { bucket = bucket; number = 0; parts = parts }

abbrev pub expiry_key : Binding → Key
expiry_key b = record { bucket = "expiry-v1"; number = b.end; parts = b.scope ∷ b.address ∷ [] }

abbrev pub dns_key : Binding → Key
dns_key b = index_key "dns-v1" (b.scope ∷ b.name ∷ b.address ∷ [])

abbrev pub client_key : Binding → Key
client_key b = index_key "idx-client-v1" (b.client ∷ b.scope ∷ b.address ∷ [])

abbrev pub mac_key : Binding → Key
mac_key b = index_key "idx-mac-v1" (b.mac ∷ b.scope ∷ b.address ∷ [])

abbrev pub name_key : Binding → Key
name_key b = index_key "idx-name-v1" (b.name ∷ b.scope ∷ b.address ∷ [])

abbrev pub addr_key : Binding → Key
addr_key b = index_key "idx-addr-v1" (b.address ∷ b.scope ∷ [])

abbrev pub one_if : Bool → Key → List Key → List Key
one_if b k ks = if b then k ∷ ks else ks

unfoldable pub index_entries : Binding → List Key
index_entries b =
    if not (is_live b.state)
    then []
    else client_key b
      ∷ one_if (not (b.mac == "")) (mac_key b)
          (one_if (is_active b.state && not (b.name == "")) (name_key b) (addr_key b ∷ []))

unfoldable pub delete_all : List Key → List Key → List Key
delete_all [] index = index
delete_all (k ∷ ks) index = delete_all ks (delete_key k index)

unfoldable pub put_all : List Key → List Key → List Key
put_all [] index = index
put_all (k ∷ ks) index = put_all ks (put_key k index)

-- reindex
unfoldable pub reindexed : Binding → Binding → List Key → List Key
unfolding delete_all put_all index_entries
reindexed old b index = put_all (index_entries b) (delete_all (index_entries old) index)

abbrev pub is_delegated : Binding → Bool
is_delegated b = b.origin == "dhcpv6-pd"

-- What save does to the indices, in its order.
unfoldable pub resaved : Binding → Binding → List Key → List Key
unfolding reindexed
resaved old b index =
    let unnamed = if not (old.name == "") then delete_key (dns_key old) index else index in
    let moved = reindexed old b unnamed in
    let stopped = if is_live old.state then delete_key (expiry_key old) moved else moved in
    let timed = if is_live b.state then put_key (expiry_key b) stopped else stopped in
    if is_active b.state && not (is_delegated b) then put_key (dns_key b) timed else timed

abbrev pub put_slot : String → String → Slot → (String → String → Slot) → String → String → Slot
put_slot scope address slot bindings s a = if s == scope && a == address then slot else bindings s a

-- appendEvent: the next sequence number is the event's, and the clock is read for it.
unfoldable pub append_event : (ℕ → ℕ) → String → String → Binding → Ledger → Ledger
append_event clock kind message b l = record l {
  sequence = suc l.sequence;
  events =
      l.events
      ++ (record {
        message = message;
        id = suc l.sequence;
        time = clock (suc l.sequence);
        kind = kind;
        binding = b;
      }
          ∷ []);
}

unfoldable pub rewritten : Binding → Binding → Ledger → Ledger
unfolding resaved
rewritten old b l = record l {
  bindings = put_slot b.scope b.address (holds b) l.bindings;
  index = resaved old b l.index;
}

-- Store.save
unfoldable pub save_binding : (ℕ → ℕ) → Binding → String → Tx (Unit {0})
unfolding rewritten append_event
save_binding clock b kind = do
  old ← read_binding b.scope b.address
  modify (rewritten old b)
  modify (append_event clock kind "" b)

-- Store.audit
unfoldable pub audit : (ℕ → ℕ) → String → String → Tx (Unit {0})
unfolding append_event
audit clock kind message = modify (append_event clock kind message no_binding)

-- Store.NoteDNSConfig, given the fingerprint of the configuration and its first bytes in hexadecimal.
unfoldable pub note_dns_config : (ℕ → ℕ) → String → String → Tx (Unit {0})
unfolding append_event
note_dns_config clock fingerprint shown = do
  noted ← gets (λ l. l.dns_config == fingerprint)
  if noted
      then pure tt
      else (modify (λ l. record l { dns_config = fingerprint })
          >> modify (append_event clock "dns-config" shown no_binding))

-- Store.Revision: uint32 of the sequence
abbrev pub revision : Ledger → ℕ
revision l = l.sequence % 2 ^ 32
