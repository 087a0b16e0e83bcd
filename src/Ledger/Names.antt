-- ===== src/Ledger/Names.antt =====
-- internal/addressbook/store.go: Store.DNSBindings, the bindings behind a name or an address.
pub mod Served
use ghostd.Prelude.{
  ℕ, suc, String, ◌==◌, ◌≡◌, refl, sym, ◌∙◌, ap, subst, arith, eq_iff, eq_refl, Bool, true, false,
  ◌&&◌, ◌||◌, not, List, [], ◌∷◌, inl, inr, ◌⊎◌, Bool-cases, All, Any, if◌then◌else◌, ltb,
}
use ghostd.Ledger.Binding.{Binding, is_active}
use ghostd.Ledger.Keys.{Key, has_key, key_eq, key_eq_iff}
use ghostd.Ledger.Store.{dns_key, is_delegated}
use ghostd.Ledger.Tx.{
  Ledger, Slot, absent, corrupt, holds, Tx, Result, ok, err, broken, ◌>>=◌, ◌>>◌, pure, fail, gets,
}

-- appendBinding, before what the rest of the scan gives.
unfoldable pub answer_with : ℕ → Slot → Tx (List Binding) → Tx (List Binding)
answer_with now absent rest = rest
answer_with now corrupt rest = fail broken
answer_with now (holds b) rest =
    if is_active b.state && ltb now b.end then (rest >>= λ bs. pure (b ∷ bs)) else rest

-- The slot that a key of the name index leads to, under its scope and name.
unfoldable pub named_slot : Ledger → String → String → List String → Slot
named_slot l scope name (s ∷ n ∷ a ∷ []) =
    if s == scope && n == name then l.bindings s a else absent
named_slot l scope name _ = absent

-- s.now() is read for each binding: clock n is its reading in round n.
unfoldable pub scan_names : (ℕ → ℕ) → Ledger → String → String → List Key → Tx (List Binding)
unfolding answer_with named_slot
scan_names clock l scope name [] = pure []
scan_names clock l scope name (k ∷ ks) =
    answer_with (clock 0) (if k.bucket == "dns-v1" then named_slot l scope name k.parts else absent)
      (scan_names (λ n. clock (suc n)) l scope name ks)

-- Store.DNSBindings
unfoldable pub dns_bindings : (ℕ → ℕ) → String → String → String → Tx (List Binding)
unfolding scan_names answer_with
dns_bindings clock scope name address = do
  l ← gets (λ l. l)
  if not (address == "")
      then answer_with (clock 0) (l.bindings scope address) (pure [])
      else scan_names clock l scope name l.index
