-- ===== src/Tests/Served.antt =====
-- The theorem on the name index, at the small network.
use ghostd.Prelude.{ℕ, ◌≡◌, ◌<◌, refl, true, false, [], ◌∷◌, All, Any}
use ghostd.Ledger.Binding.{Binding, is_active}
use ghostd.Ledger.Keys.{key_eq, key_before, has_key, put_key}
use ghostd.Ledger.Names.{dns_bindings}
use ghostd.Ledger.Names.Served.{dns_bindings-Answers}
use ghostd.Ledger.Store.{append_event, rewritten, is_delegated}
use ghostd.Ledger.Tx.{holds, ok, ◌>>=◌, gets, pure}
use ghostd.Tests.Addresses.{lease}
use ghostd.Tests.Grants.{leased, leased-IsIndexed}

laptop_found :
    dns_bindings (λ _. 2000) "office" "device-0123456789abcdef" "" leased ≡ ok (lease ∷ [], leased)
unfolding dns_bindings append_event rewritten key_eq key_before has_key put_key ◌>>=◌ gets pure
laptop_found = refl

dns_bindings-Answers_example :
    All
      (λ b.
        (b.name ≡ "device-0123456789abcdef")
        × (is_active b.state ≡ true)
        × ((n : ℕ) × (2000 < b.end))
        × (leased.bindings "office" b.address ≡ holds b))
      (lease ∷ [])
    × ((b : Binding)
        → leased.bindings "office" b.address ≡ holds b
        → b.name ≡ "device-0123456789abcdef"
        → is_active b.state ≡ true
        → is_delegated b ≡ false
        → ((n : ℕ) → 2000 < b.end)
        → Any (λ x. x ≡ b) (lease ∷ []))
dns_bindings-Answers_example =
    dns_bindings-Answers (λ _. 2000) "office" "device-0123456789abcdef" leased leased (lease ∷ [])
      leased-IsIndexed laptop_found
