-- ===== src/Ledger/Expired/Whole.antt =====
-- internal/addressbook/allocate.go: Store.Expire as a whole.
use ghostd.Prelude.{ℕ, ◌≤◌, String, ◌==◌, ◌≡◌, true, List, All}
use ghostd.Ledger.Binding.{Binding, expired, is_live}
use ghostd.Ledger.Expired.{Expires, Stale}
use ghostd.Ledger.Expired.Earliest.{IsOrdered}
use ghostd.Ledger.Indexed.Save.{IsIndexed}
use ghostd.Ledger.Keys.{Key}
use ghostd.Ledger.Tx.{Ledger, holds}

-- A key of the expiry index whose time has come.
abbrev pub IsDue : ℕ → Key → Type 0
IsDue now k = ((k.bucket == "expiry-v1") ≡ true) × (k.number ≤ now)

-- What a run over due keys leaves behind.
pub record Swept (now : ℕ) (ks : List Key) (l l' : Ledger) : Type 0 where
  pub indexed : IsIndexed l'
  pub ordered : IsOrdered l'.index
  pub steps : Expires now l l'
  pub done : All (Stale l') ks

-- Each live binding that is due has expired.
abbrev pub AllExpired : ℕ → Ledger → Ledger → Type 0
AllExpired now l l' =
    (s a : String) (b : Binding)
    → l.bindings s a ≡ holds b
    → is_live b.state ≡ true
    → b.end ≤ now
    → l'.bindings s a ≡ holds (record b { state = expired })
