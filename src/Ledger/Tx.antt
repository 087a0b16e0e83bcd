-- ===== src/Ledger/Tx.antt =====
-- A transaction of go.etcd.io/bbolt over the ledger: it reads and writes, or fails, and then the
-- database is as it was.
use ghostd.Prelude.{ℕ, String, Bool, true, false, Option, none, some, List}
use ghostd.Ledger.Binding.{Binding, Event, Association}
use ghostd.Ledger.Keys.{Key}

-- ErrUnavailable, any other error of the code, and an error of the database or of a record that
-- does not decode; a panic, and a loop that goes on.
pub data Fault : Type 0 where
  unavailable refused broken panics endless : Fault

pub data Result (A : Type 0) : Type 0 where
  ok : A → Result A
  err : Fault → Result A

-- What the bindings bucket has under a scope and an address.
pub data Slot : Type 0 where
  absent corrupt : Slot
  holds : Binding → Slot

-- The buckets: bindings, all indices in one list of keys, events with their sequence, the
-- operators' associations (one that does not decode is `some none`) and the fingerprint of the
-- configuration. The buckets of nodes, observations and metadata besides are not modelled.
pub record Ledger : Type 0 where
  pub bindings : String → String → Slot
  pub index : List Key
  pub sequence : ℕ
  pub events : List Event
  pub associations : String → Option (Option Association)
  pub dns_config : String

abbrev pub Tx : Type 0 → Type 0
Tx A = Ledger → Result (A × Ledger)

module _ {A B : Type 0} where
  abbrev pub continue : Result (A × Ledger) → (A → Tx B) → Result (B × Ledger)
  continue (ok (a, l)) f = f a l
  continue (err c) f = err c

  infixl 5 ◌>>=◌
  unfoldable pub ◌>>=◌ : Tx A → (A → Tx B) → Tx B
  ◌>>=◌ m f l = continue (m l) f

infixl 5 ◌>>◌
abbrev pub ◌>>◌ : {B : Type 0} → Tx (Unit {0}) → Tx B → Tx B
m >> k = m >>= λ _. k

module _ {A : Type 0} where
  unfoldable pub pure : A → Tx A
  pure a l = ok (a, l)

  unfoldable pub fail : Fault → Tx A
  fail c l = err c

  unfoldable pub gets : (Ledger → A) → Tx A
  gets f l = ok (f l, l)

unfoldable pub modify : (Ledger → Ledger) → Tx (Unit {0})
modify f l = ok (tt, f l)

-- What panics has no value.
unfoldable pub must : {A : Type 0} → Option A → Tx A
must (some a) l = ok (a, l)
must none l = err panics

-- if !b { return err }
unfoldable pub require : Bool → Fault → Tx (Unit {0})
require true c l = ok (tt, l)
require false c l = err c

-- db.Update: the transaction commits as a whole, or nothing of it does. `commits` is whether the
-- database could write it.
module _ {A : Type 0} where
  unfoldable pub end_of : Bool → Ledger → Result (A × Ledger) → Result A × Ledger
  end_of commits l (err c) = (err c, l)
  end_of true l (ok (a, l')) = (ok a, l')
  end_of false l (ok (a, l')) = (err broken, l)

  unfoldable pub update : Bool → Tx A → Ledger → Result A × Ledger
  unfolding end_of
  update commits m l = end_of commits l (m l)
