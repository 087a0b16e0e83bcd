-- ===== src/Ledger/Ends/Choices.antt =====
-- internal/addressbook/allocate.go: the steps of Store.Allocate that choose answer.
use ghostd.Prelude.{
  ℕ, ◌≤◌, ◌<◌, String, ◌≡◌, refl, sym, subst, arith, Bool, true, false, Option, none, some, inl,
  if◌then◌else◌,
}
use ghostd.Ledger.Allocate.{settle_on}
use ghostd.Ledger.Ends.{Answers, Calm, pure-Calm, fail-Calm, refused-Answers}
use ghostd.Ledger.Grant.{chosen, found_ip}
use ghostd.Ledger.Tx.{Tx, ◌>>=◌, must, unavailable}

pub no_address : Answers unavailable
no_address = refused-Answers unavailable (inl refl)

pub enough : (k : ℕ) → k ≤ 65536 → k < 65537
enough k h = omega arith

pub must_then-Calm :
    {A B : Type 0} (o : Option A) (a : A) (f : A → Tx B)
    → o ≡ some a
    → Calm (f a)
    → Calm (must o >>= f)
unfolding must ◌>>=◌
must_then-Calm o a f is calm = subst (λ x. Calm (must x >>= f)) (sym is) calm

pub if-Calm : {A : Type 0} (b : Bool) (m n : Tx A) → Calm m → Calm n → Calm (if b then m else n)
if-Calm true m n p q = p
if-Calm false m n p q = q

pub settle-Calm :
    (here : String) (rest : Tx (Option String))
    → Calm rest
    → (usable : Bool) → Calm (settle_on here rest usable)
unfolding settle_on
settle-Calm here rest r true = pure-Calm (some here)
settle-Calm here rest r false = r

pub found_ip-Calm : (found : Option String) → Calm (found_ip found)
unfolding found_ip
found_ip-Calm none = fail-Calm unavailable no_address
found_ip-Calm (some ip) = pure-Calm ip

pub chosen-Calm :
    (settled : Bool) (candidate : String) (pool : Tx String)
    → Calm pool
    → (usable : Bool) → Calm (chosen settled candidate pool usable)
unfolding chosen
chosen-Calm settled candidate pool p true = pure-Calm candidate
chosen-Calm true candidate pool p false = fail-Calm unavailable no_address
chosen-Calm false candidate pool p false = p
