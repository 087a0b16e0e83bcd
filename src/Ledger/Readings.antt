-- ===== src/Ledger/Readings.antt =====
-- internal/addressbook/index.go: the steps of a transaction that only read.
use ghostd.Prelude.{String, ◌≡◌, ◌∙◌, Option, none, some, List, [], ◌∷◌}
use ghostd.Ledger.Binding.{Binding, Association}
use ghostd.Ledger.Keys.{Key}
use ghostd.Ledger.Live.{collect, live_from_index, leads_to, collect_one, add_live}
use ghostd.Ledger.Saved.{>>=-eq-ok, read_binding-Reads}
use ghostd.Ledger.Store.{read_binding, read_association, decoded_association}
use ghostd.Ledger.Tx.{Ledger, Tx, Fault, ok, ◌>>=◌, pure, fail, gets, must}

-- A step that succeeds leaves the ledger as it is.
abbrev pub Reading : {A : Type 0} → Tx A → Type 0
Reading {A} m = (a : A) (l l' : Ledger) → m l ≡ ok (a, l') → l' ≡ l

pub must-eq-ok :
    {A : Type 0} (o : Option A) (a : A) (l l' : Ledger)
    → must o l ≡ ok (a, l')
    → (o ≡ some a) × (l' ≡ l)
unfolding must
must-eq-ok none a l l' h = cc
must-eq-ok (some x) a l l' h = (cc, cc)

pub pure-eq-ok : {A : Type 0} (x a : A) (l l' : Ledger) → pure x l ≡ ok (a, l') → (x ≡ a) × (l' ≡ l)
unfolding pure
pure-eq-ok x a l l' h = (cc, cc)

pub fail-eq-ok : {A : Type 0} (c : Fault) (a : A) (l l' : Ledger) → fail c l ≡ ok (a, l') → ⊥
unfolding fail
fail-eq-ok c a l l' h = cc

pub >>=-Reading :
    {A B : Type 0} (m : Tx A) (f : A → Tx B)
    → Reading m
    → ((a : A) → Reading (f a))
    → Reading (m >>= f)
>>=-Reading m f p q b l l' h =
    let (a, l1, first, rest) = >>=-eq-ok m f l l' b h in q a b l1 l' rest ∙ p a l l1 first

pub pure-Reading : {A : Type 0} (x : A) → Reading (pure x)
pure-Reading x a l l' h = (pure-eq-ok x a l l' h).1

pub must-Reading : {A : Type 0} (o : Option A) → Reading (must o)
must-Reading o a l l' h = (must-eq-ok o a l l' h).1

pub read_binding-Reading : (s a : String) → Reading (read_binding s a)
read_binding-Reading s a b l l' h = (read_binding-Reads s a l l' b h).1

gets-Reading : {A : Type 0} (f : Ledger → A) → Reading (gets f)
unfolding gets
gets-Reading f a l l' h = cc

collect_one-Reading :
    (slot : Option (String × String)) (rest : Tx (List Binding))
    → Reading rest
    → Reading (collect_one slot rest)
unfolding collect_one
collect_one-Reading none rest r = r
collect_one-Reading (some (scope, address)) rest r =
    >>=-Reading (read_binding scope address) (λ b. rest >>= λ bs. pure (add_live b bs))
      (read_binding-Reading scope address)
      (λ b. >>=-Reading rest (λ bs. pure (add_live b bs)) r (λ bs. pure-Reading (add_live b bs)))

collect-Reading :
    (bucket : String) (prefix : List String) (ks : List Key) → Reading (collect bucket prefix ks)
unfolding collect
collect-Reading bucket prefix [] = pure-Reading []
collect-Reading bucket prefix (k ∷ ks) =
    collect_one-Reading (leads_to bucket prefix k) (collect bucket prefix ks)
      (collect-Reading bucket prefix ks)

pub live_from_index-Reading :
    (bucket : String) (prefix : List String) → Reading (live_from_index bucket prefix)
unfolding live_from_index
live_from_index-Reading bucket prefix =
    >>=-Reading (gets (λ l. l.index)) (collect bucket prefix) (gets-Reading (λ l. l.index))
      (collect-Reading bucket prefix)

pub read_association-Reading : (client : String) → Reading (read_association client)
unfolding read_association ◌>>=◌ gets pure fail
read_association-Reading client a l l' h = from (l.associations client) h
  where
    from : (o : Option (Option Association)) → decoded_association o l ≡ ok (a, l') → l' ≡ l
    from none g = cc
    from (some none) g = cc
    from (some (some x)) g = cc
