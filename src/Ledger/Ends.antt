-- ===== src/Ledger/Ends.antt =====
-- internal/addressbook: Store.Allocate under a configuration that Config.Validate accepts.
mod Choices
pub mod Whole
use ghostd.Prelude.{
  ℕ, zero, suc, ◌≤◌, ◌<◌, String, ◌==◌, ◌≡◌, ◌≢◌, refl, sym, ◌∙◌, ap, subst, arith, Bool, true,
  false, ◌&&◌, ◌||◌, not, Option, none, some, List, [], ◌∷◌, ◌⊎◌, inl, inr, Bool-cases,
  Option-cases, some_inj, All, if◌then◌else◌, ltb, is_none,
}
use ghostd.Ledger.Binding.{Binding, Association, no_binding}
use ghostd.Ledger.Keys.{Key}
use ghostd.Ledger.Live.{live_by_client, live_from_index, collect, collect_one, leads_to, add_live}
use ghostd.Ledger.Store.{
  read_slot, read_binding, decoded_association, read_association, save_binding, rewritten,
  append_event,
}
use ghostd.Ledger.Tx.{
  Ledger, Slot, absent, corrupt, holds, Tx, Fault, Result, ok, err, ◌>>=◌, ◌>>◌, pure, fail, must,
  require, gets, modify, endless, panics, unavailable, refused, broken, continue,
}

-- A fault that the code answers with: neither a panic nor a loop that goes on.
abbrev pub Answers : Fault → Type 0
Answers c = (c ≢ endless) × (c ≢ panics)

-- Whatever the ledger, the step answers.
abbrev pub Calm : {A : Type 0} → Tx A → Type 0
Calm m = (l : Ledger) (c : Fault) → m l ≡ err c → Answers c

err_inj : {A : Type 0} (c d : Fault) → ◌≡◌ {A = Result A} (err c) (err d) → c ≡ d
err_inj c d h = cc

pub >>=-Calm :
    {A B : Type 0} (m : Tx A) (f : A → Tx B) → Calm m → ((a : A) → Calm (f a)) → Calm (m >>= f)
unfolding ◌>>=◌
>>=-Calm {A} {B} m f p q l c h = from (m l) refl h
  where
    from : (r : Result (A × Ledger)) → m l ≡ r → continue r f ≡ err c → Answers c
    from (ok (a, l1)) is g = q a l1 c g
    from (err d) is g = subst Answers (err_inj {A = B × Ledger} d c g) (p l d is)

pub pure-Calm : {A : Type 0} (a : A) → Calm (pure a)
unfolding pure
pure-Calm a l c h = cc

pub fail-Calm : {A : Type 0} (d : Fault) → Answers d → Calm (fail {A = A} d)
unfolding fail
fail-Calm d p l c h = ((λ is. p.0 (cc)), (λ is. p.1 (cc)))

pub must-Calm : {A : Type 0} (o : Option A) → (a : A) → o ≡ some a → Calm (must o)
unfolding must
must-Calm o a is l c h = absurd (cc (subst (λ x. must x l ≡ err c) is h))

pub require-Calm : (b : Bool) (d : Fault) → Answers d → Calm (require b d)
unfolding require
require-Calm true d p l c h = cc
require-Calm false d p l c h = subst Answers (err_inj {A = Unit {0} × Ledger} d c h) p

pub refused-Answers : (d : Fault) → (d ≡ unavailable) ⊎ ((d ≡ refused) ⊎ (d ≡ broken)) → Answers d
refused-Answers d (inl is) = ((λ g. absurd (cc (sym is ∙ g))), (λ g. absurd (cc (sym is ∙ g))))
refused-Answers d (inr (inl is)) =
    ((λ g. absurd (cc (sym is ∙ g))), (λ g. absurd (cc (sym is ∙ g))))
refused-Answers d (inr (inr is)) =
    ((λ g. absurd (cc (sym is ∙ g))), (λ g. absurd (cc (sym is ∙ g))))

read_slot-Calm : (x : Slot) → Calm (read_slot x)
unfolding read_slot
read_slot-Calm absent = pure-Calm no_binding
read_slot-Calm corrupt = fail-Calm broken (refused-Answers broken (inr (inr refl)))
read_slot-Calm (holds b) = pure-Calm b

pub gets-Calm : {A : Type 0} (f : Ledger → A) → Calm (gets f)
unfolding gets
gets-Calm f l c h = cc

modify-Calm : (f : Ledger → Ledger) → Calm (modify f)
unfolding modify
modify-Calm f l c h = cc

pub read_binding-Calm : (s a : String) → Calm (read_binding s a)
unfolding read_binding
read_binding-Calm s a =
    >>=-Calm (gets (λ l. l.bindings s a)) read_slot (gets-Calm (λ l. l.bindings s a)) read_slot-Calm

decoded-Calm : (o : Option (Option Association)) → Calm (decoded_association o)
unfolding decoded_association
decoded-Calm none = pure-Calm none
decoded-Calm (some none) = fail-Calm broken (refused-Answers broken (inr (inr refl)))
decoded-Calm (some (some a)) = pure-Calm (some a)

pub read_association-Calm : (client : String) → Calm (read_association client)
unfolding read_association
read_association-Calm client =
    >>=-Calm (gets (λ l. l.associations client)) decoded_association
      (gets-Calm (λ l. l.associations client)) decoded-Calm

pub save_binding-Calm :
    (clock : ℕ → ℕ) (b : Binding) (kind : String) → Calm (save_binding clock b kind)
unfolding save_binding
save_binding-Calm clock b kind =
    >>=-Calm (read_binding b.scope b.address)
      (λ old. modify (rewritten old b) >>= λ _. modify (append_event clock kind "" b))
      (read_binding-Calm b.scope b.address)
      (λ old.
        >>=-Calm (modify (rewritten old b)) (λ _. modify (append_event clock kind "" b))
          (modify-Calm (rewritten old b)) (λ _. modify-Calm (append_event clock kind "" b)))

collect_one-Calm :
    (slot : Option (String × String)) (rest : Tx (List Binding))
    → Calm rest
    → Calm (collect_one slot rest)
unfolding collect_one
collect_one-Calm none rest r = r
collect_one-Calm (some (scope, address)) rest r =
    >>=-Calm (read_binding scope address) (λ b. rest >>= λ bs. pure (add_live b bs))
      (read_binding-Calm scope address)
      (λ b. >>=-Calm rest (λ bs. pure (add_live b bs)) r (λ bs. pure-Calm (add_live b bs)))

collect-Calm :
    (bucket : String) (prefix : List String) (ks : List Key) → Calm (collect bucket prefix ks)
unfolding collect
collect-Calm bucket prefix [] = pure-Calm []
collect-Calm bucket prefix (k ∷ ks) =
    collect_one-Calm (leads_to bucket prefix k) (collect bucket prefix ks)
      (collect-Calm bucket prefix ks)

pub live_by_client-Calm : (scope client : String) → Calm (live_by_client scope client)
unfolding live_by_client live_from_index
live_by_client-Calm scope client =
    >>=-Calm (gets (λ l. l.index)) (collect "idx-client-v1" (client ∷ scope ∷ []))
      (gets-Calm (λ l. l.index)) (collect-Calm "idx-client-v1" (client ∷ scope ∷ []))
