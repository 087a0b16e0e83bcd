-- ===== src/Ledger/Saved.antt =====
-- internal/addressbook/store.go: what a transaction that succeeds has read and written.
use ghostd.Prelude.{
  ℕ, String, ◌==◌, ◌≡◌, refl, ◌&&◌, ◌⊎◌, inl, inr, arith, eq_iff, subst, Bool-cases,
}
use ghostd.Ledger.Binding.{Binding, no_binding}
use ghostd.Ledger.Store.{rewritten, put_slot, save_binding, append_event, read_binding, read_slot}
use ghostd.Ledger.Tx.{
  Ledger, Tx, Slot, absent, corrupt, holds, Result, ok, err, ◌>>=◌, modify, gets, pure, fail,
  continue,
}

-- Inversion of a bind that succeeds.
pub >>=-eq-ok :
    {A B : Type 0} (m : Tx A) (f : A → Tx B) (l l' : Ledger) (b : B)
    → (m >>= f) l ≡ ok (b, l')
    → (a : A) × (l1 : Ledger) × (m l ≡ ok (a, l1)) × (f a l1 ≡ ok (b, l'))
unfolding ◌>>=◌
>>=-eq-ok {A} m f l l' b h = from (m l) refl h
  where
    from :
        (r : Result (A × Ledger))
        → m l ≡ r
        → continue r f ≡ ok (b, l')
        → (a : A) × (l1 : Ledger) × (m l ≡ ok (a, l1)) × (f a l1 ≡ ok (b, l'))
    from (ok (a, l1)) e g = (a, l1, e, g)
    from (err c) e g = cc

-- What a save reads at the slot: the zero binding, or the one that is stored.
abbrev pub Reads : Ledger → String → String → Binding → Type 0
Reads l s a b = ((l.bindings s a ≡ absent) × (b ≡ no_binding)) ⊎ (l.bindings s a ≡ holds b)

pub read_binding-Reads :
    (s a : String) (l l' : Ledger) (b : Binding)
    → read_binding s a l ≡ ok (b, l')
    → Reads l s a b × (l' ≡ l)
unfolding read_binding ◌>>=◌ gets pure fail
read_binding-Reads s a l l' b h = from (l.bindings s a) refl h
  where
    from :
        (slot : Slot)
        → l.bindings s a ≡ slot
        → read_slot slot l ≡ ok (b, l')
        → Reads l s a b × (l' ≡ l)
    from absent e g = (inl (e, cc), cc)
    from corrupt e g = cc
    from (holds c) e g = (inr (cc), cc)

-- A slot after a write: the written one, or as it was.
pub slot_after :
    (s a s' a' : String) (x : Slot) (bindings : String → String → Slot)
    → ((s' ≡ s) × (a' ≡ a) × (put_slot s a x bindings s' a' ≡ x))
      ⊎ (((s' ≡ s) × (a' ≡ a) → ⊥) × (put_slot s a x bindings s' a' ≡ bindings s' a'))
slot_after s a s' a' x bindings = elim (Bool-cases (s' == s && a' == a)) [
  | inl same ↦ inl (ground (arith, eq_iff s' s), ground (arith, eq_iff a' a), rw same refl)
  | inr other ↦ inr ((λ e. ground (arith, eq_iff s' s, eq_iff a' a)), rw other refl)
]

pub two_writes :
    (f g : Ledger → Ledger) (l l' : Ledger)
    → (modify f >>= λ _. modify g) l ≡ ok (tt, l')
    → l' ≡ g (f l)
unfolding modify ◌>>=◌
two_writes f g l l' h = cc

-- A save that succeeds has read the slot, and then writes the binding and its event.
pub save_binding-eq-ok :
    (clock : ℕ → ℕ) (b : Binding) (kind : String) (l l' : Ledger)
    → save_binding clock b kind l ≡ ok (tt, l')
    → (old : Binding) × (read_binding b.scope b.address l ≡ ok (old, l))
      × (l' ≡ append_event clock kind "" b (rewritten old b l))
unfolding save_binding
save_binding-eq-ok clock b kind l l' h =
    let (old, l1, read, rest) =
      >>=-eq-ok (read_binding b.scope b.address)
        (λ old. modify (rewritten old b) >>= λ _. modify (append_event clock kind "" b)) l l' tt
        h in
    let same = (read_binding-Reads b.scope b.address l l1 old read).1 in
    (
      old,
      subst (λ x. read_binding b.scope b.address l ≡ ok (old, x)) same read,
      subst (λ x. l' ≡ append_event clock kind "" b (rewritten old b x)) same
          (two_writes (rewritten old b) (append_event clock kind "" b) l1 l' rest),
    )

pub >>=-ok :
    {A B : Type 0} (m : Tx A) (f : A → Tx B) (l l1 : Ledger) (a : A)
    → m l ≡ ok (a, l1)
    → (m >>= f) l ≡ f a l1
unfolding ◌>>=◌
>>=-ok m f l l1 a h = rw h refl

pub save_binding-ok :
    (clock : ℕ → ℕ) (b old : Binding) (kind : String) (l : Ledger)
    → read_binding b.scope b.address l ≡ ok (old, l)
    → save_binding clock b kind l ≡ ok (tt, append_event clock kind "" b (rewritten old b l))
unfolding save_binding modify ◌>>=◌
save_binding-ok clock b old kind l h = rw h refl
