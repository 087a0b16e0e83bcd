-- ===== src/Ledger/Expired/DueKey.antt =====
-- internal/addressbook/allocate.go: what one due key of Store.Expire leaves behind.
use ghostd.Prelude.{
  ℕ, ◌≤◌, ◌==◌, ◌≡◌, refl, sym, ◌∙◌, subst, arith, true, false, inl, inr, Bool-cases,
}
use ghostd.Ledger.Binding.{Binding, expired}
use ghostd.Ledger.Indexed.Save.{IsIndexed, save_binding-IsIndexed}
use ghostd.Ledger.Keys.{Key, delete_key}
use ghostd.Ledger.Policy.{save_binding-Stores}
use ghostd.Ledger.Expired.Earliest.{IsOrdered, delete_key-IsOrdered, save_binding-IsOrdered}
use ghostd.Ledger.Release.{ends_now, expire_slot, slot_at}
use ghostd.Ledger.Store.{save_binding}
use ghostd.Ledger.Tx.{Ledger, Slot, absent, corrupt, holds, ok, modify}
use ghostd.Ledger.Expired.{
  Stale, delete_key-IsIndexed, Expires, expired-ends_now, Expires-Stale, under, under_now,
  holds_inj, same_slot,
}

-- What one due key leaves behind.
pub record Handled (now : ℕ) (k : Key) (l l' : Ledger) : Type 0 where
  pub indexed : IsIndexed l'
  pub ordered : IsOrdered l'.index
  pub steps : Expires now l l'
  pub done : Stale l' k

module _ (clock : ℕ → ℕ) (now : ℕ) (k : Key) (l : Ledger) (inv : IsIndexed l)
    (o : IsOrdered l.index) (bucket : (k.bucket == "expiry-v1") ≡ true)
    (late : k.number ≤ now) where
  dropped-Handled : Stale l k → Handled now k l (record l { index = delete_key k l.index })
  dropped-Handled stale = record {
    indexed = delete_key-IsIndexed l k inv bucket stale;
    ordered = delete_key-IsOrdered k l.index o;
    steps = λ s a. inl refl;
    done =
        Expires-Stale now l (record l { index = delete_key k l.index }) k (λ s a. inl refl) stale;
  }

  expired-Handled :
      (l' : Ledger) (b : Binding)
      → slot_at k l ≡ holds b
      → ends_now k b ≡ true
      → save_binding clock (record b { state = expired }) "expire" l ≡ ok (tt, l')
      → Handled now k l l'
  unfolding slot_at
  expired-Handled l' b here ends h =
      let (s, a, is, e) = under k.parts b l here in
      let at = inv.placed s a b e in
      let after = record b { state = expired } in
      let (stored, others) = save_binding-Stores clock after "expire" l l' h in
      let there : l.bindings b.scope b.address ≡ holds b =
        (λ i. l.bindings (at.0 i) (at.1 i)) ∙ e in
      let here' : slot_at k l' ≡ holds after =
        under_now k.parts s a l' is ∙ (λ i. l'.bindings (sym at.0 i) (sym at.1 i)) ∙ stored in
      record {
        indexed = save_binding-IsIndexed clock after "expire" l l' inv (λ f. absurd (cc f)) h;
        ordered = save_binding-IsOrdered clock after "expire" l l' o h;
        steps = λ x y. elim (same_slot x y b.scope b.address) [
          | inr other ↦ inl (others x y other)
          | inl (x_eq, y_eq) ↦ inr (
            b,
            (λ i. l.bindings (x_eq i) (y_eq i)) ∙ there,
            ground (arith, ends),
            ground (arith, ends),
            (λ i. l'.bindings (x_eq i) (y_eq i)) ∙ stored,
          )
        ];
        done = λ c g. expired-ends_now k b c (sym here' ∙ g);
      }

  pub expire_slot-Handled :
      (slot : Slot) (l' : Ledger)
      → slot_at k l ≡ slot
      → expire_slot clock k slot l ≡ ok (tt, l')
      → Handled now k l l'
  unfolding expire_slot modify
  expire_slot-Handled absent l' is h =
      subst (Handled now k l) (cc) (dropped-Handled (λ b e. absurd (cc (sym is ∙ e))))
  expire_slot-Handled corrupt l' is h =
      subst (Handled now k l) (cc) (dropped-Handled (λ b e. absurd (cc (sym is ∙ e))))
  expire_slot-Handled (holds b) l' is h = elim (Bool-cases (ends_now k b)) [
    | inl ends ↦ expired-Handled l' b is ends (rw ends at h)
    | inr stale ↦ dropped l' stale is (rw stale at h)
  ]
    where
      dropped :
          (l' : Ledger)
          → ends_now k b ≡ false
          → slot_at k l ≡ holds b
          → modify (λ l. record l { index = delete_key k l.index }) l ≡ ok (tt, l')
          → Handled now k l l'
      dropped l' stale is h = subst (Handled now k l) (cc) (
          dropped-Handled
            (λ c e. subst (λ x. ends_now k x ≡ false) (holds_inj b c (sym is ∙ e)) stale))
