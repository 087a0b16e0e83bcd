-- ===== src/Ledger/Owned.antt =====
-- internal/addressbook/allocate.go: who may give an address back.
use ghostd.Prelude.{
  ℕ, String, ◌==◌, ◌≡◌, refl, ◌∙◌, ap, subst, arith, Bool, true, false, ◌&&◌, ◌||◌, inl, inr,
  if◌then◌else◌, ltb,
}
use ghostd.Ledger.Binding.{Binding, is_active, is_offered, no_binding}
use ghostd.Ledger.Indexed.Save.{IsIndexed}
use ghostd.Ledger.Release.{release, releasing, let_go}
use ghostd.Ledger.Saved.{Reads, read_binding-Reads, >>=-ok, save_binding-ok}
use ghostd.Ledger.Store.{read_binding, save_binding, rewritten, append_event}
use ghostd.Ledger.Tx.{Ledger, holds, Tx, ok, err, ◌>>=◌, ◌>>◌, require, update, end_of, refused}

-- The binding is the client's, in force, and a lease or an offer.
abbrev pub may_release : ℕ → String → Binding → Bool
may_release now client b =
    b.client == client && (ltb now b.end && (is_active b.state || is_offered b.state))

stored_if_released :
    (now : ℕ) (client s a : String) (b : Binding) (l : Ledger)
    → Reads l s a b
    → may_release now client b ≡ true
    → l.bindings s a ≡ holds b
stored_if_released now client s a b l (inr here) h = here
stored_if_released now client s a b l (inl (gone, zero_b)) h =
    absurd (never (subst (λ x. may_release now client x ≡ true) zero_b h))
  where
    never : may_release now client no_binding ≡ true → ⊥
    never g = ground arith

module _ (clock : ℕ → ℕ) (now : ℕ) (scope client ip : String) (decline : Bool) (l : Ledger)
    (b : Binding) (inv : IsIndexed l) (read : read_binding scope ip l ≡ ok (b, l)) where
  abbrev rest : Tx (Unit {0})
  rest =
      require (may_release now client b) refused
      >> save_binding clock (let_go now decline b) (if decline then "decline" else "release")

  let_go_slot :
      (d : Bool) → ((let_go now d b).scope ≡ b.scope) × ((let_go now d b).address ≡ b.address)
  unfolding let_go
  let_go_slot true = (refl, refl)
  let_go_slot false = (refl, refl)

  released_lem :
      (may : Bool)
      → may_release now client b ≡ may
      → rest l ≡ (
          if may
          then ok (
            tt,
            append_event clock
                (if decline then "decline" else "release")
                ""
                (let_go now decline b)
                (rewritten b (let_go now decline b) l),
          )
          else err refused)
  unfolding require ◌>>=◌
  released_lem false is = rw is refl
  released_lem true is =
      let here =
        stored_if_released now client scope ip b l (read_binding-Reads scope ip l l b read).0 is in
      let at = inv.placed scope ip b here in
      let slot = let_go_slot decline in
      rw is (
        save_binding-ok clock (let_go now decline b) b (if decline then "decline" else "release") l
          ((λ i. read_binding ((slot.0 ∙ at.0) i) ((slot.1 ∙ at.1) i) l) ∙ read))

-- If the bindings and the indices agree, the binding at the slot can be read and the database can
-- write: a release or a decline goes through exactly when the binding is the client's, ends later
-- than now and is active or offered, and then the binding is written, as released now or as declined
-- for ten minutes, with its indices and its event; otherwise it is refused and the ledger is as it
-- was.
pub release_owner :
    (clock : ℕ → ℕ) (now : ℕ) (scope client ip : String) (decline : Bool) (l : Ledger) (b : Binding)
    → IsIndexed l
    → read_binding scope ip l ≡ ok (b, l)
    → release true clock now scope client ip decline l ≡ (
        if may_release now client b
        then (
          ok tt,
          append_event clock
              (if decline then "decline" else "release")
              ""
              (let_go now decline b)
              (rewritten b (let_go now decline b) l),
        )
        else (err refused, l))
unfolding release releasing update end_of
release_owner clock now scope client ip decline l b inv read =
    ap (end_of true l) (
      >>=-ok (read_binding scope ip)
        (λ x.
          require (may_release now client x) refused
          >> save_binding clock (let_go now decline x) (if decline then "decline" else "release"))
        l l b read
      ∙ released_lem clock now scope client ip decline l b inv read (may_release now client b) refl)
    ∙ split (may_release now client b)
  where
    split :
        (may : Bool)
        → end_of true l (
            if may
            then ok (
              tt,
              append_event clock
                  (if decline then "decline" else "release")
                  ""
                  (let_go now decline b)
                  (rewritten b (let_go now decline b) l),
            )
            else err refused)
          ≡ (if may
              then (
                ok tt,
                append_event clock
                    (if decline then "decline" else "release")
                    ""
                    (let_go now decline b)
                    (rewritten b (let_go now decline b) l),
              )
              else (err refused, l))
    split true = refl
    split false = refl
