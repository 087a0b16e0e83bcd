-- ===== src/Ledger/Journal.antt =====
-- internal/addressbook/store.go: the events of the ledger, and Store.Events.
use ghostd.Prelude.{
  ℕ, zero, suc, ◌+◌, ◌-◌, ◌≤◌, ◌≡◌, refl, sym, ◌∙◌, ap, subst, arith, true, false, ◌||◌, List, [],
  ◌∷◌, ◌++◌, inl, inr, Bool-cases, if◌then◌else◌, ltb, leb, length, String,
}
use ghostd.Ledger.Binding.{Binding, Event}
use ghostd.Ledger.Saved.{save_binding-eq-ok}
use ghostd.Ledger.Store.{append_event, rewritten, save_binding}
use ghostd.Ledger.Tx.{Ledger, Result, ok, err, refused}

-- The cursor skips what the caller has seen and stops at the limit.
unfoldable pub take_after : ℕ → ℕ → List Event → List Event
take_after after zero es = []
take_after after (suc room) [] = []
take_after after (suc room) (e ∷ es) = elim (leb e.id after) [
  | true ↦ take_after after (suc room) es
  | false ↦ e ∷ take_after after room es
]

-- Store.Events, where each stored event decodes: save writes no other.
unfoldable pub events_after : ℕ → ℕ → Ledger → Result (List Event)
unfolding take_after
events_after after limit l =
    if ltb limit 1 || ltb 1000 limit then err refused else ok (take_after after limit l.events)

-- The events have the numbers after n, one by one.
abbrev pub Counts : ℕ → List Event → Type 0
Counts n [] = Unit {0}
Counts n (e ∷ es) = (e.id ≡ suc n) × Counts (suc n) es

-- The events have the numbers from 1 to the sequence of the bucket.
pub record IsLogged (l : Ledger) : Type 0 where
  pub numbered : Counts 0 l.events
  pub last : l.sequence ≡ length l.events

Counts-append :
    (n : ℕ) (es : List Event) (e : Event)
    → Counts n es
    → e.id ≡ suc (n + length es)
    → Counts n (es ++ (e ∷ []))
Counts-append n [] e all h = (omega (arith, h), tt)
Counts-append n (x ∷ es) e all h = (all.0, Counts-append (suc n) es e all.1 (omega (arith, h)))

length-append_one : (es : List Event) (e : Event) → length (es ++ (e ∷ [])) ≡ suc (length es)
length-append_one [] e = refl
length-append_one (x ∷ es) e = ap suc (length-append_one es e)

append_event-IsLogged :
    (clock : ℕ → ℕ) (kind message : String) (b : Binding) (l : Ledger)
    → IsLogged l
    → IsLogged (append_event clock kind message b l)
unfolding append_event
append_event-IsLogged clock kind message b l v =
    let e : Event = record {
      message = message;
      id = suc l.sequence;
      time = clock (suc l.sequence);
      kind = kind;
      binding = b;
    } in
    record {
      numbered = Counts-append 0 l.events e v.numbered (omega (arith, v.last));
      last = omega (arith, v.last, length-append_one l.events e);
    }

rewritten-IsLogged : (old b : Binding) (l : Ledger) → IsLogged l → IsLogged (rewritten old b l)
unfolding rewritten
rewritten-IsLogged old b l v = record { numbered = v.numbered; last = v.last }

abbrev pub least : ℕ → ℕ → ℕ
least m n = if leb m n then m else n

-- All that is new is taken, while there is room.
take_after-new :
    (after room n : ℕ) (es : List Event)
    → Counts n es
    → after ≤ n
    → Counts n (take_after after room es)
      × (length (take_after after room es) ≡ least room (length es))
unfolding take_after
take_after-new after zero n es all h = (tt, ground arith)
take_after-new after (suc room) n [] all h = (tt, ground arith)
take_after-new after (suc room) n (e ∷ es) all h = elim (Bool-cases (leb e.id after)) [
  | inl seen ↦ absurd (ground (arith, all.0, seen))
  | inr new ↦
      let rest = take_after-new after room (suc n) es all.1 (omega (arith, h)) in
      rw (new, take_after) ((all.0, rest.0), ground (arith, rest.1))
]

-- From numbers after n, those after `after`, as many as there is room for.
take_after-Counts :
    (after room n : ℕ) (es : List Event)
    → Counts n es
    → n ≤ after
    → Counts after (take_after after room es)
      × (length (take_after after room es) ≡ least room (n + length es - after))
unfolding take_after
take_after-Counts after zero n es all h = (tt, ground arith)
take_after-Counts after (suc room) n [] all h = (tt, ground (arith, h))
take_after-Counts after (suc room) n (e ∷ es) all h = elim (Bool-cases (leb e.id after)) [
  | inl seen ↦
      let rest =
        take_after-Counts after (suc room) (suc n) es all.1 (ground (arith, all.0, seen)) in
      rw (seen, take_after) (rest.0, ground (arith, rest.1))
  | inr new ↦
      let same : n ≡ after = ground (arith, all.0, new, h) in
      let rest = take_after-new after room (suc n) es all.1 (ground (arith, same)) in
      rw (new, take_after)
        (
          (all.0 ∙ ap suc same, subst (λ m. Counts (suc m) (take_after after room es)) same rest.0),
          ground (arith, rest.1, same),
        )
]

pub save_binding-IsLogged :
    (clock : ℕ → ℕ) (b : Binding) (kind : String) (l l' : Ledger)
    → IsLogged l
    → save_binding clock b kind l ≡ ok (tt, l')
    → IsLogged l'
save_binding-IsLogged clock b kind l l' v h =
    let (old, read, after) = save_binding-eq-ok clock b kind l l' h in
    subst IsLogged (sym after)
      (append_event-IsLogged clock kind "" b (rewritten old b l) (rewritten-IsLogged old b l v))

-- If the events are numbered from 1 to the sequence of their bucket, a save of a binding that
-- succeeds keeps them so and adds the next number; and from then on a reader that has seen the
-- events up to a number and asks for the next ones, one to a thousand, gets exactly those that follow,
-- one by one with none left out, as many as there are or as it asked for.
pub events_after-Counts :
    (clock : ℕ → ℕ) (b : Binding) (kind : String) (l l' : Ledger) (after limit : ℕ)
    → IsLogged l
    → save_binding clock b kind l ≡ ok (tt, l')
    → after ≤ l'.sequence
    → 1 ≤ limit
    → limit ≤ 1000
    → (l'.sequence ≡ suc l.sequence)
      × IsLogged l'
      × ((out : List Event) × (events_after after limit l' ≡ ok out)
          × Counts after out
          × (length out ≡ least limit (l'.sequence - after)))
unfolding events_after append_event rewritten
events_after-Counts clock b kind l l' after limit v h seen some_room few =
    let logged = save_binding-IsLogged clock b kind l l' v h in
    let found = take_after-Counts after limit 0 l'.events logged.numbered (omega arith) in
    (
      next,
      logged,
      (
        take_after after limit l'.events,
        ground (arith, some_room, few),
        found.0,
        ground (arith, found.1, logged.last),
      ),
    )
  where
    unfolded :
        (old : Binding)
        → (append_event clock kind "" b (rewritten old b l)).sequence ≡ suc l.sequence
    unfolded old = refl

    next : l'.sequence ≡ suc l.sequence
    next =
        let (old, read, after) = save_binding-eq-ok clock b kind l l' h in
        ap (λ x. x.sequence) after ∙ unfolded old
