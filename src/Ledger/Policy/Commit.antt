-- ===== src/Ledger/Policy/Commit.antt =====
-- internal/addressbook/allocate.go: a request that commits to its address, from end to end.
use ghostd.Prelude.{
  ℕ, suc, ◌⊎◌, inl, inr, Bool-cases, String, ◌==◌, ◌≡◌, refl, ◌∙◌, ap, Bool, true, false, ◌&&◌,
  ◌||◌, not, Option, some, if◌then◌else◌,
}
use ghostd.Ledger.Admit.{admit}
use ghostd.Ledger.Allocate.{is_held, is_own, later, preferred, allowed, look, available}
use ghostd.Ledger.Binding.{Binding, Association, active}
use ghostd.Ledger.Config.{Config, Scope}
use ghostd.Ledger.Grant.{
  allocate, allocate_for, allocating, making, choose, chosen, from_pool, grant_of, grant_kind,
}
use ghostd.Ledger.Net.{Net}
use ghostd.Ledger.Policy.{grant_of_lem, Stores, save_binding-Stores}
use ghostd.Ledger.Policy.Taken.{IsTaken, busy-IsTaken, usable-free}
use ghostd.Ledger.Saved.{>>=-ok, save_binding-ok}
use ghostd.Ledger.Store.{read_binding, save_binding, read_association, rewritten, append_event}
use ghostd.Ledger.Tx.{
  Ledger, Tx, Result, ok, err, ◌>>=◌, pure, require, must, update, end_of, unavailable, fail, Fault,
}

>>=-err :
    {A B : Type 0} (m : Tx A) (f : A → Tx B) (l : Ledger) (c : Fault)
    → m l ≡ err c
    → (m >>= f) l ≡ err c
unfolding ◌>>=◌
>>=-err m f l c h = rw h refl

module _ (e : Net) (clock : ℕ → ℕ) (now : ℕ) (c : Config) (s : Scope)
    (scope_id client mac claimed ip : String) (l : Ledger) (may : Bool) (old : Binding)
    (known : Option Association) (permitted : allowed e s client mac ip ≡ some may)
    (old_read : read_binding scope_id ip l ≡ ok (old, l))
    (known_read : read_association client l ≡ ok (known, l)) where
  look_lem :
      (m : Bool)
      → look now scope_id client ip m l ≡ ok (m && (not (is_held now old) || is_own client old), l)
  unfolding look pure
  look_lem false = refl
  look_lem true =
      >>=-ok (read_binding scope_id ip) (λ b. pure (not (is_held now b) || is_own client b)) l l old
        old_read

  available_lem :
      available e now s scope_id client mac ip l
      ≡ ok (may && (not (is_held now old) || is_own client old), l)
  unfolding available must
  available_lem =
      >>=-ok (must (allowed e s client mac ip)) (look now scope_id client ip) l l may
        (rw permitted refl)
      ∙ look_lem may

  making_lem :
      making e clock now c s scope_id client mac claimed ip true old l
      ≡ ok (
        grant_of e now c s scope_id client mac claimed ip true old known,
        append_event clock
            (grant_kind now client old true)
            ""
            (grant_of e now c s scope_id client mac claimed ip true old known)
            (rewritten old (grant_of e now c s scope_id client mac claimed ip true old known) l),
      )
  unfolding making pure
  making_lem =
      let make =
        λ (k : Option Association). grant_of e now c s scope_id client mac claimed ip true old k in
      let kind = grant_kind now client old true in
      let facts = grant_of_lem e now c s scope_id client mac claimed ip true old known in
      >>=-ok (read_association client)
        (λ k. save_binding clock (make k) kind >>= λ _. pure (make k)) l l known known_read
      ∙ >>=-ok (save_binding clock (make known) kind) (λ _. pure (make known)) l
          (append_event clock kind "" (make known) (rewritten old (make known) l)) tt
          (save_binding-ok clock (make known) old kind l
            ((λ i. read_binding (facts.0 i) (facts.1 i) l) ∙ old_read))

  allocating_lem :
      (usable : Bool)
      → (ip == "") ≡ false
      → available e now s scope_id client mac ip l ≡ ok (usable, l)
      → allocating e clock now c s scope_id client mac claimed ip true l ≡ (
          if usable
          then making e clock now c s scope_id client mac claimed ip true old l
          else err unavailable)
  unfolding allocating preferred choose require pure fail
  allocating_lem usable named looked =
      let look_up = λ (x : String). read_binding scope_id x >>= λ b.
      making e clock now c s scope_id client mac claimed x true b in
      let pick = λ (x : String). choose e now s scope_id client mac x true >>= look_up in
      let pool = from_pool e now s scope_id client mac in
      >>=-ok (require (not (true && ip == "")) unavailable) (λ _. pure ip >>= pick) l l tt
        (rw named refl)
      ∙ >>=-ok (pure ip) pick l l ip refl
      ∙ settle_on usable look_up pool (
          >>=-ok (available e now s scope_id client mac ip) (chosen true ip pool) l l usable looked)
      ∙ ap (λ (t : Result (Binding × Ledger)). if usable then t else err unavailable)
          (>>=-ok (read_binding scope_id ip)
            (λ b. making e clock now c s scope_id client mac claimed ip true b) l l old old_read)
    where
      settle_on :
          (u : Bool) (f : String → Tx Binding) (pool : Tx String)
          → choose e now s scope_id client mac ip true l ≡ chosen true ip pool u l
          → (choose e now s scope_id client mac ip true >>= f) l
            ≡ (if u then f ip l else err unavailable)
      settle_on true f pool g = >>=-ok (choose e now s scope_id client mac ip true) f l l ip g
      settle_on false f pool g =
          >>=-err (choose e now s scope_id client mac ip true) f l unavailable g

  allocate_answer :
      allocate_for e true clock now c scope_id client claimed ip true (some (s, mac)) l
      ≡ end_of true l (allocating e clock now c s scope_id client mac claimed ip true l)
  unfolding allocate_for update
  allocate_answer = refl

  answered :
      (ip == "") ≡ false
      → end_of true l (allocating e clock now c s scope_id client mac claimed ip true l) ≡ (
          if may && (not (is_held now old) || is_own client old)
          then (
            ok (grant_of e now c s scope_id client mac claimed ip true old known),
            append_event clock
                (grant_kind now client old true)
                ""
                (grant_of e now c s scope_id client mac claimed ip true old known)
                (rewritten old
                  (grant_of e now c s scope_id client mac claimed ip true old known)
                  l),
          )
          else (err unavailable, l))
  unfolding end_of
  answered named =
      ap (end_of true l)
        (allocating_lem (may && (not (is_held now old) || is_own client old)) named available_lem)
      ∙ split (may && (not (is_held now old) || is_own client old))
    where
      split :
          (u : Bool)
          → end_of true l (
              if u
              then making e clock now c s scope_id client mac claimed ip true old l
              else err unavailable)
            ≡ (if u
                then (
                  ok (grant_of e now c s scope_id client mac claimed ip true old known),
                  append_event clock
                      (grant_kind now client old true)
                      ""
                      (grant_of e now c s scope_id client mac claimed ip true old known)
                      (rewritten old
                        (grant_of e now c s scope_id client mac claimed ip true old known)
                        l),
                )
                else (err unavailable, l))
      split true = ap (end_of true l) making_lem
      split false = refl

-- The answer as the code computes it from what it has read.
allocate_commit-run :
    (e : Net) (clock : ℕ → ℕ) (now : ℕ) (c : Config)
    (scope_id client mac claimed requested : String) (l : Ledger) (s : Scope) (hw : String)
    (may : Bool) (old : Binding) (known : Option Association)
    → admit e c scope_id client mac ≡ some (s, hw)
    → (requested == "") ≡ false
    → allowed e s client hw requested ≡ some may
    → read_binding scope_id requested l ≡ ok (old, l)
    → read_association client l ≡ ok (known, l)
    → allocate e true clock now c scope_id client mac claimed requested true l ≡ (
        if may && (not (is_held now old) || is_own client old)
        then (
          ok (grant_of e now c s scope_id client hw claimed requested true old known),
          append_event clock
              (grant_kind now client old true)
              ""
              (grant_of e now c s scope_id client hw claimed requested true old known)
              (rewritten old
                (grant_of e now c s scope_id client hw claimed requested true old known)
                l),
        )
        else (err unavailable, l))
unfolding allocate
allocate_commit-run e clock now c scope_id client mac claimed requested l s hw may old known
      admitted named permitted old_read known_read =
    ap (λ o. allocate_for e true clock now c scope_id client claimed requested true o l) admitted
    ∙ allocate_answer e clock now c s scope_id client hw claimed requested l may old known permitted
        old_read known_read
    ∙ answered e clock now c s scope_id client hw claimed requested l may old known permitted
        old_read known_read named

-- The answer is a binding of this client for the address, active for the lease time of the scope from
-- now, which is stored in its slot with one event, while every other slot is as it was.
pub record Commits (now : ℕ) (s : Scope) (scope_id client requested : String) (l : Ledger)
    (answer : Result Binding × Ledger) : Type 0 where
  pub b : Binding
  pub l' : Ledger
  pub is : answer ≡ (ok b, l')
  pub for_client : (b.scope ≡ scope_id) × (b.client ≡ client) × (b.address ≡ requested)
  pub lasting : (b.state ≡ active) × (b.end ≡ later now s.lease_seconds)
  pub stored : Stores l l' b
  pub logged : l'.sequence ≡ suc l.sequence

-- A request that passes the checks before the transaction and commits to an address that it names,
-- where the binding at the address and the association of the client can be read, whether the scope
-- allows the client the address is known, and the database can write. Either the scope allows it,
-- the address is not held for another client or as declined, and the client gets it; or the scope
-- does not allow it, or the address is so held, and the client gets the error that the address is
-- unavailable, with the ledger as it was.
pub allocate_commit :
    (e : Net) (clock : ℕ → ℕ) (now : ℕ) (c : Config)
    (scope_id client mac claimed requested : String) (l : Ledger) (s : Scope) (hw : String)
    (may : Bool) (old : Binding) (known : Option Association)
    → admit e c scope_id client mac ≡ some (s, hw)
    → (requested == "") ≡ false
    → allowed e s client hw requested ≡ some may
    → read_binding scope_id requested l ≡ ok (old, l)
    → read_association client l ≡ ok (known, l)
    → ((may ≡ true)
        × ¬ IsTaken now client old
        × Commits now s scope_id client requested l
            (allocate e true clock now c scope_id client mac claimed requested true l))
      ⊎ (((may ≡ false) ⊎ IsTaken now client old)
          × (allocate e true clock now c scope_id client mac claimed requested true l
              ≡ (err unavailable, l)))
unfolding append_event rewritten
allocate_commit e clock now c scope_id client mac claimed requested l s hw may old known admitted
      named permitted old_read known_read =
    let run =
      allocate_commit-run e clock now c scope_id client mac claimed requested l s hw may old known
        admitted named permitted old_read known_read in
    let result = grant_of e now c s scope_id client hw claimed requested true old known in
    let kind = grant_kind now client old true in
    let facts = grant_of_lem e now c s scope_id client hw claimed requested true old known in
    let l' = append_event clock kind "" result (rewritten old result l) in
    let saved : save_binding clock result kind l ≡ ok (tt, l') =
      save_binding-ok clock result old kind l
        ((λ i. read_binding (facts.0 i) (facts.1 i) l) ∙ old_read) in
    elim (Bool-cases may) [
      | inr refused ↦ inr (inl refused, rw refused at run)
      | inl fine ↦ elim (Bool-cases (not (is_held now old) || is_own client old)) [
        | inr busy ↦ inr (inr (busy-IsTaken now client old busy), rw (fine, busy) at run)
        | inl usable ↦ inl (
          fine,
          usable-free now client old usable,
          record {
            b = result;
            l' = l';
            is = rw (fine, usable) at run;
            for_client = (facts.0, facts.2, facts.1);
            lasting = ((facts.3.1 refl).0, (facts.3.1 refl).1);
            stored = save_binding-Stores clock result kind l l' saved;
            logged = refl;
          },
        )
      ]
    ]
