-- ===== src/Effect/Triple.antt =====
-- Preconditions and postconditions of programs. An ending other than success is `some c` for an
-- error with code c, and `none` for the death of the process.
use ghostd.Prelude.{
  ℕ, ◌≤◌, ◌<◌, arith, ◌≡◌, refl, sym, subst, Bool, true, false, Option, none, some, if◌then◌else◌,
}
use ghostd.Env.{Env, Fate, fine, fails, dies}
use ghostd.Effect.{
  Host, M, Outcome, done, failed, crashed, Code, plain, continue, ◌>>=◌, pure, raise, gets, or_fail,
  recode, recode_outcome, require, ignore, ignore_outcome, handle_outcome, on_error, advance, sys,
  ◌>>◌, now, ctx_err,
}

module _ {e : Env} {A : Type 0} where
  abbrev pub After :
      (A → Host e → Type 0) → (Option Code → Host e → Type 0) → Outcome A × Host e → Type 0
  After Q E (done a, h) = Q a h
  After Q E (failed c, h) = E (some c) h
  After Q E (crashed, h) = E none h

  pub record Triple (P : Host e → Type 0) (m : M e A) (Q : A → Host e → Type 0)
      (E : Option Code → Host e → Type 0) : Type 0 where
    pub run : (h : Host e) → P h → After Q E (m h)

module _ {e : Env} {A B : Type 0} where
  After-continue :
      (R : A → Host e → Type 0) (Q : B → Host e → Type 0) (E : Option Code → Host e → Type 0)
      (f : A → M e B)
      → ((a : A) → Triple (R a) (f a) Q E)
      → (r : Outcome A × Host e) → After R E r
      → After Q E (continue r f)
  After-continue R Q E f kf (done a, h) q = (kf a).run h q
  After-continue R Q E f kf (failed c, h) q = q
  After-continue R Q E f kf (crashed, h) q = q

  pub Triple-bind :
      {P : Host e → Type 0} {Q : B → Host e → Type 0} {E : Option Code → Host e → Type 0}
      (R : A → Host e → Type 0) (m : M e A) (f : A → M e B)
      → Triple P m R E
      → ((a : A) → Triple (R a) (f a) Q E)
      → Triple P (m >>= f) Q E
  unfolding ◌>>=◌
  Triple-bind {Q} {E} R m f km kf = record {
    run = λ h p. After-continue R Q E f kf (m h) (km.run h p);
  }

module _ {e : Env} {A : Type 0} {P : Host e → Type 0} {Q : A → Host e → Type 0}
    {E : Option Code → Host e → Type 0} where
  pub Triple-pure : (a : A) → ((h : Host e) → P h → Q a h) → Triple P (pure a) Q E
  unfolding pure
  Triple-pure a k = record { run = k }

  pub Triple-read : (g : Host e → A) → ((h : Host e) → P h → Q (g h) h) → Triple P (gets g) Q E
  unfolding gets
  Triple-read g k = record { run = k }

  pub Triple-or_fail_last :
      (c : Code) (o : Option A)
      → ((a : A) (h : Host e) → o ≡ some a → P h → Q a h)
      → ((h : Host e) → P h → E (some c) h)
      → Triple P (or_fail c o) Q E
  unfolding or_fail
  Triple-or_fail_last c none kq ke = record { run = ke }
  Triple-or_fail_last c (some a) kq ke = record { run = λ h p. kq a h refl p }

  pub Triple-raise : (c : Code) → ((h : Host e) → P h → E (some c) h) → Triple P (raise c) Q E
  unfolding raise
  Triple-raise c k = record { run = k }

  pub Triple-if :
      (b : Bool) (m n : M e A)
      → (b ≡ true → Triple P m Q E)
      → (b ≡ false → Triple P n Q E)
      → Triple P (if b then m else n) Q E
  Triple-if true m n km kn = km refl
  Triple-if false m n km kn = kn refl

  pub Triple-require :
      (b : Bool) (c : Code) (m : M e A)
      → (b ≡ true → Triple P m Q E)
      → ((h : Host e) → P h → b ≡ false → E (some c) h)
      → Triple P (require b c >> m) Q E
  unfolding ◌>>=◌ require
  Triple-require true c m km k = record { run = λ h p. (km refl).run h p }
  Triple-require false c m km k = record { run = λ h p. k h p refl }

module _ {e : Env} {A : Type 0} where
  pub After-weaken :
      (Q Q' : A → Host e → Type 0) (E E' : Option Code → Host e → Type 0)
      → ((a : A) (h : Host e) → Q' a h → Q a h)
      → ((o : Option Code) (h : Host e) → E' o h → E o h)
      → (r : Outcome A × Host e) → After Q' E' r
      → After Q E r
  After-weaken Q Q' E E' kq ke (done a, h) q = kq a h q
  After-weaken Q Q' E E' kq ke (failed c, h) q = ke (some c) h q
  After-weaken Q Q' E E' kq ke (crashed, h) q = ke none h q

  -- An error meets I, and what handles it starts from I; the death of the process meets I too.
  After-handle :
      (Q : A → Host e → Type 0) (E : Option Code → Host e → Type 0) (I : Host e → Type 0)
      (f : Code → M e A)
      → ((c : Code) → Triple I (f c) Q E)
      → ((h : Host e) → I h → E none h)
      → (r : Outcome A × Host e) → After Q (λ o. I) r
      → After Q E (handle_outcome f r)
  After-handle Q E I f kf k (done a, h) q = q
  After-handle Q E I f kf k (failed c, h) q = (kf c).run h q
  After-handle Q E I f kf k (crashed, h) q = k h q

  After-recode :
      (Q : A → Host e → Type 0) (E : Option Code → Host e → Type 0) (I : Host e → Type 0) (c : Code)
      → ((o : Option Code) (h : Host e) → I h → E o h)
      → (r : Outcome A × Host e) → After Q (λ o h. I h) r
      → After Q E (recode_outcome c r)
  After-recode Q E I c k (done a, h) q = q
  After-recode Q E I c k (failed x, h) q = k (some c) h q
  After-recode Q E I c k (crashed, h) q = k none h q

module _ {e : Env} {A : Type 0} {P : Host e → Type 0} {Q : A → Host e → Type 0}
    {E : Option Code → Host e → Type 0} where
  pub Triple-weaken :
      (P' : Host e → Type 0) (Q' : A → Host e → Type 0) (E' : Option Code → Host e → Type 0)
      (m : M e A)
      → Triple P' m Q' E'
      → ((h : Host e) → P h → P' h)
      → ((a : A) (h : Host e) → Q' a h → Q a h)
      → ((o : Option Code) (h : Host e) → E' o h → E o h)
      → Triple P m Q E
  Triple-weaken P' Q' E' m t kp kq ke = record {
    run = λ h p. After-weaken Q Q' E E' kq ke (m h) (t.run h (kp h p));
  }

  -- An error under a new code; the precondition for both endings is one predicate.
  pub Triple-recode :
      (I : Host e → Type 0) (c : Code) (m : M e A)
      → Triple P m Q (λ o h. I h)
      → ((o : Option Code) (h : Host e) → I h → E o h)
      → Triple P (recode c m) Q E
  unfolding recode
  Triple-recode I c m t k = record { run = λ h p. After-recode Q E I c k (m h) (t.run h p) }

  pub Triple-on_error :
      (I : Host e → Type 0) (m : M e A) (f : Code → M e A)
      → Triple P m Q (λ o. I)
      → ((c : Code) → Triple I (f c) Q E)
      → ((h : Host e) → I h → E none h)
      → Triple P (on_error m f) Q E
  unfolding on_error
  Triple-on_error I m f t kf k = record { run = λ h p. After-handle Q E I f kf k (m h) (t.run h p) }

module _ {e : Env} {A X : Type 0} {P : X → Host e → Type 0} {Q : A → Host e → Type 0}
    {E : Option Code → Host e → Type 0} where
  -- What the precondition says there is, is given.
  pub Triple-exists :
      (m : M e A) → ((x : X) → Triple (P x) m Q E) → Triple (λ h. (x : X) × P x h) m Q E
  Triple-exists m k = record { run = λ h p. (k p.0).run h p.1 }

module _ {e : Env} {A B : Type 0} {P : Host e → Type 0} {Q : B → Host e → Type 0}
    {E : Option Code → Host e → Type 0} where
  pub Triple-or_fail :
      (c : Code) (o : Option A) (f : A → M e B)
      → ((a : A) → o ≡ some a → Triple P (f a) Q E)
      → ((h : Host e) → P h → o ≡ none → E (some c) h)
      → Triple P (or_fail c o >>= f) Q E
  unfolding ◌>>=◌ or_fail
  Triple-or_fail c none f kf k = record { run = λ h p. k h p refl }
  Triple-or_fail c (some a) f kf k = record { run = λ h p. (kf a refl).run h p }

  -- The value of a program's argument is known where the precondition gives it.
  pub Triple-at :
      (f : A → M e B) (a b : A)
      → ((h : Host e) → P h → a ≡ b)
      → Triple P (f b) Q E
      → Triple P (f a) Q E
  Triple-at f a b eq t = record {
    run = λ h p. subst (λ x. After Q E (f x h)) (sym (eq h p)) (t.run h p);
  }

  pub Triple-gets :
      (g : Host e → A) (f : A → M e B)
      → ((a : A) → Triple (λ h. P h × (g h ≡ a)) (f a) Q E)
      → Triple P (gets g >>= f) Q E
  unfolding ◌>>=◌ gets
  Triple-gets g f kf = record { run = λ h p. (kf (g h)).run h (p, refl) }

module _ {e : Env} {B : Type 0} {P : Host e → Type 0} {Q : B → Host e → Type 0}
    {E : Option Code → Host e → Type 0} (timeless : (h : Host e) → P h → P (advance h)) where
  pub Triple-now :
      (f : ℕ → M e B) → ((n : ℕ) → Triple P (f (e.clock n)) Q E) → Triple P (now >>= f) Q E
  unfolding ◌>>=◌ now
  Triple-now f kf = record { run = λ h p. (kf h.step).run (advance h) (timeless h p) }

  -- The reading is numbered by a step that is made by then, and not before those already made.
  pub Triple-reading :
      (first : ℕ) (f : ℕ → M e B)
      → ((h : Host e) → P h → first ≤ h.step)
      → ((n : ℕ) → first ≤ n → Triple (λ h. P h × (n < h.step)) (f (e.clock n)) Q E)
      → Triple P (now >>= f) Q E
  unfolding ◌>>=◌ now
  Triple-reading first f from kf = record {
    run = λ h p. (kf h.step (from h p)).run (advance h) (timeless h p, omega arith);
  }

  pub Triple-ctx_err :
      (f : Bool → M e B) → ((b : Bool) → Triple P (f b) Q E) → Triple P (ctx_err >>= f) Q E
  unfolding ◌>>=◌ ctx_err
  Triple-ctx_err f kf = record {
    run = λ h p. (kf (e.ctx_done h.step)).run (advance h) (timeless h p);
  }

module _ {e : Env} {P : Host e → Type 0} {Q : Unit {0} → Host e → Type 0}
    {E : Option Code → Host e → Type 0} where
  pub Triple-sys :
      (partial effect : Host e → Host e)
      → ((h : Host e) → P h → Q tt (advance (effect h)))
      → ((o : Option Code) (h : Host e) → P h → E o (advance (partial h)))
      → Triple P (sys partial effect) Q E
  unfolding sys
  Triple-sys partial effect kq ke = record { run = λ h p. by_fate (e.fate h.step) h p }
    where
      by_fate :
          (f : Fate) (h : Host e)
          → P h
          → After Q E (elim f [
            | fine ↦ (done tt, advance (effect h))
            | fails ↦ (failed plain, advance (partial h))
            | dies ↦ (crashed, advance (partial h))
          ])
      by_fate fine h p = kq h p
      by_fate fails h p = ke (some plain) h p
      by_fate dies h p = ke none h p

  pub Triple-require_last :
      (b : Bool) (c : Code)
      → ((h : Host e) → P h → b ≡ true → Q tt h)
      → ((h : Host e) → P h → E (some c) h)
      → Triple P (require b c) Q E
  unfolding require
  Triple-require_last true c kq ke = record { run = λ h p. kq h p refl }
  Triple-require_last false c kq ke = record { run = ke }

  pub Triple-ignore :
      (m : M e (Unit {0})) → Triple P m Q (λ o h. Q tt h × E none h) → Triple P (ignore m) Q E
  unfolding ignore
  Triple-ignore m t = record { run = λ h p. ignored (m h) (t.run h p) }
    where
      ignored :
          (r : Outcome (Unit {0}) × Host e)
          → After Q (λ o h. Q tt h × E none h) r
          → After Q E (ignore_outcome r)
      ignored (done tt, h) q = q
      ignored (failed c, h) q = q.0
      ignored (crashed, h) q = q.1
