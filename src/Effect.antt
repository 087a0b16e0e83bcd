-- ===== src/Effect.antt =====
-- Programs over the host: explicit state, errors, and the death of the process at any step.
use ghostd.Prelude.{ℕ, suc, String, Bool, true, false, Option, List}
use ghostd.Env.{Env, Fate, fine, fails, dies}
pub mod Triple
pub mod Same

-- The gRPC status codes that the RPCs return; `plain` is any other Go error.
pub data Code : Type 0 where
  unauthenticated permission_denied invalid_argument failed_precondition : Code
  internal deadline_exceeded unimplemented plain : Code

pub data Outcome {ℓ} (A : Type ℓ) : Type ℓ where
  done : A → Outcome A
  failed : Code → Outcome A
  crashed : Outcome A

-- A transient systemd timer, with the arguments of the command that it runs.
pub record Timer : Type 0 where
  pub unit : String
  pub on_active : ℕ
  pub revert_lease : String
  pub revert_domain : String

-- `files` is the store directory, `units` the memory of `Leases`, `step` counts external steps.
pub record Host (e : Env) : Type 0 where
  pub files : String → Option e.Blob
  pub units : List (String × String)
  pub timers : List Timer
  pub kernel : e.Kernel
  pub step : ℕ

abbrev pub M : Env → Type 0 → Type 0
M e A = Host e → Outcome A × Host e

module _ {e : Env} {A B : Type 0} where
  abbrev pub continue : Outcome A × Host e → (A → M e B) → Outcome B × Host e
  continue (done a, h) f = f a h
  continue (failed c, h) f = (failed c, h)
  continue (crashed, h) f = (crashed, h)

  infixl 5 ◌>>=◌
  unfoldable pub ◌>>=◌ : M e A → (A → M e B) → M e B
  ◌>>=◌ m f h = continue (m h) f

module _ {e : Env} {B : Type 0} where
  infixl 5 ◌>>◌
  abbrev pub ◌>>◌ : M e (Unit {0}) → M e B → M e B
  m >> k = m >>= λ _. k

module _ {e : Env} {A : Type 0} where
  unfoldable pub pure : A → M e A
  pure a h = (done a, h)

  unfoldable pub raise : Code → M e A
  raise c h = (failed c, h)

  -- A nil pointer that is followed: the process ends.
  unfoldable pub panic : M e A
  panic h = (crashed, h)

  unfoldable pub gets : (Host e → A) → M e A
  gets f h = (done (f h), h)

  -- if v, ok := o; !ok { return err }
  unfoldable pub or_fail : Code → Option A → M e A
  or_fail c o h = elim o [ Option.none ↦ (failed c, h) | Option.some a ↦ (done a, h) ]

  abbrev recode_outcome : Code → Outcome A × Host e → Outcome A × Host e
  recode_outcome c (done a, h) = (done a, h)
  recode_outcome c (failed _, h) = (failed c, h)
  recode_outcome c (crashed, h) = (crashed, h)

  -- status.Errorf(c, "%v", err)
  unfoldable pub recode : Code → M e A → M e A
  recode c m h = recode_outcome c (m h)

  abbrev handle_outcome : (Code → M e A) → Outcome A × Host e → Outcome A × Host e
  handle_outcome f (done a, h) = (done a, h)
  handle_outcome f (failed c, h) = f c h
  handle_outcome f (crashed, h) = (crashed, h)

  -- if err := m; err != nil { f }
  unfoldable pub on_error : M e A → (Code → M e A) → M e A
  on_error m f h = handle_outcome f (m h)

module _ {e : Env} where
  unfoldable pub require : Bool → Code → M e (Unit {0})
  require true c h = (done tt, h)
  require false c h = (failed c, h)

  abbrev ignore_outcome : Outcome (Unit {0}) × Host e → Outcome (Unit {0}) × Host e
  ignore_outcome (done a, h) = (done tt, h)
  ignore_outcome (failed _, h) = (done tt, h)
  ignore_outcome (crashed, h) = (crashed, h)

  -- _ = m, or an error that is only logged
  unfoldable pub ignore : M e (Unit {0}) → M e (Unit {0})
  ignore m h = ignore_outcome (m h)

  abbrev pub advance : Host e → Host e
  advance h = record h { step = suc h.step }

  -- One external step: its effect, or what is left where it fails or the process dies in it.
  unfoldable pub sys : (Host e → Host e) → (Host e → Host e) → M e (Unit {0})
  sys partial effect h = elim (e.fate h.step) [
    | fine ↦ (done tt, advance (effect h))
    | fails ↦ (failed plain, advance (partial h))
    | dies ↦ (crashed, advance (partial h))
  ]

  abbrev pub unchanged : Host e → Host e
  unchanged h = h

  -- A step that changes nothing: fsync, open, a command that reads.
  unfoldable pub probe : M e (Unit {0})
  unfolding sys
  probe = sys unchanged unchanged

  -- time.Now()
  unfoldable pub now : M e ℕ
  now h = (done (e.clock h.step), advance h)

  -- ctx.Err() != nil
  unfoldable pub ctx_err : M e Bool
  ctx_err h = (done (e.ctx_done h.step), advance h)
