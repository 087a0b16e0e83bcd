-- ===== src/Effect/Same.antt =====
-- Two hosts that differ in nothing but the count of external steps, which the second has more of.
use ghostd.Prelude.{◌≤◌, ◌≡◌, refl, arith}
use ghostd.Env.{Env}
use ghostd.Effect.{Host, advance}

pub record Same {e : Env} (h h' : Host e) : Type 0 where
  pub files : h'.files ≡ h.files
  pub units : h'.units ≡ h.units
  pub timers : h'.timers ≡ h.timers
  pub kernel : h'.kernel ≡ h.kernel
  pub later : h.step ≤ h'.step

pub Same-refl : {e : Env} (h : Host e) → Same h h
Same-refl h = record {
  files = refl;
  units = refl;
  timers = refl;
  kernel = refl;
  later = omega arith;
}

pub Same-advance : {e : Env} (h h' : Host e) → Same h h' → Same h (advance h')
Same-advance h h' s = record {
  files = s.files;
  units = s.units;
  timers = s.timers;
  kernel = s.kernel;
  later = omega (arith, s.later);
}
