-- ===== src/State/Arming.antt =====
-- Leases.Arm and Leases.Cancel in internal/state/lease.go: what of the host they reach.
use ghostd.Prelude.{
  ℕ, ◌≤◌, arith, String, ◌≡◌, refl, Bool, true, false, List, ◌∷◌, if◌then◌else◌, insert,
}
use ghostd.Env.{Env}
use ghostd.Effect.{Host, Timer, advance, pure}
use ghostd.Effect.Triple.{
  Triple, Triple-bind, Triple-sys, Triple-require, Triple-gets, Triple-or_fail,
}
use ghostd.State.Leases.{
  revert_timer, systemd_run, stop_timer, set_units, arm, cancel, unit_name, add_timer,
}

-- A predicate that looks at neither the timers nor the lease table nor, as it grows, the count of steps.
abbrev pub Timerless : {e : Env} → (Host e → Type 0) → Type 0
Timerless {e} P =
    (h : Host e) (ts : List Timer) (us : List (String × String)) (n : ℕ)
    → h.step ≤ n
    → P h
    → P (record h { timers = ts; units = us; step = n })

abbrev pub HasTimer : {e : Env} → Timer → Host e → Type 0
HasTimer t h = (others : List Timer) × (h.timers ≡ t ∷ others)

module _ {e : Env} {P : Host e → Type 0} (timerless : Timerless P) where
  Triple-systemd_run : (t : Timer) → Triple P (systemd_run t) (λ _ h. P h × HasTimer t h) (λ _. P)
  unfolding systemd_run
  Triple-systemd_run t =
      Triple-sys _ _ (λ h p. (timerless h _ _ _ (omega arith) p, (h.timers, refl)))
        (λ o h p. left_behind (e.timer_left h.step) h p)
    where
      left_behind : (b : Bool) (h : Host e) → P h → P (advance (if b then add_timer t h else h))
      left_behind true h p = timerless h _ _ _ (omega arith) p
      left_behind false h p = timerless h _ _ _ (omega arith) p

  -- On success the timer of the lease is armed.
  pub Triple-arm :
      (lease_id domain : String) (timeout : ℕ)
      → Triple P
          (arm lease_id domain timeout)
          (λ _ h. P h × HasTimer (revert_timer lease_id domain timeout) h)
          (λ _. P)
  unfolding arm pure
  Triple-arm lease_id domain timeout =
      Triple-require _ _ _
        (λ _.
          Triple-require _ _ _
            (λ _.
              Triple-bind (λ _ h. P h × HasTimer (revert_timer lease_id domain timeout) h) _ _
                (Triple-systemd_run _) λ _. Triple-set_units)
            (λ h p _. p))
        (λ h p _. p)
    where
      Triple-set_units :
          Triple
            (λ h. P h × HasTimer (revert_timer lease_id domain timeout) h)
            (set_units (insert lease_id (unit_name lease_id)))
            (λ _ h. P h × HasTimer (revert_timer lease_id domain timeout) h)
            (λ _. P)
      Triple-set_units = record { run = λ h p. (timerless h _ _ _ (omega arith) p.0, p.1) }

  pub Triple-cancel : (lease_id : String) → Triple P (cancel lease_id) (λ _. P) (λ _. P)
  unfolding cancel stop_timer set_units pure
  Triple-cancel lease_id = Triple-gets _ _ λ found.
      Triple-or_fail _ _ _
        (λ unit _.
          Triple-bind (λ _. P) _ _
            (Triple-sys _ _ (λ h p. timerless h _ _ _ (omega arith) p.0)
              (λ o h p. timerless h _ _ _ (omega arith) p.0))
            λ _. record { run = λ h p. timerless h _ _ _ (omega arith) p })
        (λ h p _. p.0)
