-- ===== src/State/Leases.antt =====
-- internal/state/lease.go: the revert timer of a lease, armed and cancelled through systemd.
use ghostd.Prelude.{
  ℕ, ◌/◌, String, ◌==◌, List, [], ◌∷◌, ltb, if◌then◌else◌, joined, lookup, insert, erase, not,
}
use ghostd.Env.{Env}
use ghostd.Effect.{Host, M, Timer, ◌>>=◌, ◌>>◌, pure, gets, or_fail, require, plain, sys, unchanged}

abbrev pub second : ℕ
second = 1_000_000_000

abbrev pub unit_name : String → String
unit_name lease_id = joined "ghostd-revert-" lease_id

-- The arguments of systemd-run that say when the unit fires and what it runs.
unfoldable pub revert_timer : String → String → ℕ → Timer
revert_timer lease_id domain timeout = record {
  unit = unit_name lease_id;
  on_active = timeout / second;
  revert_lease = lease_id;
  revert_domain = domain;
}

unfoldable pub without_unit : String → List Timer → List Timer
without_unit unit [] = []
without_unit unit (t ∷ ts) =
    let rest = without_unit unit ts in if t.unit == unit then rest else t ∷ rest

module _ {e : Env} where
  abbrev pub add_timer : Timer → Host e → Host e
  add_timer t h = record h { timers = t ∷ h.timers }

  unfoldable pub systemd_run : Timer → M e (Unit {0})
  unfolding sys
  systemd_run t = sys (λ h. if e.timer_left h.step then add_timer t h else h) (add_timer t)

  -- systemctl stop
  unfoldable pub stop_timer : String → M e (Unit {0})
  unfolding sys without_unit
  stop_timer unit = sys unchanged (λ h. record h { timers = without_unit unit h.timers })

  unfoldable pub set_units : (List (String × String) → List (String × String)) → M e (Unit {0})
  set_units f h = pure tt (record h { units = f h.units })

  -- Leases.Arm
  unfoldable pub arm : String → String → ℕ → M e (Unit {0})
  unfolding systemd_run set_units
  arm lease_id domain timeout = do
    require (ltb 0 timeout) plain
    require (not (domain == "")) plain
    systemd_run (revert_timer lease_id domain timeout)
    set_units (insert lease_id (unit_name lease_id))

  -- Leases.Cancel
  unfoldable pub cancel : String → M e (Unit {0})
  unfolding stop_timer set_units
  cancel lease_id = do
    found ← gets (λ h. lookup lease_id h.units)
    unit ← or_fail plain found
    stop_timer unit
    set_units (erase lease_id)
