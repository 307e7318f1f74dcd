-- ===== src/Context/Restraint.antt =====
-- What the transitions of a context may do to the world: which commands they push, and when they
-- start a thread.
use ups_orchestrator.Prelude.{◌≡◌, ◌⊎◌, Bool, true, false, ◌∷◌, arith, String}
use ups_orchestrator.Context.State.{
  Mode, idle, monitoring_battery, shutting_down, desktop_handled, is_idle, is_shutting_down, Reason,
  phase_deadline, Command, Worker, pushed, World, mode_of,
}
use ups_orchestrator.Context.Monad.{Env, now_ts}
use ups_orchestrator.Context.Phases.{
  start_observer, start_primary, start_phase, arm_phase, desktop_status, notify_desktop,
  reset_to_idle, reset_state_on_startup, start_battery_monitoring, start_monitoring_if_mode,
  execute_phase_action, check_phase_deadline, follow_desktop_ups, follow, ask_desktop_ups,
}

-- At most one push, of a `ups_state` command, and no command run.
abbrev Notifies : World → World → Type 0
Notifies w w' =
    (w'.effects ≡ w.effects)
    ⊎ ((c : Command) × (w'.effects ≡ pushed c ∷ w.effects) × (c.command ≡ "ups_state"))

-- At most one thread, and only on the way into the mode `shutting_down`.
abbrev Launches : World → World → Type 0
Launches w w' =
    (w'.threads ≡ w.threads)
    ⊎ ((x : Worker) × (w'.threads ≡ x ∷ w.threads)
        × (is_shutting_down (mode_of w.shared) ≡ false)
        × (mode_of w'.shared ≡ shutting_down))

pub record Conduct (w w' : World) : Type 0 where
  pub same_device : w'.device ≡ w.device
  pub notifies : Notifies w w'
  pub launches : Launches w w'

-- A part that does neither and leaves the mode alone.
pub record Quiet (w w' : World) : Type 0 where
  pub same_device : w'.device ≡ w.device
  pub same_effects : w'.effects ≡ w.effects
  pub same_threads : w'.threads ≡ w.threads
  pub same_mode : mode_of w'.shared ≡ mode_of w.shared

pub Quiet-Conduct : (u v w : World) → Quiet u v → Conduct v w → Conduct u w
Quiet-Conduct u v w q c = ground arith

pub Conduct-refl : (w : World) → Conduct w w
Conduct-refl w = ground arith

module _ (env : Env) where
  pub start_battery_monitoring-Started :
      (w : World)
      → let w' = (start_battery_monitoring env w).1 in
        (w'.device ≡ w.device)
        × Notifies w w'
        × (w'.threads ≡ w.threads)
        × (mode_of w'.shared ≡ monitoring_battery)
  unfolding start_battery_monitoring start_observer start_primary start_phase arm_phase
      desktop_status notify_desktop
  start_battery_monitoring-Started w = ground arith

  pub execute_phase_action-Conduct :
      (r : Reason) (w : World)
      → let w' = (execute_phase_action env r w).1 in Conduct w w' × (w'.effects ≡ w.effects)
  unfolding execute_phase_action
  execute_phase_action-Conduct r w = ground arith

  pub check_phase_deadline-Conduct : (w : World) → Conduct w (check_phase_deadline env w).1
  unfolding check_phase_deadline
  check_phase_deadline-Conduct w =
      ground (arith, execute_phase_action-Conduct phase_deadline (now_ts env w).1)

  pub start_monitoring_if_mode-Conduct :
      (allowed : Mode → Bool) (w : World) → Conduct w (start_monitoring_if_mode env allowed w).1
  unfolding start_monitoring_if_mode
  start_monitoring_if_mode-Conduct allowed w = ground (arith, start_battery_monitoring-Started w)

  reset_to_idle-Conduct : (reason : String) (w : World) → Conduct w (reset_to_idle env reason w).1
  unfolding reset_to_idle
  reset_to_idle-Conduct reason w = ground arith

  pub reset_state_on_startup-Conduct : (w : World) → Conduct w (reset_state_on_startup env w).1
  unfolding reset_state_on_startup
  reset_state_on_startup-Conduct w = ground arith

  follow-Conduct :
      (out : Bool) (mode : Mode) (reason : String) (w : World)
      → Conduct w (follow env out mode reason w).1
  unfolding follow
  follow-Conduct true idle reason w = start_monitoring_if_mode-Conduct is_idle w
  follow-Conduct true monitoring_battery reason w = check_phase_deadline-Conduct w
  follow-Conduct true shutting_down reason w = Conduct-refl w
  follow-Conduct true desktop_handled reason w = Conduct-refl w
  follow-Conduct false idle reason w = Conduct-refl w
  follow-Conduct false monitoring_battery reason w = reset_to_idle-Conduct reason w
  follow-Conduct false shutting_down reason w = reset_to_idle-Conduct reason w
  follow-Conduct false desktop_handled reason w = reset_to_idle-Conduct reason w

  pub ask_desktop_ups-Quiet : (w : World) → Quiet w (ask_desktop_ups env w).1
  ask_desktop_ups-Quiet w = ground arith

  pub follow_desktop_ups-Conduct :
      (mode : Mode) (reason : String) (w : World)
      → Conduct w (follow_desktop_ups env mode reason w).1
  unfolding follow_desktop_ups
  follow_desktop_ups-Conduct mode reason w =
      let asked = ask_desktop_ups env w in
      Quiet-Conduct w asked.1 _ (ask_desktop_ups-Quiet w)
        (follow-Conduct asked.0 mode reason asked.1)
