-- ===== src/Context/Moves.antt =====
-- The changes of the mode that a call may make.
use ups_orchestrator.Prelude.{◌≡◌, String, Bool, true, false, Option, arith, Bool-cases, inl, inr}
use ups_orchestrator.Context.State.{
  Mode, idle, monitoring_battery, shutting_down, desktop_handled, is_idle, is_resting, Status,
  Reason, World, mode_of,
}
use ups_orchestrator.Context.Monad.{Env}
use ups_orchestrator.Context.Power.{terminal_action}
use ups_orchestrator.Context.Phases.{
  reset_to_idle, reset_state_on_startup, start_battery_monitoring, start_monitoring_if_mode,
  execute_phase_action, check_phase_deadline, follow_desktop_ups, follow, ask_desktop_ups,
}
use ups_orchestrator.Context.Handlers.{on_low_battery, notify_desktop_state_change}
use ups_orchestrator.Context.LowBattery.{start_battery_monitoring-facts}

-- The state machine: every mode may go back to idle or on to shutting down, monitoring starts from a
-- mode at rest only, and the desktop is done with only after shutting down.
abbrev pub may_move : Mode → Mode → Bool
may_move _ idle = true
may_move _ shutting_down = true
may_move shutting_down monitoring_battery = false
may_move _ monitoring_battery = true
may_move idle desktop_handled = false
may_move monitoring_battery desktop_handled = false
may_move _ desktop_handled = true

abbrev pub Moves : World → World → Type 0
Moves w w' = may_move (mode_of w.shared) (mode_of w'.shared) ≡ true

pub stays : (m : Mode) → may_move m m ≡ true
stays m = ground arith

module _ (env : Env) where
  start-Moves :
      (w : World)
      → is_resting (mode_of w.shared) ≡ true
      → Moves w (start_battery_monitoring env w).1
  start-Moves w h = ground (arith, start_battery_monitoring-facts env w)

  pub resting_start-Moves : (w : World) → Moves w (start_monitoring_if_mode env is_resting w).1
  unfolding start_monitoring_if_mode
  resting_start-Moves w = elim (Bool-cases (is_resting (mode_of w.shared))) [
    | inl b ↦ rw b (start-Moves w b)
    | inr b ↦ rw b (stays (mode_of w.shared))
  ]

  pub idle_start-Moves : (w : World) → Moves w (start_monitoring_if_mode env is_idle w).1
  unfolding start_monitoring_if_mode
  idle_start-Moves w = elim (Bool-cases (is_idle (mode_of w.shared))) [
    | inl b ↦ rw b (start-Moves w (ground arith))
    | inr b ↦ rw b (stays (mode_of w.shared))
  ]

  pub act-Moves : (r : Reason) (w : World) → Moves w (execute_phase_action env r w).1
  unfolding execute_phase_action
  act-Moves r w = ground arith

  pub deadline-Moves : (w : World) → Moves w (check_phase_deadline env w).1
  unfolding check_phase_deadline execute_phase_action
  deadline-Moves w = ground arith

  reset-Moves : (reason : String) (w : World) → Moves w (reset_to_idle env reason w).1
  unfolding reset_to_idle
  reset-Moves reason w = ground arith

  follow-Moves :
      (out : Bool) (mode : Mode) (reason : String) (w : World)
      → Moves w (follow env out mode reason w).1
  unfolding follow
  follow-Moves true idle reason w = idle_start-Moves w
  follow-Moves true monitoring_battery reason w = deadline-Moves w
  follow-Moves true shutting_down reason w = stays (mode_of w.shared)
  follow-Moves true desktop_handled reason w = stays (mode_of w.shared)
  follow-Moves false idle reason w = stays (mode_of w.shared)
  follow-Moves false monitoring_battery reason w = reset-Moves reason w
  follow-Moves false shutting_down reason w = reset-Moves reason w
  follow-Moves false desktop_handled reason w = reset-Moves reason w

  pub follow_ups-Moves :
      (mode : Mode) (reason : String) (w : World) → Moves w (follow_desktop_ups env mode reason w).1
  unfolding follow_desktop_ups
  follow_ups-Moves mode reason w =
      follow-Moves (ask_desktop_ups env w).0 mode reason (ask_desktop_ups env w).1

  pub notify-Moves :
      (s : Option Status) (w : World) → Moves w (notify_desktop_state_change env s w).1
  unfolding notify_desktop_state_change
  notify-Moves s w = ground arith

  pub restart-Moves : (w : World) → Moves w (reset_state_on_startup env w).1
  unfolding reset_state_on_startup
  restart-Moves w = ground arith

  pub terminal-Moves : (w : World) → Moves w (terminal_action env w).1
  unfolding terminal_action
  terminal-Moves w = ground arith

  act-shutting_down :
      (r : Reason) (w : World)
      → mode_of w.shared ≡ monitoring_battery
      → mode_of (execute_phase_action env r w).1.shared ≡ shutting_down
  unfolding execute_phase_action
  act-shutting_down r w m = ground arith

  shutting_down-Moves : (w w' : World) → mode_of w'.shared ≡ shutting_down → Moves w w'
  shutting_down-Moves w w' m = ground arith

  started-Moves :
      (r : Reason) (w : World)
      → Moves w (execute_phase_action env r (start_battery_monitoring env w).1).1
  started-Moves r w =
      let v = (start_battery_monitoring env w).1 in
      shutting_down-Moves w (execute_phase_action env r v).1
        (act-shutting_down r v (start_battery_monitoring-facts env w).0)

  pub low-Moves : (mode : Mode) (r : Reason) (w : World) → Moves w (on_low_battery env mode r w).1
  unfolding on_low_battery
  low-Moves idle r w = started-Moves r w
  low-Moves monitoring_battery r w = act-Moves r w
  low-Moves shutting_down r w = stays (mode_of w.shared)
  low-Moves desktop_handled r w = started-Moves r w
