-- ===== src/Context/Machine.antt =====
-- The entry points and the state machine of the mode.
use ups_orchestrator.Prelude.{
  ◌≡◌, refl, sym, ◌∙◌, ap, Bool, true, false, ◌||◌, Option, contains, Bool-cases, inl, inr,
}
use ups_orchestrator.Context.State.{
  Mode, idle, monitoring_battery, shutting_down, desktop_handled, is_monitoring, is_resting,
  low_battery, low_battery_event, suspend_due_event, phase_deadline, OrchestratorState, World,
  mode_of, orch_of,
}
use ups_orchestrator.Context.Monad.{Env}
use ups_orchestrator.Context.Phases.{ask_desktop_ups}
use ups_orchestrator.Context.Handlers.{
  NutEvent, lowbatt, onbatt, online, desktop_suspend_due, other, handle_event, note_own_power,
  note_event, on_event, on_status, on_battery_poll, note_status, handle_flags, on_unavailable,
  handle_ups_status_transition, handle_ups_status_unavailable,
}
use ups_orchestrator.Context.Inputs.{
  Input, poll, poll_failed, event, desktop_report, timer_fired, restart, terminal, handle,
}
use ups_orchestrator.Context.Recovery.{note_own_power-facts}
use ups_orchestrator.Context.Moves.{
  may_move, Moves, stays, resting_start-Moves, idle_start-Moves, act-Moves, deadline-Moves,
  follow_ups-Moves, notify-Moves, restart-Moves, terminal-Moves, low-Moves,
}

module _ (env : Env) where
  on_event-Moves : (e : NutEvent) (mode : Mode) (w : World) → Moves w (on_event env e mode w).1
  unfolding on_event
  on_event-Moves lowbatt mode w = low-Moves env mode low_battery_event w
  on_event-Moves onbatt mode w = elim (Bool-cases (is_resting mode)) [
    | inl b ↦ rw b (resting_start-Moves env w)
    | inr b ↦ rw b (stays (mode_of w.shared))
  ]
  on_event-Moves online mode w = follow_ups-Moves env mode "power_restored_event" w
  on_event-Moves desktop_suspend_due mode w = elim (Bool-cases (is_monitoring mode)) [
    | inl b ↦ rw b (act-Moves env suspend_due_event w)
    | inr b ↦ rw b (stays (mode_of w.shared))
  ]
  on_event-Moves other mode w = stays (mode_of w.shared)

  note_own_power-mode :
      (b : Bool) (w : World) → mode_of (note_own_power env b w).1.shared ≡ mode_of w.shared
  note_own_power-mode b w =
      ap (λ (f : Option OrchestratorState). (orch_of f).mode) (note_own_power-facts env b w).1

  note_event-mode :
      (e : NutEvent) (w : World) → mode_of (note_event env e w).1.shared ≡ mode_of w.shared
  unfolding note_event
  note_event-mode lowbatt w = note_own_power-mode true w
  note_event-mode onbatt w = note_own_power-mode true w
  note_event-mode online w = note_own_power-mode false w
  note_event-mode desktop_suspend_due w = refl
  note_event-mode other w = refl

  note_status-mode :
      (b l : Bool) (w : World) → mode_of (note_status env b l w).1.shared ≡ mode_of w.shared
  unfolding note_status
  note_status-mode true l w = note_own_power-mode true w
  note_status-mode false true w = note_own_power-mode false w
  note_status-mode false false w = refl

  -- A part that keeps the mode, and then one that moves.
  keeps-Moves : (u v w : World) → mode_of v.shared ≡ mode_of u.shared → Moves v w → Moves u w
  keeps-Moves u v w e m = ap (λ (a : Mode). may_move a (mode_of w.shared)) (sym e) ∙ m

  on_status-Moves :
      (low b l : Bool) (mode : Mode) (w : World) → Moves w (on_status env low b l mode w).1
  unfolding on_status on_battery_poll
  on_status-Moves true b l mode w = low-Moves env mode low_battery w
  on_status-Moves false true l idle w = resting_start-Moves env w
  on_status-Moves false true l desktop_handled w = resting_start-Moves env w
  on_status-Moves false true l monitoring_battery w = deadline-Moves env w
  on_status-Moves false true l shutting_down w = stays (mode_of w.shared)
  on_status-Moves false false true mode w = follow_ups-Moves env mode "power_restored" w
  on_status-Moves false false false mode w = stays (mode_of w.shared)

  flags-Moves : (b low l : Bool) (w : World) → Moves w (handle_flags env b low l w).1
  unfolding handle_flags
  flags-Moves b low l w =
      let v = (note_status env (b || low) l w).1 in
      let mode = mode_of v.shared in
      keeps-Moves w v (on_status env low b l mode v).1 (note_status-mode (b || low) l w)
        (on_status-Moves low b l mode v)

  handle_event-Moves : (e : NutEvent) (w : World) → Moves w (handle_event env e w).1
  unfolding handle_event
  handle_event-Moves e w =
      let v = (note_event env e w).1 in
      keeps-Moves w v (on_event env e (mode_of v.shared) v).1 (note_event-mode e w)
        (on_event-Moves e (mode_of v.shared) v)

  unavailable-Moves : (mode : Mode) (w : World) → Moves w (on_unavailable env mode w).1
  unfolding on_unavailable
  unavailable-Moves idle w = elim (Bool-cases (ask_desktop_ups env w).0) [
    | inl b ↦ rw b (idle_start-Moves env (ask_desktop_ups env w).1)
    | inr b ↦ rw b (stays (mode_of w.shared))
  ]
  unavailable-Moves monitoring_battery w = deadline-Moves env w
  unavailable-Moves shutting_down w = stays (mode_of w.shared)
  unavailable-Moves desktop_handled w = stays (mode_of w.shared)

  -- Every input that is handled as one step moves the mode along the state machine: from anywhere back
  -- to idle or on to `shutting_down`, from a mode at rest to monitoring, and to `desktop_handled` only
  -- from `shutting_down`. So a context that shuts down never monitors again before it has stood down,
  -- and the desktop is never taken as handled before a shutdown was due.
  pub handle-Moves :
      (i : Input) (w : World)
      → may_move (mode_of w.shared) (mode_of (handle env i w).1.shared) ≡ true
  unfolding handle handle_ups_status_transition handle_ups_status_unavailable
  handle-Moves (poll text) w =
      flags-Moves (contains "OB" text) (contains "LB" text) (contains "OL" text) w
  handle-Moves poll_failed w = unavailable-Moves (mode_of w.shared) w
  handle-Moves (event e) w = handle_event-Moves e w
  handle-Moves (desktop_report s) w = notify-Moves env s w
  handle-Moves timer_fired w = act-Moves env phase_deadline w
  handle-Moves restart w = restart-Moves env w
  handle-Moves terminal w = terminal-Moves env w
