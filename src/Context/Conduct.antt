-- ===== src/Context/Conduct.antt =====
-- What the entry points may do to the world.
use ups_orchestrator.Prelude.{
  ◌≡◌, ◌≢◌, refl, Bool, true, false, Option, arith, String, ◌||◌, contains,
}
use ups_orchestrator.Context.State.{
  Mode, idle, monitoring_battery, shutting_down, desktop_handled, is_idle, is_resting, Reason,
  low_battery, low_battery_event, suspend_due_event, phase_deadline, Status, World, mode_of,
}
use ups_orchestrator.Context.Monad.{Env}
use ups_orchestrator.Context.Phases.{start_battery_monitoring, ask_desktop_ups}
use ups_orchestrator.Context.Inputs.{
  Input, poll, poll_failed, event, desktop_report, timer_fired, restart, terminal, handle,
}
use ups_orchestrator.Context.Handlers.{
  NutEvent, lowbatt, onbatt, online, desktop_suspend_due, other, handle_event, note_own_power,
  on_low_battery, note_event, on_event, on_status, on_battery_poll, note_status, handle_flags,
  on_unavailable, notify_desktop_state_change, handle_ups_status_transition,
  handle_ups_status_unavailable,
}
use ups_orchestrator.Context.Restraint.{
  Conduct, Quiet, Quiet-Conduct, Conduct-refl, start_battery_monitoring-Started,
  execute_phase_action-Conduct, check_phase_deadline-Conduct, start_monitoring_if_mode-Conduct,
  reset_state_on_startup-Conduct, follow_desktop_ups-Conduct, ask_desktop_ups-Quiet,
}

module _ (env : Env) where
  note_own_power-Quiet : (b : Bool) (w : World) → Quiet w (note_own_power env b w).1
  unfolding note_own_power
  note_own_power-Quiet b w = ground arith

  -- The mode is the one that the handler has just read.
  on_low_battery-Conduct :
      (mode : Mode) (r : Reason) (w : World)
      → mode ≡ mode_of w.shared
      → Conduct w (on_low_battery env mode r w).1
  unfolding on_low_battery
  on_low_battery-Conduct mode r w e = ground (
    arith,
    start_battery_monitoring-Started env w,
    execute_phase_action-Conduct env r w,
    execute_phase_action-Conduct env r (start_battery_monitoring env w).1,
  )

  on_event-Conduct :
      (e : NutEvent) (mode : Mode) (w : World)
      → mode ≡ mode_of w.shared
      → Conduct w (on_event env e mode w).1
  unfolding on_event
  on_event-Conduct lowbatt mode w h = on_low_battery-Conduct mode low_battery_event w h
  on_event-Conduct onbatt mode w h =
      ground (arith, start_monitoring_if_mode-Conduct env is_resting w)
  on_event-Conduct online mode w h = follow_desktop_ups-Conduct env mode "power_restored_event" w
  on_event-Conduct desktop_suspend_due mode w h =
      ground (arith, execute_phase_action-Conduct env suspend_due_event w)
  on_event-Conduct other mode w h = Conduct-refl w

  note_event-Quiet : (e : NutEvent) (w : World) → Quiet w (note_event env e w).1
  unfolding note_event
  note_event-Quiet e w = ground (arith, note_own_power-Quiet true w, note_own_power-Quiet false w)

  pub handle_event-Conduct : (e : NutEvent) (w : World) → Conduct w (handle_event env e w).1
  unfolding handle_event
  handle_event-Conduct e w =
      let w' = (note_event env e w).1 in
      Quiet-Conduct w w' _ (note_event-Quiet e w) (on_event-Conduct e (mode_of w'.shared) w' refl)

  note_status-Quiet : (b l : Bool) (w : World) → Quiet w (note_status env b l w).1
  unfolding note_status
  note_status-Quiet b l w =
      ground (arith, note_own_power-Quiet true w, note_own_power-Quiet false w)

  on_status-Conduct :
      (low b l : Bool) (mode : Mode) (w : World)
      → mode ≡ mode_of w.shared
      → Conduct w (on_status env low b l mode w).1
  unfolding on_status on_battery_poll
  on_status-Conduct low b l mode w e = ground (
    arith,
    on_low_battery-Conduct mode low_battery w e,
    start_monitoring_if_mode-Conduct env is_resting w,
    check_phase_deadline-Conduct env w,
    follow_desktop_ups-Conduct env mode "power_restored" w,
  )

  pub handle_ups_status_transition-Conduct :
      (ups_status : String) (w : World)
      → Conduct w (handle_ups_status_transition env ups_status w).1
  unfolding handle_ups_status_transition handle_flags
  handle_ups_status_transition-Conduct text w =
      let b = contains "OB" text in
      let low = contains "LB" text in
      let l = contains "OL" text in
      let w' = (note_status env (b || low) l w).1 in
      Quiet-Conduct w w' _ (note_status-Quiet (b || low) l w)
        (on_status-Conduct low b l (mode_of w'.shared) w' refl)

  on_unavailable-Conduct : (mode : Mode) (w : World) → Conduct w (on_unavailable env mode w).1
  unfolding on_unavailable
  on_unavailable-Conduct idle w =
      let asked = ask_desktop_ups env w in
      Quiet-Conduct w asked.1 _ (ask_desktop_ups-Quiet env w)
        (ground (arith, start_monitoring_if_mode-Conduct env is_idle asked.1))
  on_unavailable-Conduct monitoring_battery w = check_phase_deadline-Conduct env w
  on_unavailable-Conduct shutting_down w = Conduct-refl w
  on_unavailable-Conduct desktop_handled w = Conduct-refl w

  pub handle_ups_status_unavailable-Conduct :
      (w : World) → Conduct w (handle_ups_status_unavailable env w).1
  unfolding handle_ups_status_unavailable
  handle_ups_status_unavailable-Conduct w = on_unavailable-Conduct (mode_of w.shared) w

  notify-Conduct :
      (s : Option Status) (w : World) → Conduct w (notify_desktop_state_change env s w).1
  unfolding notify_desktop_state_change
  notify-Conduct s w = ground arith

  -- Every input but the thread of the terminal action pushes at most one command, which is
  -- `ups_state`, runs no program and sends no packet; it starts at most one thread, and only when it
  -- takes the context from another mode into `shutting_down`. So no poll, event, desktop report, timer
  -- or restart cuts any power by itself.
  pub handle-Conduct : (i : Input) (w : World) → i ≢ terminal → Conduct w (handle env i w).1
  unfolding handle
  handle-Conduct (poll text) w h = handle_ups_status_transition-Conduct text w
  handle-Conduct poll_failed w h = handle_ups_status_unavailable-Conduct w
  handle-Conduct (event e) w h = handle_event-Conduct e w
  handle-Conduct (desktop_report s) w h = notify-Conduct s w
  handle-Conduct timer_fired w h = (execute_phase_action-Conduct env phase_deadline w).0
  handle-Conduct restart w h = reset_state_on_startup-Conduct env w
  handle-Conduct terminal w h = absurd (h refl)
