-- ===== src/Context/Upholding.antt =====
-- Invariants of a context through the entry points.
use ups_orchestrator.Prelude.{
  ◌≡◌, refl, ltb, or_else, inl, inr, Bool, true, false, Option, List, [], ◌∷◌, String, ◌||◌,
  contains, Bool-cases,
}
use ups_orchestrator.Context.State.{
  Mode, idle, monitoring_battery, shutting_down, desktop_handled, is_idle, is_resting,
  is_monitoring, low_battery, low_battery_event, suspend_due_event, phase_deadline, Reason, Status,
  World, mode_of, orch_of,
}
use ups_orchestrator.Context.Monad.{Env, now_ts}
use ups_orchestrator.Context.Power.{terminal_action}
use ups_orchestrator.Context.Handlers.{
  note_own_power, NutEvent, lowbatt, onbatt, online, desktop_suspend_due, other, handle_event,
  on_low_battery, note_event, on_event, on_status, on_battery_poll, note_status, handle_flags,
  on_unavailable, notify_desktop_state_change, handle_ups_status_transition,
  handle_ups_status_unavailable,
}
use ups_orchestrator.Context.Inputs.{
  Input, poll, poll_failed, event, desktop_report, timer_fired, restart, terminal, handle,
  handle_all,
}
use ups_orchestrator.Context.Phases.{
  reset_state_on_startup, start_battery_monitoring, follow_desktop_ups, follow, ask_desktop_ups,
  execute_phase_action, reset_to_idle, check_phase_deadline, start_monitoring_if_mode,
}

-- What a call leaves alone that does not go through the state machine.
abbrev pub SameState : World → World → Type 0
SameState w w' =
    (w'.orch_file ≡ w.orch_file)
    × (w'.deadline_timer ≡ w.deadline_timer)
    × (w'.device ≡ w.device)
    × (w'.ups_on_battery ≡ w.ups_on_battery)
    × (w'.outage_log ≡ w.outage_log)

-- An invariant of a context: it is about the parts that the state machine keeps, a restart brings it
-- about, and every transition keeps it.
pub record IsUpheld (P : World → Type 0) : Type 0 where
  pub same : (w w' : World) → SameState w w' → P w → P w'
  pub restarted : (env : Env) (w : World) → P (reset_state_on_startup env w).1
  pub started : (env : Env) (w : World) → P w → P (start_battery_monitoring env w).1
  pub executed : (env : Env) (r : Reason) (w : World) → P w → P (execute_phase_action env r w).1
  pub stood_down :
      (env : Env) (reason : String) (w : World) → P w → P (reset_to_idle env reason w).1
  pub noted : (env : Env) (b : Bool) (w : World) → P w → P (note_own_power env b w).1
  pub reported :
      (env : Env) (s : Option Status) (w : World) → P w → P (notify_desktop_state_change env s w).1
  pub ended : (env : Env) (w : World) → P w → P (terminal_action env w).1

module _ (P : World → Type 0) (u : IsUpheld P) (env : Env) where
  check_phase_deadline-upheld : (w : World) → P w → P (check_phase_deadline env w).1
  unfolding check_phase_deadline
  check_phase_deadline-upheld w h =
      let v = (now_ts env w).1 in
      let kept : P v = u.same w v (refl, refl, refl, refl, refl) h in
      elim (Bool-cases (ltb v.clock (or_else (orch_of w.orch_file).phase_deadline 0))) [
        | inl e ↦ rw e kept
        | inr e ↦ rw e (u.executed env phase_deadline v kept)
      ]

  start_monitoring_if_mode-upheld :
      (allowed : Mode → Bool) (w : World) → P w → P (start_monitoring_if_mode env allowed w).1
  unfolding start_monitoring_if_mode
  start_monitoring_if_mode-upheld allowed w h = elim (Bool-cases (allowed (mode_of w.shared))) [
    | inl b ↦ rw b (u.started env w h)
    | inr b ↦ rw b h
  ]

  on_low_battery-upheld :
      (mode : Mode) (r : Reason) (w : World) → P w → P (on_low_battery env mode r w).1
  unfolding on_low_battery
  on_low_battery-upheld idle r w h =
      u.executed env r (start_battery_monitoring env w).1 (u.started env w h)
  on_low_battery-upheld desktop_handled r w h =
      u.executed env r (start_battery_monitoring env w).1 (u.started env w h)
  on_low_battery-upheld monitoring_battery r w h = u.executed env r w h
  on_low_battery-upheld shutting_down r w h = h

  follow-upheld :
      (out : Bool) (mode : Mode) (reason : String) (w : World)
      → P w
      → P (follow env out mode reason w).1
  unfolding follow
  follow-upheld true idle reason w h = start_monitoring_if_mode-upheld is_idle w h
  follow-upheld true monitoring_battery reason w h = check_phase_deadline-upheld w h
  follow-upheld true shutting_down reason w h = h
  follow-upheld true desktop_handled reason w h = h
  follow-upheld false idle reason w h = h
  follow-upheld false monitoring_battery reason w h = u.stood_down env reason w h
  follow-upheld false shutting_down reason w h = u.stood_down env reason w h
  follow-upheld false desktop_handled reason w h = u.stood_down env reason w h

  asked : (w : World) → P w → P (ask_desktop_ups env w).1
  asked w h = u.same w (ask_desktop_ups env w).1 (refl, refl, refl, refl, refl) h

  follow_desktop_ups-upheld :
      (mode : Mode) (reason : String) (w : World) → P w → P (follow_desktop_ups env mode reason w).1
  unfolding follow_desktop_ups
  follow_desktop_ups-upheld mode reason w h =
      follow-upheld (ask_desktop_ups env w).0 mode reason (ask_desktop_ups env w).1 (asked w h)

  on_event-upheld : (e : NutEvent) (mode : Mode) (w : World) → P w → P (on_event env e mode w).1
  unfolding on_event
  on_event-upheld lowbatt mode w h = on_low_battery-upheld mode low_battery_event w h
  on_event-upheld onbatt mode w h = elim (Bool-cases (is_resting mode)) [
    | inl b ↦ rw b (start_monitoring_if_mode-upheld is_resting w h)
    | inr b ↦ rw b h
  ]
  on_event-upheld online mode w h = follow_desktop_ups-upheld mode "power_restored_event" w h
  on_event-upheld desktop_suspend_due mode w h = elim (Bool-cases (is_monitoring mode)) [
    | inl b ↦ rw b (u.executed env suspend_due_event w h)
    | inr b ↦ rw b h
  ]
  on_event-upheld other mode w h = h

  note_event-upheld : (e : NutEvent) (w : World) → P w → P (note_event env e w).1
  unfolding note_event
  note_event-upheld lowbatt w h = u.noted env true w h
  note_event-upheld onbatt w h = u.noted env true w h
  note_event-upheld online w h = u.noted env false w h
  note_event-upheld desktop_suspend_due w h = h
  note_event-upheld other w h = h

  handle_event-upheld : (e : NutEvent) (w : World) → P w → P (handle_event env e w).1
  unfolding handle_event
  handle_event-upheld e w h =
      let w' = (note_event env e w).1 in
      on_event-upheld e (mode_of w'.shared) w' (note_event-upheld e w h)

  on_status-upheld :
      (low on_battery on_line : Bool) (mode : Mode) (w : World)
      → P w
      → P (on_status env low on_battery on_line mode w).1
  unfolding on_status on_battery_poll
  on_status-upheld true b l mode w h = on_low_battery-upheld mode low_battery w h
  on_status-upheld false true l idle w h = start_monitoring_if_mode-upheld is_resting w h
  on_status-upheld false true l desktop_handled w h = start_monitoring_if_mode-upheld is_resting w h
  on_status-upheld false true l monitoring_battery w h = check_phase_deadline-upheld w h
  on_status-upheld false true l shutting_down w h = h
  on_status-upheld false false true mode w h = follow_desktop_ups-upheld mode "power_restored" w h
  on_status-upheld false false false mode w h = h

  note_status-upheld : (b l : Bool) (w : World) → P w → P (note_status env b l w).1
  unfolding note_status
  note_status-upheld true l w h = u.noted env true w h
  note_status-upheld false true w h = u.noted env false w h
  note_status-upheld false false w h = h

  handle_flags-upheld : (b low l : Bool) (w : World) → P w → P (handle_flags env b low l w).1
  unfolding handle_flags
  handle_flags-upheld b low l w h =
      let w' = (note_status env (b || low) l w).1 in
      on_status-upheld low b l (mode_of w'.shared) w' (note_status-upheld (b || low) l w h)

  on_unavailable-upheld : (mode : Mode) (w : World) → P w → P (on_unavailable env mode w).1
  unfolding on_unavailable
  on_unavailable-upheld idle w h = elim (Bool-cases (ask_desktop_ups env w).0) [
    | inl b ↦ rw b (start_monitoring_if_mode-upheld is_idle (ask_desktop_ups env w).1 (asked w h))
    | inr b ↦ rw b (asked w h)
  ]
  on_unavailable-upheld monitoring_battery w h = check_phase_deadline-upheld w h
  on_unavailable-upheld shutting_down w h = h
  on_unavailable-upheld desktop_handled w h = h

  pub handle-upheld : (i : Input) (w : World) → P w → P (handle env i w).1
  unfolding handle handle_ups_status_transition handle_ups_status_unavailable
  handle-upheld (poll text) w h =
      handle_flags-upheld (contains "OB" text) (contains "LB" text) (contains "OL" text) w h
  handle-upheld poll_failed w h = on_unavailable-upheld (mode_of w.shared) w h
  handle-upheld (event e) w h = handle_event-upheld e w h
  handle-upheld (desktop_report s) w h = u.reported env s w h
  handle-upheld timer_fired w h = u.executed env phase_deadline w h
  handle-upheld restart w h = u.restarted env w
  handle-upheld terminal w h = u.ended env w h

  pub handle_all-upheld : (is : List Input) (w : World) → P w → P (handle_all env is w)
  unfolding handle_all
  handle_all-upheld [] w h = h
  handle_all-upheld (i ∷ is) w h = handle_all-upheld is (handle env i w).1 (handle-upheld i w h)
