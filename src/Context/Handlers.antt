-- ===== src/Context/Handlers.antt =====
-- The entry points of the state machine: `handle_ups_status_transition`,
-- `handle_ups_status_unavailable`, `handle_event` and `notify_desktop_state_change`.
use ups_orchestrator.Prelude.{
  ◌+◌, String, Bool, true, false, not, ◌&&◌, ◌||◌, Option, some, contains, if◌then◌else◌,
}
use ups_orchestrator.Config.{is_observer}
use ups_orchestrator.OutageLog.{Outcome}
use ups_orchestrator.EventLog.{desktop_shutdown_observed}
use ups_orchestrator.Context.State.{
  Mode, is_idle, is_monitoring, is_shutting_down, is_resting, suspend_wait, in_user_prompt, Reason,
  low_battery, low_battery_event, suspend_due_event, Status, is_down, OrchestratorState,
  seen_status, terminal_action_worker,
}
use ups_orchestrator.Context.Monad.{
  Env, Action, Done, pure, gets, ◌>>=◌, ◌>>◌, when, modify_shared, start_thread,
  get_orchestrator_state, get_mode, now_ts, save_orchestrator_state, log_event, outage_start,
  outage_end,
}
use ups_orchestrator.Context.Phases.{
  start_battery_monitoring, start_monitoring_if_mode, execute_phase_action, check_phase_deadline,
  ask_desktop_ups, follow_desktop_ups,
}

-- The NUT events that the code tells apart.
pub data NutEvent : Type 0 where
  lowbatt onbatt online desktop_suspend_due other : NutEvent

-- `mode in (MODE_MONITORING, MODE_SHUTTING_DOWN)`
abbrev is_handling : Mode → Bool
is_handling Mode.monitoring_battery = true
is_handling Mode.shutting_down = true
is_handling _ = false

abbrev same : Bool → Bool → Bool
same true b = b
same false b = not b

module _ (env : Env) where
  unfoldable pub log_own_power : Bool → Mode → Action Done
  log_own_power false mode = outage_end env Outcome.power_restored
  log_own_power true mode = when (is_handling mode) (do t ← now_ts env; outage_start env t)

  -- `_note_own_power`
  unfoldable pub note_own_power : Bool → Action Done
  unfolding log_own_power
  note_own_power on_battery = do
    before ← gets (λ w. w.ups_on_battery)
    when (not (same on_battery before)) (do
      modify_shared λ h. record h { ups_on_battery = on_battery }
      mode ← get_mode
      log_own_power on_battery mode)

  -- What a low battery does, from a poll or from an event.
  unfoldable pub on_low_battery : Mode → Reason → Action Done
  on_low_battery mode reason = when (not (is_shutting_down mode)) (do
    when (not (is_monitoring mode)) (start_battery_monitoring env)
    execute_phase_action env reason)

  unfoldable pub on_battery_poll : Mode → Action Done
  on_battery_poll Mode.idle = start_monitoring_if_mode env is_resting
  on_battery_poll Mode.desktop_handled = start_monitoring_if_mode env is_resting
  on_battery_poll Mode.monitoring_battery = check_phase_deadline env
  on_battery_poll Mode.shutting_down = pure tt

  -- The power state that a status text shows: OB or LB, then OL.
  unfoldable pub note_status : Bool → Bool → Action Done
  note_status on_battery on_line =
      if on_battery then note_own_power true else when on_line (note_own_power false)

  unfoldable pub on_status : Bool → Bool → Bool → Mode → Action Done
  on_status low on_battery on_line mode =
      if low
      then on_low_battery mode low_battery
      else if on_battery
      then on_battery_poll mode
      else when on_line (follow_desktop_ups env mode "power_restored")

  -- `handle_ups_status_transition` behind its three substring tests.
  unfoldable pub handle_flags : Bool → Bool → Bool → Action Done
  handle_flags on_battery low on_line = do
    note_status (on_battery || low) on_line
    mode ← get_mode
    on_status low on_battery on_line mode

  -- `handle_ups_status_transition`
  unfoldable pub handle_ups_status_transition : String → Action Done
  unfolding handle_flags contains
  handle_ups_status_transition ups_status =
      handle_flags (contains "OB" ups_status) (contains "LB" ups_status) (contains "OL" ups_status)

  unfoldable pub on_unavailable : Mode → Action Done
  on_unavailable Mode.monitoring_battery = check_phase_deadline env
  on_unavailable Mode.idle = do
    out ← ask_desktop_ups env
    when out (start_monitoring_if_mode env is_idle)
  on_unavailable _ = pure tt

  -- `handle_ups_status_unavailable`
  unfoldable pub handle_ups_status_unavailable : Action Done
  handle_ups_status_unavailable = do mode ← get_mode; on_unavailable mode

  unfoldable pub note_event : NutEvent → Action Done
  note_event lowbatt = note_own_power true
  note_event onbatt = note_own_power true
  note_event online = note_own_power false
  note_event _ = pure tt

  unfoldable pub on_event : NutEvent → Mode → Action Done
  on_event lowbatt mode = on_low_battery mode low_battery_event
  on_event onbatt mode = when (is_resting mode) (start_monitoring_if_mode env is_resting)
  on_event online mode = follow_desktop_ups env mode "power_restored_event"
  on_event desktop_suspend_due mode =
      when (is_monitoring mode) (execute_phase_action env suspend_due_event)
  on_event other mode = pure tt

  -- `handle_event`
  unfoldable pub handle_event : NutEvent → Action Done
  handle_event event = do note_event event; mode ← get_mode; on_event event mode

  -- The desktop reports that it is going away.
  unfoldable pub on_desktop_down : Option Status → Action Done
  on_desktop_down status = do
    cur ← get_orchestrator_state
    when (not (is_shutting_down cur.mode)) (do
      save_orchestrator_state env (record cur { mode = Mode.shutting_down })
      log_event env desktop_shutdown_observed (some (seen_status status))
      outage_end env Outcome.shutdown_initiated
      start_thread terminal_action_worker)

  abbrev is_suspended : Option Status → Bool
  is_suspended (some Status.suspended) = true
  is_suspended _ = false

  unfoldable pub on_desktop_status : Option Status → OrchestratorState → Action Done
  unfolding on_desktop_down
  on_desktop_status status orch =
      if is_down status
      then on_desktop_down status
      else when (is_suspended status && in_user_prompt orch.phase) (do
        t ← now_ts env
        device ← gets (λ w. w.device)
        save_orchestrator_state env (record orch {
          phase = some suspend_wait;
          phase_deadline = some (t + device.timing.desktop_suspend_wait);
        }))

  -- `notify_desktop_state_change`
  unfoldable pub notify_desktop_state_change : Option Status → Action Done
  unfolding on_desktop_status
  notify_desktop_state_change new_status = do
    device ← gets (λ w. w.device)
    orch ← get_orchestrator_state
    when (not (is_observer device) && is_monitoring orch.mode) (on_desktop_status new_status orch)
