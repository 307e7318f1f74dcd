-- ===== src/Context/Phases.antt =====
-- The transitions: `_reset_to_idle`, `reset_state_on_startup`, `_start_battery_monitoring`, the
-- deadline timer, `_execute_phase_action`, and following the desktop's UPS.
use ups_orchestrator.Prelude.{
  ℕ, ◌+◌, ◌-◌, String, Bool, true, false, not, ◌&&◌, Option, none, some, or_else, is_some, ltb,
  str_eq, if◌then◌else◌,
}
use ups_orchestrator.Config.{DesktopConfig, TimingConfig, is_observer}
use ups_orchestrator.OutageLog.{Outcome, resolve_on_startup}
use ups_orchestrator.EventLog.{phase_started, desktop_notified, server_restarted}
use ups_orchestrator.Context.State.{
  Mode, idle, monitoring_battery, is_idle, is_monitoring, Phase, user_prompt, offline_wait,
  suspend_wait, is_user_prompt, Reason, phase_deadline, is_low_battery, Status, is_down,
  DesktopState, status_of, OrchestratorState, cancelled, is_pending, Command, observer_phase,
  primary_phase, command_sent, Worker, terminal_action_worker, force_shutdown_desktop_worker,
  wake_then_shutdown_worker, observer_power_off_worker,
}
use ups_orchestrator.Context.Monad.{
  Env, Action, Done, pure, gets, ◌>>=◌, ◌>>◌, when, modify_shared, start_thread,
  get_orchestrator_state, get_mode, get_desktop_state, get_command, save_command, ask, now_ts,
  save_orchestrator_state, log_event, outage_start, outage_end,
}
use ups_orchestrator.Context.Peers.{desktop_ups_on_battery}
use ups_orchestrator.Context.Desktop.{
  fetch_state_from_desktop, push_command_to_desktop, make_ups_state_command,
}
use ups_orchestrator.Context.Power.{leave_monitoring}

-- The wait of each phase.
abbrev pub phase_wait : TimingConfig → Phase → ℕ
phase_wait timing user_prompt = timing.desktop_online_prompt_wait
phase_wait timing offline_wait = timing.desktop_offline_wait
phase_wait timing suspend_wait = timing.desktop_suspend_wait

-- The status after the live query: `live` is what the query returned.
abbrev live_status : Option Status → Option DesktopState → Option Status
live_status cached none = if is_down cached then cached else some Status.suspended
live_status cached (some live) = elim live.status [ none ↦ cached | some s ↦ some s ]

-- The phase for a desktop that is configured, by its status.
abbrev status_phase : Option Status → Phase
status_phase none = offline_wait
status_phase (some Status.online) = user_prompt
status_phase (some Status.suspended) = suspend_wait
status_phase (some _) = offline_wait

abbrev pub choose_phase : Bool → Option Status → Phase
choose_phase false status = offline_wait
choose_phase true status = status_phase status

-- The thread that a phase ends in.
unfoldable pub phase_worker : Bool → Phase → Reason → Worker
phase_worker true phase reason =
    if is_low_battery reason then terminal_action_worker else observer_power_off_worker
phase_worker false user_prompt reason = force_shutdown_desktop_worker
phase_worker false suspend_wait reason = wake_then_shutdown_worker
phase_worker false offline_wait reason = terminal_action_worker

module _ (env : Env) where
  -- `_arm_deadline_timer`; a negative delay counts as 0.
  abbrev arm_deadline_timer : ℕ → Action Done
  arm_deadline_timer delay = modify_shared λ h. record h { deadline_timer = some delay }

  unfoldable pub cancel_pending : String → Option ℕ → Command → Action Done
  cancel_pending reason ack_at cmd =
      save_command (record cmd { status = cancelled; result = some reason; ack_at = ack_at })

  unfoldable pub cancel_command : String → Option Command → Action Done
  unfolding cancel_pending
  cancel_command reason none = pure tt
  cancel_command reason (some cmd) =
      when (is_pending cmd.status) (do t ← now_ts env; cancel_pending reason (some t) cmd)

  -- `_reset_to_idle`
  unfoldable pub reset_to_idle : String → Action Done
  unfolding cancel_command leave_monitoring
  reset_to_idle reason = do
    outage_end env Outcome.power_restored
    leave_monitoring env idle (some "ONLINE")
    cmd ← get_command
    cancel_command reason cmd

  unfoldable pub cancel_at_restart : Option Command → Action Done
  unfolding cancel_pending
  cancel_at_restart none = pure tt
  cancel_at_restart (some cmd) =
      when (str_eq cmd.command "critical_shutdown" && is_pending cmd.status)
        (cancel_pending "server_restart" cmd.ack_at cmd)

  -- `reset_state_on_startup`
  unfoldable pub reset_state_on_startup : Action Done
  unfolding cancel_at_restart leave_monitoring
  reset_state_on_startup = do
    t ← now_ts env
    modify_shared λ h. record h { outage_log = resolve_on_startup env.to_iso t h.outage_log }
    log_event env server_restarted none
    leave_monitoring env idle (some "ONLINE")
    cmd ← get_command
    cancel_at_restart cmd

  unfoldable pub start_observer : OrchestratorState → Action Done
  start_observer orch = do
    device ← gets (λ w. w.device)
    t ← now_ts env
    let deadline = t + device.timing.desktop_offline_wait
    log_event env phase_started (some (observer_phase offline_wait))
    save_orchestrator_state env
        (record orch { phase = some offline_wait; phase_deadline = some deadline })
    t' ← now_ts env
    arm_deadline_timer (deadline - t')

  unfoldable pub desktop_status : Option DesktopConfig → Action (Option Status)
  unfolding fetch_state_from_desktop
  desktop_status none = pure none
  desktop_status (some d) = do
    state ← get_desktop_state
    live ← fetch_state_from_desktop env
    pure (live_status (status_of state) live)

  unfoldable pub notify_desktop : Action Done
  unfolding make_ups_state_command push_command_to_desktop
  notify_desktop = do
    cmd ← make_ups_state_command env
    save_command cmd
    push_command_to_desktop env cmd
    log_event env desktop_notified (some (command_sent "ups_state"))

  unfoldable pub arm_phase : OrchestratorState → Option Status → Phase → Action Done
  arm_phase orch status phase = do
    device ← gets (λ w. w.device)
    on_battery ← gets (λ w. w.ups_on_battery)
    t ← now_ts env
    let deadline = t + phase_wait device.timing phase
    log_event env phase_started (some (primary_phase phase status (not on_battery)))
    save_orchestrator_state env (record orch { phase = some phase; phase_deadline = some deadline })
    t' ← now_ts env
    arm_deadline_timer (deadline - t')

  unfoldable pub start_phase : OrchestratorState → Option Status → Phase → Action Done
  start_phase orch status phase = do
    arm_phase orch status phase
    when (is_user_prompt phase) notify_desktop

  unfoldable pub start_primary : OrchestratorState → Action Done
  start_primary orch = do
    device ← gets (λ w. w.device)
    status ← desktop_status device.desktop
    start_phase orch status (choose_phase (is_some device.desktop) status)

  -- `_start_battery_monitoring`
  unfoldable pub start_battery_monitoring : Action Done
  start_battery_monitoring = do
    device ← gets (λ w. w.device)
    orch ← get_orchestrator_state
    onbatt_ts ← now_ts env
    let started = record orch {
      mode = monitoring_battery;
      onbatt_since = some onbatt_ts;
      last_event = some "ONBATT";
    }
    on_battery ← gets (λ w. w.ups_on_battery)
    when on_battery (outage_start env onbatt_ts)
    if is_observer device then start_observer started else start_primary started

  -- `_start_monitoring_if_mode`
  unfoldable pub start_monitoring_if_mode : (Mode → Bool) → Action Done
  start_monitoring_if_mode allowed = do
    mode ← get_mode
    when (allowed mode) start_battery_monitoring

  unfoldable pub run_phase_action : OrchestratorState → Reason → Action Done
  unfolding phase_worker
  run_phase_action orch reason = do
    save_orchestrator_state env (record orch { mode = Mode.shutting_down })
    outage_end env Outcome.shutdown_initiated
    device ← gets (λ w. w.device)
    start_thread (phase_worker (is_observer device) (or_else orch.phase offline_wait) reason)

  -- `_execute_phase_action`
  unfoldable pub execute_phase_action : Reason → Action Done
  unfolding run_phase_action
  execute_phase_action reason = do
    orch ← get_orchestrator_state
    when (is_monitoring orch.mode) (run_phase_action orch reason)

  -- `_check_phase_deadline`
  unfoldable pub check_phase_deadline : Action Done
  check_phase_deadline = do
    orch ← get_orchestrator_state
    t ← now_ts env
    when (not (ltb t (or_else orch.phase_deadline 0))) (execute_phase_action phase_deadline)

  unfoldable pub follow : Bool → Mode → String → Action Done
  follow true idle reason = start_monitoring_if_mode is_idle
  follow true monitoring_battery reason = check_phase_deadline
  follow true _ reason = pure tt
  follow false idle reason = pure tt
  follow false _ reason = reset_to_idle reason

  -- `_desktop_ups_on_battery`, asked of the peers as they are at this call.
  abbrev pub ask_desktop_ups : Action Bool
  ask_desktop_ups = do
    device ← gets (λ w. w.device)
    peers ← ask env env.peers
    pure (desktop_ups_on_battery device peers)

  -- `_follow_desktop_ups`
  unfoldable pub follow_desktop_ups : Mode → String → Action Done
  follow_desktop_ups mode restore_reason = do out ← ask_desktop_ups; follow out mode restore_reason
