-- ===== src/Context/Workers.antt =====
-- The loops that wait, each on fuel: `_wait_for_desktop_then_terminal_action`,
-- `_action_force_shutdown_desktop`, `_action_wake_then_shutdown` and
-- `_observer_power_off_when_desktop_safe`. Other threads run while a worker sleeps.
use ups_orchestrator.Prelude.{
  ℕ, zero, suc, ◌+◌, String, Bool, false, not, ◌&&◌, Option, none, some, List, any, is_nil, ltb,
  leb, contains, if◌then◌else◌,
}
use ups_orchestrator.EventLog.{
  desktop_shutdown_confirmed, desktop_shutdown_timeout, critical_shutdown_pushed,
}
use ups_orchestrator.Context.State.{
  Mode, Status, is_shutting_down, is_down, is_online, status_of, seen_status, source_primary, Peer,
  Worker, terminal_action_worker, force_shutdown_desktop_worker, wake_then_shutdown_worker,
  observer_power_off_worker,
}
use ups_orchestrator.Context.Monad.{
  Env, Action, Done, pure, gets, ◌>>=◌, ◌>>◌, get_mode, get_desktop_state, save_command, ask,
  now_ts, sleep, log_event, read_ups_status,
}
use ups_orchestrator.Context.Peers.{desktop_peers, reports_desktop_down, finished_desktop_handling}
use ups_orchestrator.Context.Desktop.{
  fetch_state_from_desktop, push_command_to_desktop, make_critical_shutdown_command,
}
use ups_orchestrator.Context.Wake.{send_wol}
use ups_orchestrator.Context.Power.{power_off_ups, terminal_action}

-- How a wait ends: power came back, the wait was left by `break`, its time ran out, or its fuel did.
pub data WaitEnd : Type 0 where
  aborted left expired out_of_fuel : WaitEnd

-- `status and "LB" in status`
unfoldable pub shows_low_battery : Option String → Bool
unfolding contains
shows_low_battery none = false
shows_low_battery (some status) = contains "LB" status

module _ (env : Env) where
  -- `self._desktop_peers(observers=False)`, as the peers are at this call.
  abbrev pub ask_desktop_owners : Action (List Peer)
  ask_desktop_owners = do
    device ← gets (λ w. w.device)
    peers ← ask env env.peers
    pure (desktop_peers device false peers)

  -- One round of the loop of `_wait_for_desktop_then_terminal_action`: its tests, and `more`, which
  -- sleeps and goes round again.
  unfoldable pub desktop_round : ℕ → ℕ → Mode → Option Status → Action WaitEnd → Action WaitEnd
  desktop_round t deadline mode status more =
      if not (ltb t deadline)
      then log_event env desktop_shutdown_timeout none >> pure expired
      else if not (is_shutting_down mode)
      then pure aborted
      else if is_down status
      then log_event env desktop_shutdown_confirmed (some (seen_status status)) >> pure left
      else more

  unfoldable pub wait_for_desktop : ℕ → ℕ → Action WaitEnd
  wait_for_desktop zero deadline = pure out_of_fuel
  wait_for_desktop (suc fuel) deadline = do
    t ← now_ts env
    mode ← get_mode
    state ← get_desktop_state
    let more = do sleep env; wait_for_desktop fuel deadline
    desktop_round t deadline mode (status_of state) more

  unfoldable pub unless_aborted : WaitEnd → Action Done → Action Done
  unless_aborted aborted m = pure tt
  unless_aborted out_of_fuel m = pure tt
  unless_aborted left m = m
  unless_aborted expired m = m

  -- `_wait_for_desktop_then_terminal_action`
  unfoldable pub wait_then_terminal_action : Action Done
  unfolding unless_aborted
  wait_then_terminal_action = do
    device ← gets (λ w. w.device)
    t ← now_ts env
    let wait = device.timing.desktop_shutdown_wait
    ended ← wait_for_desktop (suc wait) (t + wait)
    unless_aborted ended (terminal_action env)

  -- The `critical_shutdown` command is made, stored and pushed.
  unfoldable pub push_shutdown : Action Done
  push_shutdown = do
    cmd ← make_critical_shutdown_command env
    save_command cmd
    push_command_to_desktop env cmd
    log_event env critical_shutdown_pushed none

  -- `_action_force_shutdown_desktop`
  unfoldable pub action_force_shutdown_desktop : Action Done
  action_force_shutdown_desktop = do push_shutdown; wait_then_terminal_action

  resend : ℕ → Action ℕ
  resend interval = do send_wol env; t ← now_ts env; pure (t + interval)

  -- A packet is sent again once `next_retry` is reached, and the next time is counted from then.
  unfoldable pub retry : ℕ → ℕ → Action ℕ
  unfolding resend
  retry interval next_retry = do
    t ← now_ts env
    if ltb 0 interval && leb next_retry t then resend interval else pure next_retry

  -- The loop of `_action_wake_then_shutdown`.
  unfoldable pub wait_for_online : ℕ → ℕ → ℕ → ℕ → Action WaitEnd
  unfolding retry
  wait_for_online zero interval deadline next_retry = pure out_of_fuel
  wait_for_online (suc fuel) interval deadline next_retry = do
    t ← now_ts env
    mode ← get_mode
    let again = do
      next ← retry interval next_retry
      sleep env
      wait_for_online fuel interval deadline next
    let query = do
      state ← fetch_state_from_desktop env
      if is_online (status_of state) then pure left else again
    if not (ltb t deadline)
        then pure expired
        else if is_shutting_down mode
        then query
        else pure aborted

  unfoldable pub push_and_wait : Mode → Action Done
  push_and_wait mode =
      if is_shutting_down mode then push_shutdown >> wait_then_terminal_action else pure tt

  -- `_action_wake_then_shutdown`
  unfoldable pub action_wake_then_shutdown : Action Done
  unfolding push_and_wait unless_aborted
  action_wake_then_shutdown = do
    send_wol env
    device ← gets (λ w. w.device)
    let interval = device.timing.wol_retry_interval
    let timeout = device.timing.wake_online_timeout
    t ← now_ts env
    t' ← now_ts env
    ended ← wait_for_online (suc timeout) interval (t + timeout) (t' + interval)
    unless_aborted ended (get_mode >>= push_and_wait)

  -- The loop of `_observer_power_off_when_desktop_safe`. The owners are the same contexts at each
  -- round; their state is read anew.
  unfoldable pub hold_power_off : ℕ → ℕ → Action WaitEnd
  hold_power_off zero deadline = pure out_of_fuel
  hold_power_off (suc fuel) deadline = do
    t ← now_ts env
    mode ← get_mode
    let again = do sleep env; hold_power_off fuel deadline
    let read_status = do
      status ← read_ups_status env
      if shows_low_battery status then pure left else again
    let ask_owners = do
      owners ← ask_desktop_owners
      if any (λ o. reports_desktop_down o.shared) owners
          then log_event env desktop_shutdown_confirmed (some source_primary) >> pure left
          else if any (λ o. finished_desktop_handling o.shared) owners
          then log_event env desktop_shutdown_timeout (some source_primary) >> pure left
          else read_status
    if not (ltb t deadline)
        then log_event env desktop_shutdown_timeout none >> pure expired
        else if is_shutting_down mode
        then ask_owners
        else pure aborted

  -- `_observer_power_off_when_desktop_safe`
  unfoldable pub observer_power_off_when_desktop_safe : Action Done
  unfolding unless_aborted
  observer_power_off_when_desktop_safe = do
    owners ← ask_desktop_owners
    device ← gets (λ w. w.device)
    t ← now_ts env
    let max_wait = device.timing.observer_poweroff_max_wait
    let hold = do
      ended ← hold_power_off (suc max_wait) (t + max_wait)
      unless_aborted ended (power_off_ups env >> pure tt)
    if is_nil owners then power_off_ups env >> pure tt else hold

  -- What a thread runs.
  unfoldable pub run_worker : Worker → Action Done
  run_worker terminal_action_worker = terminal_action env
  run_worker force_shutdown_desktop_worker = action_force_shutdown_desktop
  run_worker wake_then_shutdown_worker = action_wake_then_shutdown
  run_worker observer_power_off_worker = observer_power_off_when_desktop_safe
