-- ===== src/Tests/Contexts.antt =====
-- The theorems about a context, each at an input.
use ups_orchestrator.Prelude.{
  contains, ℕ, ◌≤◌, none, [], suc, ◌+◌, ◌≡◌, ◌≢◌, ◌⊎◌, refl, true, false, some, ◌∷◌,
}
use ups_orchestrator.Config.{primary, observer, is_observer}
use ups_orchestrator.Context.State.{
  Mode, idle, monitoring_battery, Worker, terminal_action_worker, World, mode_of, orch_of, ran,
  status_of,
}
use ups_orchestrator.Context.Power.{power_off_ups, terminal_action, upscmd_argv}
use ups_orchestrator.Context.Phases.{start_battery_monitoring, phase_wait}
use ups_orchestrator.Context.Handlers.{lowbatt, onbatt, online, handle_event}
use ups_orchestrator.Context.Workers.{
  unless_aborted, out_of_fuel, expired, wait_for_desktop, hold_power_off, wait_for_online,
  ask_desktop_owners,
}
use ups_orchestrator.Context.Inputs.{event, poll, restart, timer_fired, handle, handle_all}
use ups_orchestrator.Context.LowBattery.{lowbatt-shuts_down}
use ups_orchestrator.Context.Recovery.{IsStoodDown, online-IsStoodDown}
use ups_orchestrator.Context.Moves.{may_move}
use ups_orchestrator.Context.Machine.{handle-Moves}
use ups_orchestrator.Context.Restraint.{Conduct}
use ups_orchestrator.Context.Conduct.{handle-Conduct}
use ups_orchestrator.Context.Shutdown.{terminal_action-safe}
use ups_orchestrator.Context.Waiting.{worker_waits-end}
use ups_orchestrator.Context.Wake.{send_wol}
use ups_orchestrator.Context.Monad.{pure, ◌>>◌, now_ts}
use ups_orchestrator.OutageLog.{OpenOutage, unknown, completed_entry}
use ups_orchestrator.Context.Leftover.{restart-leaves_open}
use ups_orchestrator.Context.Starting.{start_battery_monitoring-phase, first_phase, AtLeast, AtMost}
use ups_orchestrator.Context.Peers.{desktop_ups_on_battery}
use ups_orchestrator.Samples.{env, world_in, shared_in}

-- An observer on mains, a primary that is shutting down on battery, and a primary that prompts.
abbrev resting : World
resting = world_in observer idle false

abbrev dying : World
dying = world_in primary Mode.shutting_down true

abbrev prompting : World
prompting = world_in primary monitoring_battery true

lowbatt-shuts_down_example :
    let w = resting in
    let w' = (handle_event env lowbatt w).1 in
    (mode_of w'.shared ≡ Mode.shutting_down)
    × (w'.ups_on_battery ≡ true)
    × (((mode_of w.shared ≡ Mode.shutting_down) × (w'.threads ≡ w.threads))
        ⊎ ((x : Worker) × (w'.threads ≡ x ∷ w.threads)
            × (is_observer w.device ≡ true → x ≡ terminal_action_worker)))
lowbatt-shuts_down_example = lowbatt-shuts_down env resting

online-IsStoodDown_example :
    let w' = (handle_event env online dying).1 in IsStoodDown w' × (w'.threads ≡ dying.threads)
unfolding desktop_ups_on_battery
online-IsStoodDown_example = online-IsStoodDown env dying (λ k. refl) refl

terminal_action-safe_example :
    let w = dying in
    let w' = (terminal_action env w).1 in
    (w'.effects ≡ w.effects)
    ⊎ ((mode_of w.shared ≡ Mode.shutting_down)
        × (mode_of w'.shared ≡ Mode.shutting_down)
        × (((is_observer w.device ≡ true)
              × (w'.effects ≡ ran (upscmd_argv env w.device) ∷ w.effects))
            ⊎ ((is_observer w.device ≡ false) × (w'.ups_on_battery ≡ true))))
terminal_action-safe_example = terminal_action-safe env dying

handle-Conduct_example : Conduct prompting (handle env timer_fired prompting).1
handle-Conduct_example = handle-Conduct env timer_fired prompting (λ e. cc)

start_battery_monitoring-phase_example :
    let w = world_in primary idle true in
    let w' = (start_battery_monitoring env w).1 in
    let phase =
      first_phase
        (is_observer w.device)
        w.device.desktop
        (status_of w.desktop_file)
        (env.get_reply (suc w.ticks)) in
    let wait = phase_wait w.device.timing phase in
    (mode_of w'.shared ≡ monitoring_battery)
    × ((orch_of w'.orch_file).phase ≡ some phase)
    × AtLeast (w.clock + wait) (orch_of w'.orch_file).phase_deadline
    × AtMost wait w'.deadline_timer
start_battery_monitoring-phase_example =
    start_battery_monitoring-phase env (world_in primary idle true)

worker_waits-end_example :
    let timing = dying.device.timing in
    let w1 = (now_ts env dying).1 in
    let s1 = (now_ts env (send_wol env dying).1).1 in
    let s2 = (now_ts env s1).1 in
    let o1 = (now_ts env (ask_desktop_owners env dying).1).1 in
    let wait = timing.desktop_shutdown_wait in
    let window = timing.wake_online_timeout in
    let interval = timing.wol_retry_interval in
    let max_wait = timing.observer_poweroff_max_wait in
    ((wait_for_desktop env (suc wait) (w1.clock + wait) w1).0 ≢ out_of_fuel)
    × ((wait_for_online env (suc window) interval (s1.clock + window) (s2.clock + interval) s2).0
        ≢ out_of_fuel)
    × ((hold_power_off env (suc max_wait) (o1.clock + max_wait) o1).0 ≢ out_of_fuel)
worker_waits-end_example = worker_waits-end env dying

-- The process ended while the context monitored, and the UPS is on mains when it starts again.
abbrev left : OpenOutage
left = record {
  outage_start = 900;
  outage_start_dt = "2026-01-01T00:00:00+03:00";
  outcome = none;
  shutdown_ts = none;
}

abbrev crashed : World
crashed = record (world_in primary monitoring_battery false) {
  shared = record (shared_in monitoring_battery false) {
    outage_log = record { state = some left; history = [] };
  };
}

restart-leaves_open_example :
    let w' = handle_all env (restart ∷ event online ∷ poll "OL" ∷ []) crashed in
    (mode_of w'.shared ≡ idle)
    × (w'.outage_log ≡ crashed.outage_log)
    × ((t : ℕ) × (w'.clock ≤ t)
        × ((handle_event env onbatt w').1.outage_log.history
            ≡ completed_entry env.to_iso left unknown t ∷ []))
unfolding desktop_ups_on_battery contains
restart-leaves_open_example =
    restart-leaves_open env (event online ∷ poll "OL" ∷ []) crashed left (λ k. refl)
      (tt, ((refl, refl), tt)) refl refl refl

-- The observer is idle again when its longest wait is over, and its UPS is powered off all the same.
idle_powered_off :
    let held = hold_power_off env 2 1000 resting in
    (held.0 ≡ expired)
    × (mode_of held.1.shared ≡ idle)
    × ((unless_aborted env held.0 (power_off_ups env >> pure tt) held.1).1.effects
        ≡ ran (upscmd_argv env resting.device) ∷ resting.effects)
unfolding hold_power_off unless_aborted power_off_ups
idle_powered_off = (refl, refl, refl)

handle-Moves_example :
    may_move (mode_of resting.shared) (mode_of (handle env (event online) resting).1.shared) ≡ true
handle-Moves_example = handle-Moves env (event online) resting
