-- ===== src/Context/Gap.antt =====
-- The live query in `_start_battery_monitoring`: the method has read the orchestrator's state before
-- the query and writes it after, and another thread may act meanwhile. `_action_lock` is not held, and
-- a LOWBATT does not take `_start_lock`.
use ups_orchestrator.Prelude.{◌≡◌, refl, false, some, is_some, if◌then◌else◌}
use ups_orchestrator.Config.{is_observer}
use ups_orchestrator.Context.State.{
  monitoring_battery, shutting_down, OrchestratorState, Shared, World, mode_of,
}
use ups_orchestrator.Context.Monad.{
  Env, Action, Done, gets, ◌>>=◌, ◌>>◌, when, modify_shared, get_orchestrator_state, now_ts,
  outage_start,
}
use ups_orchestrator.Context.Phases.{
  start_battery_monitoring, start_primary, start_observer, start_phase, desktop_status,
  choose_phase,
}
use ups_orchestrator.Context.Starting.{start_phase-Begun}
use ups_orchestrator.Context.Power.{terminal_action}
use ups_orchestrator.Context.Shutdown.{terminal_action_aborts}
use ups_orchestrator.Context.Handlers.{lowbatt, handle_event}
use ups_orchestrator.Context.LowBattery.{lowbatt-shuts_down}

module _ (env : Env) (meanwhile : Shared → Shared) where
  -- The primary's part, with what the other threads do during the query.
  unfoldable start_primary_among : OrchestratorState → Action Done
  start_primary_among orch = do
    device ← gets (λ w. w.device)
    status ← desktop_status env device.desktop
    modify_shared meanwhile
    start_phase env orch status (choose_phase (is_some device.desktop) status)

  -- `_start_battery_monitoring` among other threads.
  unfoldable pub start_among : Action Done
  unfolding start_primary_among
  start_among = do
    device ← gets (λ w. w.device)
    orch ← get_orchestrator_state
    onbatt_ts ← now_ts env
    let started = record orch {
      mode = monitoring_battery;
      onbatt_since = some onbatt_ts;
      last_event = some "ONBATT";
    }
    on_battery ← gets (λ w. w.ups_on_battery)
    when on_battery (outage_start env onbatt_ts)
    if is_observer device then start_observer env started else start_primary_among started

  start_primary_among-mode :
      (orch : OrchestratorState) (w : World)
      → orch.mode ≡ monitoring_battery
      → mode_of (start_primary_among orch w).1.shared ≡ monitoring_battery
  unfolding start_primary_among
  start_primary_among-mode orch w m = (start_phase-Begun env orch _ _ _ m).0

  start_among-mode :
      (w : World)
      → is_observer w.device ≡ false
      → mode_of (start_among w).1.shared ≡ monitoring_battery
  unfolding start_among
  start_among-mode w o = rw o (start_primary_among-mode _ _ refl)

start_among-alone :
    (env : Env) (w : World) → start_among env (λ s. s) w ≡ start_battery_monitoring env w
unfolding start_among start_primary_among start_battery_monitoring start_primary
start_among-alone env w = refl

-- What another thread leaves that handles a LOWBATT meanwhile.
abbrev pub lowbatt_meanwhile : Env → World → Shared → Shared
lowbatt_meanwhile env w s = (handle_event env lowbatt (record w { shared = s })).1.shared

-- If no other thread acts during the live query, a primary's start is the one that the state machine
-- has. If another thread handles a LOWBATT during it, that thread has taken the context into
-- `shutting_down`, but the start then writes `monitoring_battery` over it, and the terminal action of
-- the LOWBATT does nothing; the same happens to whatever else the other threads leave.
pub start_among-overwrites :
    (env : Env) (w : World)
    → is_observer w.device ≡ false
    → (start_among env (λ s. s) w ≡ start_battery_monitoring env w)
      × ((s : Shared) → mode_of (lowbatt_meanwhile env w s) ≡ shutting_down)
      × ((meanwhile : Shared → Shared)
          → let w' = (start_among env meanwhile w).1 in
            (mode_of w'.shared ≡ monitoring_battery) × (terminal_action env w' ≡ (tt, w')))
start_among-overwrites env w primary = (
  start_among-alone env w,
  (λ s. (lowbatt-shuts_down env (record w { shared = s })).0),
  λ meanwhile.
      let monitors = start_among-mode env meanwhile w primary in
      (monitors, terminal_action_aborts env (start_among env meanwhile w).1 (rw monitors refl)),
)
