-- ===== src/Context/Fitting.antt =====
-- The parts of a context fit its mode, after any calls.
use ups_orchestrator.Prelude.{Option, List, ◌∷◌, arith}
use ups_orchestrator.Context.State.{Status, World}
use ups_orchestrator.Context.Monad.{Env}
use ups_orchestrator.Context.Power.{terminal_action}
use ups_orchestrator.Context.Handlers.{notify_desktop_state_change}
use ups_orchestrator.Context.Inputs.{Input, restart, handle, handle_all}
use ups_orchestrator.Context.Phases.{reset_state_on_startup}
use ups_orchestrator.Context.Invariant.{
  IsWellFormed, start_battery_monitoring-IsWellFormed, execute_phase_action-IsWellFormed,
  reset_to_idle-IsWellFormed, note_own_power-IsWellFormed,
}
use ups_orchestrator.Context.Upholding.{SameState, IsUpheld, handle_all-upheld}

SameState-IsWellFormed : (w w' : World) → SameState w w' → IsWellFormed w → IsWellFormed w'
SameState-IsWellFormed w w' (o, t, d, p, l) h = rw o (rw t (rw d h))

module _ (env : Env) where
  notify-IsWellFormed :
      (s : Option Status) (w : World)
      → IsWellFormed w
      → IsWellFormed (notify_desktop_state_change env s w).1
  unfolding notify_desktop_state_change
  notify-IsWellFormed s w h = ground arith

  reset_state_on_startup-IsWellFormed : (w : World) → IsWellFormed (reset_state_on_startup env w).1
  unfolding reset_state_on_startup
  reset_state_on_startup-IsWellFormed w = ground arith

  terminal_action-IsWellFormed :
      (w : World) → IsWellFormed w → IsWellFormed (terminal_action env w).1
  unfolding terminal_action
  terminal_action-IsWellFormed w h = ground arith

pub IsWellFormed-upheld : IsUpheld IsWellFormed
IsWellFormed-upheld = record {
  same = SameState-IsWellFormed;
  restarted = reset_state_on_startup-IsWellFormed;
  started = λ env w _. start_battery_monitoring-IsWellFormed env w;
  executed = execute_phase_action-IsWellFormed;
  stood_down = λ env reason w _. reset_to_idle-IsWellFormed env reason w;
  noted = note_own_power-IsWellFormed;
  reported = notify-IsWellFormed;
  ended = terminal_action-IsWellFormed;
}

module _ (env : Env) where
  -- From any state that the files were left in, a restart and then any polls, events, desktop
  -- reports, timers, terminal actions and restarts leave a context whose parts fit: while it rests it
  -- has no phase, deadline, outage start or armed timer; while it monitors it has all four, and an
  -- observer is then in the offline phase; while it shuts down it has an outage start.
  pub restarted-IsWellFormed :
      (is : List Input) (w : World) → IsWellFormed (handle_all env (restart ∷ is) w)
  unfolding handle_all handle
  restarted-IsWellFormed is w =
      handle_all-upheld IsWellFormed IsWellFormed-upheld env is (reset_state_on_startup env w).1
        (reset_state_on_startup-IsWellFormed env w)
