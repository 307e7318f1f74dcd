-- ===== src/Context/Inputs.antt =====
-- The calls that reach a context: from the poll loop, the HTTP routes, the deadline timer, the
-- start of the process, and the thread of `_terminal_action`.
use ups_orchestrator.Prelude.{String, Option, List, [], ◌∷◌}
use ups_orchestrator.Context.State.{Status, phase_deadline, World}
use ups_orchestrator.Context.Monad.{Env, Action, Done}
use ups_orchestrator.Context.Power.{terminal_action}
use ups_orchestrator.Context.Phases.{execute_phase_action, reset_state_on_startup}
use ups_orchestrator.Context.Handlers.{
  NutEvent, handle_ups_status_transition, handle_ups_status_unavailable, handle_event,
  notify_desktop_state_change,
}

pub data Input : Type 0 where
  poll : String → Input
  poll_failed : Input
  event : NutEvent → Input
  desktop_report : Option Status → Input
  timer_fired : Input
  restart : Input
  terminal : Input

module _ (env : Env) where
  unfoldable pub handle : Input → Action Done
  handle (poll ups_status) = handle_ups_status_transition env ups_status
  handle poll_failed = handle_ups_status_unavailable env
  handle (event e) = handle_event env e
  handle (desktop_report s) = notify_desktop_state_change env s
  handle timer_fired = execute_phase_action env phase_deadline
  handle restart = reset_state_on_startup env
  handle terminal = terminal_action env

  -- The inputs one after another.
  unfoldable pub handle_all : List Input → World → World
  handle_all [] w = w
  handle_all (i ∷ is) w = handle_all is (handle i w).1
