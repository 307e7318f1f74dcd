-- ===== src/Context/Invariant.antt =====
-- The invariant of a context, and the transitions.
use ups_orchestrator.Prelude.{ℕ, ◌≡◌, Bool, true, Option, none, some, arith, is_some, String}
use ups_orchestrator.Config.{is_observer}
use ups_orchestrator.Context.State.{
  Mode, idle, monitoring_battery, shutting_down, desktop_handled, offline_wait, Reason,
  OrchestratorState, World, orch_of, mode_of,
}
use ups_orchestrator.Context.Monad.{Env}
use ups_orchestrator.Context.Power.{leave_monitoring}
use ups_orchestrator.Context.Handlers.{note_own_power}
use ups_orchestrator.Context.Phases.{
  start_observer, start_primary, start_phase, arm_phase, desktop_status, notify_desktop,
  reset_to_idle, start_battery_monitoring, execute_phase_action,
}

pub record IsResting (s : OrchestratorState) (timer : Option ℕ) : Type 0 where
  pub no_phase : s.phase ≡ none
  pub no_deadline : s.phase_deadline ≡ none
  pub no_start : s.onbatt_since ≡ none
  pub no_timer : timer ≡ none

pub record IsMonitoring (observer : Bool) (s : OrchestratorState) (timer : Option ℕ) : Type 0 where
  pub has_phase : is_some s.phase ≡ true
  pub has_deadline : is_some s.phase_deadline ≡ true
  pub has_start : is_some s.onbatt_since ≡ true
  pub has_timer : is_some timer ≡ true
  pub observer_phase : observer ≡ true → s.phase ≡ some offline_wait

-- A resting context has no phase, no deadline and no armed timer; one that monitors its battery has
-- all three, and an observer then only ever waits in the offline phase.
abbrev pub FitsMode : Mode → Bool → OrchestratorState → Option ℕ → Type 0
FitsMode idle observer s timer = IsResting s timer
FitsMode desktop_handled observer s timer = IsResting s timer
FitsMode monitoring_battery observer s timer = IsMonitoring observer s timer
FitsMode shutting_down observer s timer = is_some s.onbatt_since ≡ true

abbrev pub IsWellFormed : World → Type 0
IsWellFormed w =
    FitsMode (mode_of w.shared) (is_observer w.device) (orch_of w.orch_file) w.deadline_timer

module _ (env : Env) where
  leave_monitoring-IsWellFormed :
      (last_event : Option String) (w : World)
      → IsWellFormed (leave_monitoring env idle last_event w).1
        × IsWellFormed (leave_monitoring env desktop_handled last_event w).1
  unfolding leave_monitoring
  leave_monitoring-IsWellFormed last_event w = ground arith

  pub start_battery_monitoring-IsWellFormed :
      (w : World) → IsWellFormed (start_battery_monitoring env w).1
  unfolding start_battery_monitoring start_observer start_primary start_phase arm_phase
      desktop_status notify_desktop
  start_battery_monitoring-IsWellFormed w = ground arith

  pub execute_phase_action-IsWellFormed :
      (r : Reason) (w : World) → IsWellFormed w → IsWellFormed (execute_phase_action env r w).1
  unfolding execute_phase_action
  execute_phase_action-IsWellFormed r w h = ground arith

  pub reset_to_idle-IsWellFormed :
      (reason : String) (w : World) → IsWellFormed (reset_to_idle env reason w).1
  unfolding reset_to_idle
  reset_to_idle-IsWellFormed reason w = ground arith

  pub note_own_power-IsWellFormed :
      (b : Bool) (w : World) → IsWellFormed w → IsWellFormed (note_own_power env b w).1
  unfolding note_own_power
  note_own_power-IsWellFormed b w h = ground arith
