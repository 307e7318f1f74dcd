-- ===== src/Context/Recording.antt =====
-- The outage log of server/app/outage_log.py under the transitions of a context.
use ups_orchestrator.Prelude.{◌≡◌, String, Bool, true, false, Option, is_some, arith}
use ups_orchestrator.OutageLog.{record_start, record_end}
use ups_orchestrator.Context.State.{is_resting, Reason, Status, World, mode_of}
use ups_orchestrator.Context.Monad.{Env}
use ups_orchestrator.Context.Power.{terminal_action}
use ups_orchestrator.Context.Handlers.{note_own_power, notify_desktop_state_change}
use ups_orchestrator.Context.Phases.{
  start_observer, start_primary, start_phase, arm_phase, desktop_status, notify_desktop,
  reset_to_idle, reset_state_on_startup, start_battery_monitoring, execute_phase_action,
}
use ups_orchestrator.Context.Upholding.{SameState, IsUpheld}

-- A context that monitors or shuts down while its own UPS is on battery has an outage open in the
-- log.
abbrev pub IsRecorded : World → Type 0
IsRecorded w =
    is_resting (mode_of w.shared) ≡ false
    → w.ups_on_battery ≡ true
    → is_some w.outage_log.state ≡ true

SameState-IsRecorded : (w w' : World) → SameState w w' → IsRecorded w → IsRecorded w'
SameState-IsRecorded w w' (o, t, d, p, l) h = rw o (rw p (rw l h))

module _ (env : Env) where
  restart-IsRecorded : (w : World) → IsRecorded (reset_state_on_startup env w).1
  unfolding reset_state_on_startup
  restart-IsRecorded w active out = ground arith

  start-IsRecorded : (w : World) → IsRecorded w → IsRecorded (start_battery_monitoring env w).1
  unfolding start_battery_monitoring start_observer start_primary start_phase arm_phase
      desktop_status notify_desktop record_start
  start-IsRecorded w h active out = ground arith

  execute-IsRecorded :
      (r : Reason) (w : World) → IsRecorded w → IsRecorded (execute_phase_action env r w).1
  unfolding execute_phase_action record_end
  execute-IsRecorded r w h active out = ground (arith, h)

  reset-IsRecorded :
      (reason : String) (w : World) → IsRecorded w → IsRecorded (reset_to_idle env reason w).1
  unfolding reset_to_idle
  reset-IsRecorded reason w h active out = ground arith

  note-IsRecorded : (b : Bool) (w : World) → IsRecorded w → IsRecorded (note_own_power env b w).1
  unfolding note_own_power record_start
  note-IsRecorded b w h active out = ground (arith, h)

  report-IsRecorded :
      (s : Option Status) (w : World)
      → IsRecorded w
      → IsRecorded (notify_desktop_state_change env s w).1
  unfolding notify_desktop_state_change record_end
  report-IsRecorded s w h active out = ground (arith, h)

  terminal-IsRecorded : (w : World) → IsRecorded w → IsRecorded (terminal_action env w).1
  unfolding terminal_action
  terminal-IsRecorded w h active out = ground (arith, h)

pub IsRecorded-upheld : IsUpheld IsRecorded
IsRecorded-upheld = record {
  same = SameState-IsRecorded;
  restarted = restart-IsRecorded;
  started = start-IsRecorded;
  executed = execute-IsRecorded;
  stood_down = reset-IsRecorded;
  noted = note-IsRecorded;
  reported = report-IsRecorded;
  ended = terminal-IsRecorded;
}
