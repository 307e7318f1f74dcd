-- ===== src/Context/Lock.antt =====
-- `_action_lock` of server/app/ups_context.py: the parts of `_execute_phase_action`,
-- `notify_desktop_state_change`, `_reset_to_idle` and `_terminal_action` that hold it, and what
-- `_start_monitoring_if_mode` does under `_start_lock`.
use ups_orchestrator.Prelude.{
  ℕ, String, Bool, false, not, ◌&&◌, ◌||◌, Option, none, some, if◌then◌else◌,
}
use ups_orchestrator.OutageLog.{shutdown_initiated, record_end}
use ups_orchestrator.Context.Monad.{Env}
use ups_orchestrator.Context.Phases.{start_battery_monitoring}
use ups_orchestrator.Context.State.{
  Mode, idle, desktop_handled, is_monitoring, is_shutting_down, OrchestratorState, Shared, World,
  orch_of, mode_of,
}

-- What a thread runs under the lock, with the readings of the clock that it takes there.
pub data Section : Type 0 where
  execute : (saved ended : ℕ) → Section
  report : (saved : ℕ) → Section
  reset : (saved : ℕ) → Section
  finish : (saved : ℕ) (observer : Bool) → Section

-- The guards under the lock: `_execute_phase_action`,
abbrev execute_goes_on : Shared → Bool
execute_goes_on v = is_monitoring (mode_of v)

-- `notify_desktop_state_change`
abbrev report_goes_on : Shared → Bool
report_goes_on v = not (is_shutting_down (mode_of v))

-- `_terminal_action`
abbrev finish_goes_on : Bool → Shared → Bool
finish_goes_on observer v = is_shutting_down (mode_of v) && (observer || v.ups_on_battery)

-- The section goes on to start a thread once it has left the lock, or to cut the power.
abbrev pub goes_on : Section → Shared → Bool
goes_on (execute saved ended) = execute_goes_on
goes_on (report saved) = report_goes_on
goes_on (reset saved) = λ _. false
goes_on (finish saved observer) = finish_goes_on observer

-- The state that is saved, from the one that was read.
abbrev shut : OrchestratorState → ℕ → Option OrchestratorState
shut orch saved = some (record orch { mode = Mode.shutting_down; updated_at = saved })

-- A primary that shuts down on mains power.
abbrev pub is_handled_on_mains : Bool → Shared → Bool
is_handled_on_mains observer v =
    is_shutting_down (mode_of v) && (not observer && not v.ups_on_battery)

module _ (to_iso : ℕ → String) where
  -- What a section writes, where it had read `v`: `_execute_phase_action`.
  write_execute : ℕ → ℕ → Shared → Shared → Shared
  write_execute saved ended v h =
      if execute_goes_on v
      then record h {
        orch_file = shut (orch_of v.orch_file) saved;
        outage_log = record_end to_iso shutdown_initiated none ended h.outage_log;
      }
      else h

  -- `notify_desktop_state_change`, past its tests of the role and the mode
  write_report : ℕ → Shared → Shared → Shared
  write_report saved v h =
      if report_goes_on v then record h { orch_file = shut (orch_of v.orch_file) saved } else h

  -- `_reset_to_idle`
  write_reset : ℕ → Shared → Shared → Shared
  write_reset saved v h = record h {
    deadline_timer = none;
    orch_file = some (record (orch_of v.orch_file) {
      mode = idle;
      phase = none;
      phase_deadline = none;
      onbatt_since = none;
      last_event = some "ONLINE";
      updated_at = saved;
    });
  }

  -- `_terminal_action`
  write_finish : ℕ → Bool → Shared → Shared → Shared
  write_finish saved observer v h =
      if is_handled_on_mains observer v
      then record h {
        deadline_timer = none;
        orch_file = some (record (orch_of v.orch_file) {
          mode = desktop_handled;
          phase = none;
          phase_deadline = none;
          onbatt_since = none;
          updated_at = saved;
        });
      }
      else h

  unfoldable pub write_section : Section → Shared → Shared → Shared
  unfolding write_execute write_report write_reset write_finish
  write_section (execute saved ended) = write_execute saved ended
  write_section (report saved) = write_report saved
  write_section (reset saved) = write_reset saved
  write_section (finish saved observer) = write_finish saved observer

-- A call of `_start_monitoring_if_mode`: the answers that it gets, the context with its clock, and the
-- modes that it allows.
pub record StartCall : Type 0 where
  pub env : Env
  pub context : World
  pub allowed : Mode → Bool

abbrev pub may_start : StartCall → Shared → Bool
may_start c v = c.allowed (mode_of v)

-- The part under `_start_lock`; the mode that is saved in the end stands in the file that was read.
unfoldable pub write_start : StartCall → Shared → Shared → Shared
write_start c v h =
    if may_start c v
    then (start_battery_monitoring c.env
        (record c.context { shared = record h { orch_file = v.orch_file } })).1.shared
    else h
