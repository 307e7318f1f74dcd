-- ===== src/Context/State.antt =====
-- What a UPSContext object and its files hold. A dictionary of the source is a record with the
-- keys that the code writes; a file is `none` where it does not exist or does not parse.
use ups_orchestrator.Prelude.{
  ℕ, String, Bool, true, false, Option, none, some, List, ◌==◌, str_eq, ◌&&◌,
}
use ups_orchestrator.Config.{UpsDeviceConfig}
use ups_orchestrator.OutageLog.{OutageLog}
use ups_orchestrator.EventLog.{EventEntry}
use ups_orchestrator.Wol.{Frame, WolError}

-- The `MODE_*` constants.
pub data Mode : Type 0 where
  idle monitoring_battery shutting_down desktop_handled : Mode

abbrev pub is_idle : Mode → Bool
is_idle idle = true
is_idle _ = false

abbrev pub is_monitoring : Mode → Bool
is_monitoring monitoring_battery = true
is_monitoring _ = false

abbrev pub is_shutting_down : Mode → Bool
is_shutting_down shutting_down = true
is_shutting_down _ = false

abbrev pub is_handled : Mode → Bool
is_handled desktop_handled = true
is_handled _ = false

-- `mode in (MODE_IDLE, MODE_DESKTOP_HANDLED)`
abbrev pub is_resting : Mode → Bool
is_resting idle = true
is_resting desktop_handled = true
is_resting _ = false

-- The `PHASE_*` constants.
pub data Phase : Type 0 where
  user_prompt offline_wait suspend_wait : Phase

abbrev pub is_user_prompt : Phase → Bool
is_user_prompt user_prompt = true
is_user_prompt _ = false

abbrev pub in_user_prompt : Option Phase → Bool
in_user_prompt none = false
in_user_prompt (some p) = is_user_prompt p

-- The reasons given to `_execute_phase_action`.
pub data Reason : Type 0 where
  phase_deadline low_battery low_battery_event suspend_due_event : Reason

-- `reason in LOW_BATTERY_REASONS`
abbrev pub is_low_battery : Reason → Bool
is_low_battery low_battery = true
is_low_battery low_battery_event = true
is_low_battery _ = false

-- A desktop's status: the texts that the code compares with, and any other.
pub data Status : Type 0 where
  online suspended offline shutting_down : Status
  other : String → Status

abbrev is_down_status : Status → Bool
is_down_status Status.offline = true
is_down_status Status.shutting_down = true
is_down_status _ = false

-- `status in ("offline", "shutting_down")`
abbrev pub is_down : Option Status → Bool
is_down none = false
is_down (some s) = is_down_status s

abbrev is_online_status : Status → Bool
is_online_status Status.online = true
is_online_status _ = false

abbrev pub is_online : Option Status → Bool
is_online none = false
is_online (some s) = is_online_status s

abbrev is_suspended_status : Status → Bool
is_suspended_status Status.suspended = true
is_suspended_status _ = false

-- desktop_state.json; a key that is missing or null is `none`.
pub record DesktopState : Type 0 where
  pub hostname : Option String
  pub status : Option Status
  pub user_active : Bool
  pub source : Option String
  pub last_seen : ℕ

abbrev pub status_of : Option DesktopState → Option Status
status_of none = none
status_of (some s) = s.status

-- orchestrator_state.json
pub record OrchestratorState : Type 0 where
  pub mode : Mode
  pub phase : Option Phase
  pub phase_deadline : Option ℕ
  pub onbatt_since : Option ℕ
  pub last_event : Option String
  pub updated_at : ℕ

-- f"{prefix}-{stamp}"
pub record CommandId : Type 0 where
  pub prefix : String
  pub stamp : ℕ

abbrev pub id_eq : CommandId → CommandId → Bool
id_eq a b = str_eq a.prefix b.prefix && a.stamp == b.stamp

pub data CommandStatus : Type 0 where
  pending cancelled : CommandStatus
  status : String → CommandStatus

abbrev pub is_pending : CommandStatus → Bool
is_pending pending = true
is_pending _ = false

-- command.json; `event` is the payload's, where there is one.
pub record Command : Type 0 where
  pub id : CommandId
  pub command : String
  pub event : Option String
  pub status : CommandStatus
  pub issued_at : ℕ
  pub result : Option String
  pub ack_at : Option ℕ
  pub expires_at : Option ℕ

-- The details of the entries in the event log.
pub data Detail : Type 0 where
  observer_phase : Phase → Detail
  primary_phase : Phase → Option Status → Bool → Detail  -- with the trigger "desktop_ups" or not
  command_sent : String → Detail
  command_error : String → String → Detail
  command_rc : String → ℕ → String → Detail
  mac : String → Detail
  mac_error : String → WolError → Detail
  seen_status : Option Status → Detail
  source_primary : Detail

-- What the threads of the server share of one context.
pub record Shared : Type 0 where
  pub orch_file : Option OrchestratorState
  pub desktop_file : Option DesktopState
  pub command_file : Option Command
  pub ups_on_battery : Bool
  -- the delay of the armed deadline timer
  pub deadline_timer : Option ℕ
  pub outage_log : OutageLog
  pub event_log : List (EventEntry Detail)

-- The functions that the code starts in a thread of their own.
pub data Worker : Type 0 where
  terminal_action_worker : Worker
  force_shutdown_desktop_worker : Worker
  wake_then_shutdown_worker : Worker
  observer_power_off_worker : Worker

-- What the code does to the world.
pub data Effect : Type 0 where
  ran : List String → Effect
  pushed : Command → Effect
  wol_frame : Frame → Effect

-- A context as one thread meets it: the shared state, and what this thread has done, last first.
-- `clock` is the time of the last external call, and `ticks` the number of such calls.
pub record World : Type 0 where
  pub device : UpsDeviceConfig
  pub shared : Shared
  pub open shared use *
  pub effects : List Effect
  pub threads : List Worker
  pub clock : ℕ
  pub ticks : ℕ

-- What one context sees of another.
pub record Peer : Type 0 where
  pub device : UpsDeviceConfig
  pub shared : Shared
  pub open shared use *

abbrev default_state : OrchestratorState
default_state = record {
  mode = idle;
  phase = none;
  phase_deadline = none;
  onbatt_since = none;
  last_event = none;
  updated_at = 0;
}

-- `read_json` of the state file with its default.
abbrev pub orch_of : Option OrchestratorState → OrchestratorState
orch_of none = default_state
orch_of (some s) = s

abbrev pub mode_of : Shared → Mode
mode_of s = (orch_of s.orch_file).mode
