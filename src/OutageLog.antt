-- ===== src/OutageLog.antt =====
-- server/app/outage_log.py: the outage that is in progress, and the history of completed ones.
-- The state file is `state`, `none` where it does not exist or does not parse, and the history
-- file is `history`, its last line first. What the log prints is left out.
pub mod Duration
pub mod Laws
pub use Duration.{human_duration}
use ups_orchestrator.Prelude.{
  ℕ, zero, suc, String, Bool, true, false, Option, none, some, List, ◌∷◌,
}
use ups_orchestrator.Prelude.Int.{ℤ, sub_ℕ}

pub data Outcome : Type 0 where
  power_restored power_restored_after_reboot shutdown_initiated unknown : Outcome

abbrev pub is_shutdown_initiated : Outcome → Bool
is_shutdown_initiated shutdown_initiated = true
is_shutdown_initiated _ = false

-- What `outage_state.json` holds.
pub record OpenOutage : Type 0 where
  pub outage_start : ℕ
  pub outage_start_dt : String
  pub outcome : Option Outcome
  pub shutdown_ts : Option ℕ

-- One line of `outage_history.jsonl`.
pub record CompletedOutage : Type 0 where
  pub outage_start : ℕ
  pub outage_start_dt : String
  pub outage_end : ℕ
  pub outage_end_dt : String
  pub duration_seconds : ℤ
  pub duration_human : String
  pub outcome : Outcome

pub record OutageLog : Type 0 where
  pub state : Option OpenOutage
  pub history : List CompletedOutage

-- Python's `end_ts or now_ts()`: 0 counts as false.
abbrev pub end_or_now : Option ℕ → ℕ → ℕ
end_or_now none now = now
end_or_now (some zero) now = now
end_or_now (some (suc n)) now = suc n

abbrev pub initiated : Option Outcome → Bool
initiated none = false
initiated (some o) = is_shutdown_initiated o

-- `to_iso` of state_store.py goes through the system's time zone tables.
module _ (to_iso : ℕ → String) where
  pub completed_entry : OpenOutage → Outcome → ℕ → CompletedOutage
  completed_entry state outcome end_ts = record {
    outage_start = state.outage_start;
    outage_start_dt = state.outage_start_dt;
    outage_end = end_ts;
    outage_end_dt = to_iso end_ts;
    duration_seconds = sub_ℕ end_ts state.outage_start;
    duration_human = human_duration (sub_ℕ end_ts state.outage_start);
    outcome = outcome;
  }

  pub append_completed : OpenOutage → Outcome → ℕ → OutageLog → OutageLog
  unfolding completed_entry
  append_completed state outcome end_ts log = record log {
    history = completed_entry state outcome end_ts ∷ log.history;
  }

  close_unclosed : Option OpenOutage → ℕ → OutageLog → OutageLog
  unfolding append_completed
  close_unclosed none onbatt_ts log = log
  close_unclosed (some state) onbatt_ts log = append_completed state unknown onbatt_ts log

  pub new_entry : ℕ → OpenOutage
  new_entry onbatt_ts = record {
    outage_start = onbatt_ts;
    outage_start_dt = to_iso onbatt_ts;
    outcome = none;
    shutdown_ts = none;
  }

  unfoldable pub record_start : ℕ → OutageLog → OutageLog
  unfolding close_unclosed new_entry
  record_start onbatt_ts log = record (close_unclosed log.state onbatt_ts log) {
    state = some (new_entry onbatt_ts);
  }

  end_open : Option OpenOutage → Outcome → ℕ → OutageLog → OutageLog
  unfolding append_completed
  end_open none outcome ts log = log
  end_open (some state) shutdown_initiated ts log = record log {
    state = some (record state { outcome = some shutdown_initiated; shutdown_ts = some ts });
  }
  end_open (some state) outcome ts log = record (append_completed state outcome ts log) {
    state = none;
  }

  -- `now` is the clock's reading where `end_ts` is not given.
  unfoldable pub record_end : Outcome → Option ℕ → ℕ → OutageLog → OutageLog
  unfolding end_open
  record_end outcome end_ts now log = end_open log.state outcome (end_or_now end_ts now) log

  resolve_open : Option OpenOutage → Bool → ℕ → OutageLog → OutageLog
  unfolding append_completed
  resolve_open none _ restart_ts log = log
  resolve_open (some state) false restart_ts log = log
  resolve_open (some state) true restart_ts log =
      record (append_completed state power_restored_after_reboot restart_ts log) { state = none }

  abbrev open_outcome : Option OpenOutage → Option Outcome
  open_outcome none = none
  open_outcome (some state) = state.outcome

  unfoldable pub resolve_on_startup : ℕ → OutageLog → OutageLog
  unfolding resolve_open
  resolve_on_startup restart_ts log =
      resolve_open log.state (initiated (open_outcome log.state)) restart_ts log
