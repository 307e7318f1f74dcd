-- ===== src/EventLog.antt =====
-- server/app/event_log.py: the log of actions, newest first and cut to a limit. The file is the
-- list of its entries, empty where it does not exist or does not parse.
use ups_orchestrator.Prelude.{
  ℕ, String, Option, ◌≡◌, refl, List, [], ◌∷◌, take, take-cons-take, ap, ◌∙◌,
}

-- The `EV_*` constants.
pub data Event : Type 0 where
  phase_started desktop_notified wol_sent wol_failed critical_shutdown_pushed : Event
  desktop_shutdown_confirmed desktop_shutdown_timeout desktop_shutdown_observed : Event
  server_self_shutdown server_restarted upscmd_sent upscmd_failed : Event

-- An entry; the detail is a JSON object or null.
pub record EventEntry (D : Type 0) : Type 0 where
  pub time : ℕ
  pub time_dt : String
  pub event : Event
  pub detail : Option D

-- One call of `record`: the clock's reading, the event and its detail.
abbrev pub Call : Type 0 → Type 0
Call D = ℕ × Event × Option D

module _ {D : Type 0} (to_iso : ℕ → String) (max_entries : ℕ) where
  unfoldable pub new_entry : ℕ → Event → Option D → EventEntry D
  new_entry ts event detail = record {
    time = ts;
    time_dt = to_iso ts;
    event = event;
    detail = detail;
  }

  write : List (EventEntry D) → List (EventEntry D)
  write entries = take max_entries entries

  unfoldable pub record_event : ℕ → Event → Option D → List (EventEntry D) → List (EventEntry D)
  unfolding new_entry write
  record_event ts event detail entries = write (new_entry ts event detail ∷ entries)

  pub record_all : List (Call D) → List (EventEntry D) → List (EventEntry D)
  unfolding record_event
  record_all [] entries = entries
  record_all ((ts, event, detail) ∷ calls) entries =
      record_all calls (record_event ts event detail entries)

  -- The log with no limit: every entry ever made, newest first.
  pub full_log : List (Call D) → List (EventEntry D) → List (EventEntry D)
  unfolding new_entry
  full_log [] entries = entries
  full_log ((ts, event, detail) ∷ calls) entries =
      full_log calls (new_entry ts event detail ∷ entries)

  -- The file holds the newest entries of the unlimited log, as many as the limit allows.
  pub record_all-take :
      (calls : List (Call D)) (entries : List (EventEntry D))
      → record_all calls (take max_entries entries) ≡ take max_entries (full_log calls entries)
  unfolding record_all full_log record_event write
  record_all-take [] entries = refl
  record_all-take ((ts, event, detail) ∷ calls) entries =
      let entry : EventEntry D = new_entry ts event detail in
      ap (record_all calls) (take-cons-take max_entries entry entries)
      ∙ record_all-take calls (entry ∷ entries)
