-- ===== src/OutageLog/Laws.antt =====
-- The outage log over whole outages and over any sequence of its operations.
use ups_orchestrator.Prelude.{
  ℕ, ◌≡◌, refl, ◌≢◌, inl, inr, ap, sym, ◌∙◌, Option-cases, Bool-cases, String, Option, none, some,
  List, [], ◌∷◌, ◌++◌, arith, All, append_assoc,
}
use ups_orchestrator.Prelude.Int.{sub_ℕ}
use ups_orchestrator.OutageLog.Duration.{human_duration}
use ups_orchestrator.OutageLog.{
  Outcome, power_restored_after_reboot, shutdown_initiated, unknown, OpenOutage, CompletedOutage,
  OutageLog, completed_entry, new_entry, record_start, record_end, resolve_on_startup, end_or_now,
  initiated,
}

-- The calls that other components make.
pub data LogCall : Type 0 where
  start : ℕ → LogCall
  finish : Outcome → Option ℕ → ℕ → LogCall
  restart : ℕ → LogCall

-- The beginnings of the outages that a log knows, in time and in text, the last first: that of the
-- open one, and those of the lines of the history.
abbrev pub open_beginning : Option OpenOutage → List (ℕ × String)
open_beginning none = []
open_beginning (some o) = (o.outage_start, o.outage_start_dt) ∷ []

abbrev pub line_beginnings : List CompletedOutage → List (ℕ × String)
line_beginnings [] = []
line_beginnings (line ∷ lines) = (line.outage_start, line.outage_start_dt) ∷ line_beginnings lines

abbrev pub beginnings : OutageLog → List (ℕ × String)
beginnings log = open_beginning log.state ++ line_beginnings log.history

module _ (to_iso : ℕ → String) where
  pub run_call : LogCall → OutageLog → OutageLog
  run_call (start ts) log = record_start to_iso ts log
  run_call (finish outcome end_ts now) log = record_end to_iso outcome end_ts now log
  run_call (restart ts) log = resolve_on_startup to_iso ts log

  pub run_calls : List LogCall → OutageLog → OutageLog
  run_calls [] log = log
  run_calls (c ∷ cs) log = run_calls cs (run_call c log)

  -- An outage in which a shutdown was initiated is written to the history at the next startup,
  -- with the restart as its end, however long before the shutdown began.
  resolve-record_end-record_start :
      (ts now restart_ts : ℕ) (log : OutageLog)
      → log.state ≡ none
      → resolve_on_startup to_iso restart_ts
          (record_end to_iso shutdown_initiated none now (record_start to_iso ts log))
        ≡ record {
          state = none;
          history =
              record {
                outage_start = ts;
                outage_start_dt = to_iso ts;
                outage_end = restart_ts;
                outage_end_dt = to_iso restart_ts;
                duration_seconds = sub_ℕ restart_ts ts;
                duration_human = human_duration (sub_ℕ restart_ts ts);
                outcome = power_restored_after_reboot;
              }
              ∷ log.history;
        }
  unfolding resolve_on_startup record_end record_start completed_entry new_entry
  resolve-record_end-record_start ts now restart_ts log closed = ground arith

  -- The outages that a call opens, and those that a sequence of calls opens, the last first.
  abbrev opened_by : LogCall → List (ℕ × String)
  opened_by (start ts) = (ts, to_iso ts) ∷ []
  opened_by (finish _ _ _) = []
  opened_by (restart _) = []

  pub opened : List LogCall → List (ℕ × String)
  opened [] = []
  opened (c ∷ cs) = opened cs ++ opened_by c

  run_call-beginnings :
      (c : LogCall) (log : OutageLog) → beginnings (run_call c log) ≡ opened_by c ++ beginnings log
  unfolding run_call record_start record_end resolve_on_startup completed_entry
  run_call-beginnings (start ts) log = ground arith
  run_call-beginnings (finish outcome end_ts now) log = ground arith
  run_call-beginnings (restart ts) log = ground arith

  -- After any calls each outage that was opened is in the history once, under its own beginning and in
  -- the order of the calls, or is the last one and still open; and no other has been added.
  pub run_calls-beginnings :
      (cs : List LogCall) (log : OutageLog)
      → beginnings (run_calls cs log) ≡ opened cs ++ beginnings log
  unfolding run_calls opened
  run_calls-beginnings [] log = refl
  run_calls-beginnings (c ∷ cs) log =
      run_calls-beginnings cs (run_call c log)
      ∙ ap (λ (known : List (ℕ × String)). opened cs ++ known) (run_call-beginnings c log)
      ∙ sym (append_assoc (opened cs) (opened_by c) (beginnings log))

  run_call-history :
      (c : LogCall) (log : OutageLog)
      → (new : List CompletedOutage) × ((run_call c log).history ≡ new ++ log.history)
  unfolding run_call record_start record_end resolve_on_startup
  run_call-history (start ts) log = elim (Option-cases log.state) [
    | inl e ↦ ([], ground arith)
    | inr (open_entry, e) ↦ (completed_entry to_iso open_entry unknown ts ∷ [], ground arith)
  ]
  run_call-history (finish shutdown_initiated end_ts now) log = ([], ground arith)
  run_call-history (finish outcome end_ts now) log = elim (Option-cases log.state) [
    | inl e ↦ ([], ground arith)
    | inr (open_entry, e) ↦
        (completed_entry to_iso open_entry outcome (end_or_now end_ts now) ∷ [], ground arith)
  ]
  run_call-history (restart ts) log = elim (Option-cases log.state) [
    | inl e ↦ ([], ground arith)
    | inr (open_entry, e) ↦ elim (Bool-cases (initiated open_entry.outcome)) [
      | inl b ↦
          (completed_entry to_iso open_entry power_restored_after_reboot ts ∷ [], ground arith)
      | inr b ↦ ([], ground arith)
    ]
  ]

  -- No call removes or rewrites a line of the history.
  run_calls-history :
      (cs : List LogCall) (log : OutageLog)
      → (new : List CompletedOutage) × ((run_calls cs log).history ≡ new ++ log.history)
  unfolding run_calls
  run_calls-history [] log = ([], refl)
  run_calls-history (c ∷ cs) log =
      let (first, e) = run_call-history c log in
      let (later, e') = run_calls-history cs (run_call c log) in
      (
        later ++ first,
        e'
            ∙ ap (λ (h : List CompletedOutage). later ++ h) e
            ∙ sym (append_assoc later first log.history),
      )

  -- What a line of the history may say.
  abbrev pub IsFinal : CompletedOutage → Type 0
  IsFinal line = line.outcome ≢ shutdown_initiated

  run_call-IsFinal :
      (c : LogCall) (log : OutageLog)
      → All IsFinal log.history
      → All IsFinal (run_call c log).history
  unfolding run_call record_start record_end resolve_on_startup completed_entry
  run_call-IsFinal (start ts) log h = ground arith
  run_call-IsFinal (finish outcome end_ts now) log h = ground arith
  run_call-IsFinal (restart ts) log h = ground arith

  -- If no line of the history has the outcome `shutdown_initiated`, then none has it after any calls: it
  -- marks an open outage only.
  pub run_calls-IsFinal :
      (cs : List LogCall) (log : OutageLog)
      → All IsFinal log.history
      → All IsFinal (run_calls cs log).history
  unfolding run_calls
  run_calls-IsFinal [] log h = h
  run_calls-IsFinal (c ∷ cs) log h =
      run_calls-IsFinal cs (run_call c log) (run_call-IsFinal c log h)
