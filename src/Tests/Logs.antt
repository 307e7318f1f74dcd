-- ===== src/Tests/Logs.antt =====
-- The theorems about the logs, the durations and Wake-on-LAN, each at an input.
use ups_orchestrator.Prelude.{◌++◌, ℕ, ◌≡◌, refl, none, some, List, [], ◌∷◌, String, All, take}
use ups_orchestrator.Prelude.Int.{pos, negsuc}
use ups_orchestrator.OutageLog.{OutageLog, shutdown_initiated}
use ups_orchestrator.OutageLog.Duration.{human_duration}
use ups_orchestrator.OutageLog.Duration.Reading.{read_back, read_back-human_duration}
use ups_orchestrator.OutageLog.Laws.{
  LogCall, start, finish, restart, beginnings, opened, run_calls, IsFinal, run_calls-beginnings,
  run_calls-IsFinal,
}
use ups_orchestrator.EventLog.{
  upscmd_sent, wol_sent, server_restarted, Call, record_all, full_log, record_all-take,
}

abbrev iso : ℕ → String
iso t = "then"

abbrev empty_log : OutageLog
empty_log = record { state = none; history = [] }

abbrev calls : List LogCall
calls = start 100 ∷ start 200 ∷ finish shutdown_initiated none 260 ∷ restart 900 ∷ start 950 ∷ []

run_calls-beginnings_example :
    beginnings (run_calls iso calls empty_log) ≡ opened iso calls ++ beginnings empty_log
run_calls-beginnings_example = run_calls-beginnings iso calls empty_log

run_calls-IsFinal_example : All (IsFinal iso) (run_calls iso calls empty_log).history
run_calls-IsFinal_example = run_calls-IsFinal iso calls empty_log tt

read_back-human_duration_example : read_back (human_duration (pos 3725)) ≡ 3725
read_back-human_duration_example = read_back-human_duration 3725

-- A part that is zero is left out.
some_durations :
    (human_duration (pos 3660) ≡ "1h 1m")
    × (human_duration (pos 59) ≡ "59s")
    × (human_duration (pos 7205) ≡ "2h 5s")
    × (human_duration (negsuc 4) ≡ "-5s")
unfolding human_duration
some_durations = (refl, refl, refl, refl)

abbrev logged : List (Call ℕ)
logged = (1, server_restarted, none) ∷ (2, wol_sent, some 5) ∷ (3, upscmd_sent, none) ∷ []

record_all-take_example : record_all iso 2 logged (take 2 []) ≡ take 2 (full_log iso 2 logged [])
record_all-take_example = record_all-take iso 2 logged []
