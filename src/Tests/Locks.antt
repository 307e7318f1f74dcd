-- ===== src/Tests/Locks.antt =====
-- The theorems about the locks of a context, each at an input.
use ups_orchestrator.Prelude.{
  ℕ, ◌≡◌, ◌≢◌, ◌++◌, refl, String, true, false, none, arith, List, [], ◌∷◌, ◌==◌, if◌then◌else◌,
}
use ups_orchestrator.Config.{primary}
use ups_orchestrator.Context.State.{
  Mode, low_battery, Shared, is_resting, is_monitoring, is_shutting_down, is_idle, mode_of,
}
use ups_orchestrator.Context.Lock.{
  Section, execute, report, reset, goes_on, write_section, StartCall, write_start,
}
use ups_orchestrator.Context.Threads.{
  whole, System, left, Interleaved, began, takes, reads, writes, leaves,
}
use ups_orchestrator.Context.Racing.{is_starter, starters-once, start_calls-once}
use ups_orchestrator.Context.Sections.{
  LockedCall, phase_action, stand_down, write_call, steps, calls-one_by_one,
}
use ups_orchestrator.Samples.{env, shared_in, world_in}

abbrev to_iso : ℕ → String
to_iso _ = "2026-01-01T00:00:00+03:00"

abbrev monitoring : Shared
monitoring = shared_in Mode.monitoring_battery true

-- Thread 1 waits until thread 0 has left the lock.
abbrev in_turn :
    (body : ℕ → Shared → Shared → Shared) (start : Shared)
    → (s : System) × Interleaved body start (1 ∷ 0 ∷ []) s × (s.holder ≡ none)
in_turn body start = (
  _,
  leaves _ _ 1 _
      (writes _ _ 1 _
        (reads _ _ 1
          (takes _ _ 1
            (leaves _ _ 0 _ (writes _ _ 0 _ (reads _ _ 0 (takes _ _ 0 began refl refl) refl) refl)
              refl)
            refl refl)
          refl)
        refl)
      refl,
  refl,
)

-- The deadline's phase action is first, and power comes back after it.
abbrev calls : ℕ → LockedCall
calls i = record {
  env = env;
  context = world_in primary Mode.monitoring_battery true;
  method = if i == 0 then phase_action low_battery else stand_down;
}

calls-one_by_one_example :
    (in_turn (λ i. write_call (calls i)) monitoring).0.shared ≡ steps calls (1 ∷ 0 ∷ []) monitoring
calls-one_by_one_example =
    calls-one_by_one calls monitoring (1 ∷ 0 ∷ [])
      (in_turn (λ i. write_call (calls i)) monitoring).0
      (in_turn (λ i. write_call (calls i)) monitoring).1 refl

-- A phase action and a desktop report.
abbrev racing : ℕ → Section
racing i = if i == 0 then execute 1200 1201 else report 1202

racing-is_starter : (i : ℕ) → is_starter (racing i) ≡ true
racing-is_starter i = ground arith

abbrev race : System
race = (in_turn (λ i. write_section to_iso (racing i)) monitoring).0

starters-once_example :
    ((j k : ℕ) (u v : Shared)
      → race.place j ≡ left u
      → goes_on (racing j) u ≡ true
      → race.place k ≡ left v
      → goes_on (racing k) v ≡ true
      → j ≡ k)
    × ((first : ℕ) (rest : List ℕ)
        → 1 ∷ 0 ∷ [] ≡ first ∷ rest
        → is_monitoring (mode_of monitoring) ≡ true
        → race.holder ≡ none
        → is_shutting_down (mode_of race.shared) ≡ true)
starters-once_example =
    starters-once to_iso racing monitoring (1 ∷ 0 ∷ []) race racing-is_starter
      (in_turn (λ i. write_section to_iso (racing i)) monitoring).1

-- An ONBATT of the UPS itself, and a poll that finds only the desktop's UPS out.
abbrev starting : ℕ → StartCall
starting i = record {
  env = env;
  context = world_in primary Mode.idle true;
  allowed = λ m. if i == 0 then is_resting m else is_idle m;
}

abbrev resting : Shared
resting = shared_in Mode.idle true

starting-refuses : (i : ℕ) → (starting i).allowed Mode.monitoring_battery ≡ false
starting-refuses i = ground arith

abbrev started : System
started = (in_turn (λ i. write_start (starting i)) resting).0

start_calls-once_example :
    ((j k : ℕ) (u v : Shared)
      → started.place j ≡ left u
      → whole (write_start (starting j)) u ≢ u
      → started.place k ≡ left v
      → whole (write_start (starting k)) v ≢ v
      → j ≡ k)
    × ((first : ℕ) (later : List ℕ)
        → 1 ∷ 0 ∷ [] ≡ later ++ first ∷ []
        → (starting first).allowed (mode_of resting) ≡ true
        → started.holder ≡ none
        → (started.shared ≡ whole (write_start (starting first)) resting)
          × (is_monitoring (mode_of started.shared) ≡ true))
start_calls-once_example =
    start_calls-once starting resting (1 ∷ 0 ∷ []) started starting-refuses
      (in_turn (λ i. write_start (starting i)) resting).1

-- Power comes back before a desktop report takes the lock, although the report had found the context
-- monitoring: it leaves `shutting_down` behind, and goes on to the terminal action.
abbrev late : ℕ → Section
late i = if i == 0 then reset 1200 else report 1202

late_report :
    let s = (in_turn (λ i. write_section to_iso (late i)) monitoring).0 in
    (is_shutting_down (mode_of s.shared) ≡ true)
    × ((v : Shared) × (s.place 1 ≡ left v)
        × (is_idle (mode_of v) ≡ true)
        × (goes_on (late 1) v ≡ true))
unfolding write_section
late_report = (refl, (_, refl, refl, refl))
