-- ===== src/Context/Monad.antt =====
-- A call of a method on a context, the calls that it makes of the system, and the accessors of the
-- files (`get_*` and `save_*` of server/app/ups_context.py, `now_ts` of state_store.py).
use ups_orchestrator.Prelude.{
  ℕ, suc, ◌+◌, String, Bool, true, false, Option, none, some, List, [], ◌∷◌, ◌==◌, if◌then◌else◌,
}
use ups_orchestrator.Prelude.Int.{ℤ}
use ups_orchestrator.Prelude.Texts.{strip, is_white}
use ups_orchestrator.Prelude.Numbers.{parse_int}
use ups_orchestrator.OutageLog.{Outcome, record_start, record_end}
use ups_orchestrator.EventLog.{Event, record_event}
use ups_orchestrator.Wol.{Net}
use ups_orchestrator.Context.State.{
  Mode, DesktopState, OrchestratorState, Command, Detail, Shared, Worker, Effect, World, Peer,
  orch_of, mode_of,
}

-- `requests.get` of the desktop's state: a RequestException, any other exception, or its JSON.
pub data GetReply : Type 0 where
  unreachable broken : GetReply
  reply : DesktopState → GetReply

-- `subprocess.run`: return code and stderr, FileNotFoundError, or any other exception. A negative
-- code, for a program that a signal ended, is any code other than 0.
pub data RunResult : Type 0 where
  completed : ℕ → String → RunResult
  not_found : RunResult
  raised : String → RunResult

-- The system and the configuration of the process. A field that takes a number is asked at the
-- number of external calls made so far, so every answer may differ from the last.
pub record Env : Type 0 where
  -- the seconds that pass before the call
  pub delay : ℕ → ℕ
  pub to_iso : ℕ → String
  pub max_entries : ℕ
  pub get_reply : ℕ → GetReply
  -- whether POST /command is answered without an exception
  pub post_ok : ℕ → Command → Bool
  pub run : ℕ → List String → RunResult
  -- `subprocess.run` of `upsc`, whose text is its stdout
  pub upsc : ℕ → List String → RunResult
  pub net : ℕ → Net
  pub peers : ℕ → List Peer
  -- what the other threads leave of the shared state while this one sleeps
  pub meanwhile : ℕ → Shared → Shared
  pub is_root : Bool
  pub upsmon_bin : String
  pub upscmd_bin : String
  pub upscmd_user : String
  pub upscmd_pass : String
  -- the words of UPS_SHUTDOWN_FALLBACK_CMD
  pub fallback_cmd : List String

-- The output of a program that ends with code 0.
unfoldable pub printed : RunResult → Option String
printed (completed code out) = if code == 0 then some (strip is_white out) else none
printed not_found = none
printed (raised error) = none

abbrev pub upsc_argv : String → String → List String
upsc_argv nut_name var = "upsc" ∷ nut_name ∷ var ∷ []

abbrev charge_of : Option String → Option ℤ
charge_of none = none
charge_of (some raw) = parse_int raw

abbrev pub Action : Type 0 → Type 0
Action A = World → A × World

abbrev pub Done : Type 0
Done = Unit {0}

module _ {A : Type 0} where
  abbrev pub pure : A → Action A
  pure a w = (a, w)

  abbrev pub gets : (World → A) → Action A
  gets f w = (f w, w)

infixl 5 ◌>>=◌ ◌>>◌
abbrev pub ◌>>=◌ : {A B : Type 0} → Action A → (A → Action B) → Action B
◌>>=◌ m f w = let (a, w') = m w in f a w'

abbrev pub ◌>>◌ : {A B : Type 0} → Action A → Action B → Action B
m >> k = m >>= λ _. k

abbrev pub when : Bool → Action Done → Action Done
when true m = m
when false m = pure tt

abbrev modify : (World → World) → Action Done
modify f w = (tt, f w)

abbrev pub modify_shared : (Shared → Shared) → Action Done
modify_shared f w = (tt, record w { shared = f w.shared })

-- `threading.Thread(target=worker, daemon=True).start()`
abbrev pub start_thread : Worker → Action Done
start_thread worker = modify λ w. record w { threads = worker ∷ w.threads }

abbrev pub do_effect : Effect → Action Done
do_effect e = modify λ w. record w { effects = e ∷ w.effects }

abbrev pub get_orchestrator_state : Action OrchestratorState
get_orchestrator_state = gets λ w. orch_of w.orch_file

abbrev pub get_mode : Action Mode
get_mode = gets λ w. mode_of w.shared

abbrev pub get_desktop_state : Action (Option DesktopState)
get_desktop_state = gets λ w. w.desktop_file

abbrev pub save_desktop_state : DesktopState → Action Done
save_desktop_state s = modify_shared λ h. record h { desktop_file = some s }

abbrev pub get_command : Action (Option Command)
get_command = gets λ w. w.command_file

abbrev pub save_command : Command → Action Done
save_command c = modify_shared λ h. record h { command_file = some c }

module _ (env : Env) where
  -- One external call: time passes, and the call is counted.
  abbrev pub ask : {A : Type 0} → (ℕ → A) → Action A
  ask f w = (f w.ticks, record w { clock = w.clock + env.delay w.ticks; ticks = suc w.ticks })

  abbrev pub now_ts : Action ℕ
  now_ts = do ask (λ _. tt); gets λ w. w.clock

  -- `_run_upsc`
  abbrev pub run_upsc : String → Action (Option String)
  run_upsc var = do
    device ← gets (λ w. w.device)
    ask λ k. printed (env.upsc k (upsc_argv device.nut_name var))

  abbrev pub read_ups_status : Action (Option String)
  read_ups_status = run_upsc "ups.status"

  abbrev pub read_ups_battery_charge : Action (Option ℤ)
  read_ups_battery_charge = do raw ← run_upsc "battery.charge"; pure (charge_of raw)

  -- `time.sleep(5)`: at least five seconds pass, and the other threads run.
  abbrev pub sleep : Action Done
  sleep w = (
    tt,
    record w {
      shared = env.meanwhile w.ticks w.shared;
      clock = w.clock + 5 + env.delay w.ticks;
      ticks = suc w.ticks;
    },
  )

  abbrev pub save_orchestrator_state : OrchestratorState → Action Done
  save_orchestrator_state s = do
    t ← now_ts
    modify_shared λ h. record h { orch_file = some (record s { updated_at = t }) }

  -- `self._event_log.record`
  abbrev pub log_event : Event → Option Detail → Action Done
  log_event event detail = do
    t ← now_ts
    modify_shared λ h. record h {
      event_log = record_event env.to_iso env.max_entries t event detail h.event_log;
    }

  -- `self._outage_log.record_start`
  abbrev pub outage_start : ℕ → Action Done
  outage_start ts =
      modify_shared λ h. record h { outage_log = record_start env.to_iso ts h.outage_log }

  -- `self._outage_log.record_end(outcome)`
  abbrev pub outage_end : Outcome → Action Done
  outage_end outcome = do
    t ← now_ts
    modify_shared λ h. record h { outage_log = record_end env.to_iso outcome none t h.outage_log }
