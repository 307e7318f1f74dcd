-- ===== src/Agent/Monad.antt =====
-- What the functions of desktop/app/agent.py and desktop/app/ui.py do: the programs that they run,
-- the requests that they make, and the exceptions that end them.
use ups_orchestrator.Prelude.{ℕ, suc, String, Bool, true, false, Option, none, some, List, ◌∷◌}
use ups_orchestrator.Prelude.Int.{ℤ, pos, negsuc}
use ups_orchestrator.Context.State.{CommandId}

-- What `run_cmd` returns: the return code and the stripped output. A negative code, for a program
-- that a signal ended, is any other number than those that the code tells apart.
pub record CmdResult : Type 0 where
  pub code : ℕ
  pub output : String

pub data PreflightStatus : Type 0 where
  allowed rejected error : PreflightStatus

-- The result that is sent with an acknowledgement.
pub data AckResult : Type 0 where
  reason action : String → AckResult
  action_output : String → String → AckResult

pub data AgentEffect : Type 0 where
  ran : List String → AgentEffect
  asked : CommandId → String → AgentEffect
  acked : CommandId → String → AckResult → AgentEffect
  slept : ℕ → AgentEffect
  warning_started : AgentEffect

-- The desktop and the configuration of the agent. A field that takes a number is asked at the number
-- of calls made so far.
pub record AgentEnv : Type 0 where
  -- `none` where `subprocess.run` raises, as it does for a program that is missing
  pub run : ℕ → List String → Option CmdResult
  -- `shutil.which` finds the program
  pub which : ℕ → String → Bool
  -- `allow` of the answer to the preflight, `none` where the request or its answer raises
  pub allows : ℕ → CommandId → String → Option Bool
  pub shared_token : String
  pub max_retries : ℤ
  pub retry_delay : ℤ
  pub force_suspend : Bool
  pub upsmon_bin : String
  pub shutdown_bin : String
  -- UI_PROMPT_TIMEOUT as text
  pub prompt_timeout : String

-- The effects so far, the newest first, and the number of calls.
pub record AgentState : Type 0 where
  pub effects : List AgentEffect
  pub ticks : ℕ

-- A call that returns, or `none` where it raises.
abbrev pub Task : Type 0 → Type 0
Task A = AgentState → Option A × AgentState

abbrev pub Done : Type 0
Done = Unit {0}

abbrev pub pure : {A : Type 0} → A → Task A
pure a s = (some a, s)

abbrev raised : {A : Type 0} → Task A
raised s = (none, s)

abbrev continue : {A B : Type 0} → Option A → AgentState → (A → Task B) → Option B × AgentState
continue none s k = (none, s)
continue (some a) s k = k a s

infixl 5 ◌>>=◌ ◌>>◌
abbrev pub ◌>>=◌ : {A B : Type 0} → Task A → (A → Task B) → Task B
◌>>=◌ m k s = continue (m s).0 (m s).1 k

abbrev pub ◌>>◌ : {A B : Type 0} → Task A → Task B → Task B
m >> k = m >>= λ _. k

abbrev handle : {A : Type 0} → Option A → AgentState → Task A → Option A × AgentState
handle none s k = k s
handle (some a) s k = (some a, s)

-- `try: m` with `except Exception: k`
abbrev pub except : {A : Type 0} → Task A → Task A → Task A
except m k s = handle (m s).0 (m s).1 k

abbrev pub when : Bool → Task Done → Task Done
when true m = m
when false m = pure tt

abbrev pub do_effect : AgentEffect → Task Done
do_effect e s = (some tt, record s { effects = e ∷ s.effects })

module _ (env : AgentEnv) where
  abbrev pub count : {A : Type 0} → (ℕ → Option A) → Task A
  count f s = (f s.ticks, record s { ticks = suc s.ticks })

  -- `run_cmd`
  abbrev pub run_cmd : List String → Task CmdResult
  run_cmd argv = do do_effect (ran argv); count λ k. env.run k argv

  abbrev status_of_answer : Option Bool → PreflightStatus
  status_of_answer none = error
  status_of_answer (some true) = allowed
  status_of_answer (some false) = rejected

  -- `preflight`, which catches what its request raises
  abbrev pub preflight : CommandId → String → Task PreflightStatus
  preflight id name = do
    do_effect (asked id name)
    count λ k. some (status_of_answer (env.allows k id name))

  -- `ack`, which does not return whether it got through
  abbrev pub ack : CommandId → String → AckResult → Task Done
  ack id status result = do_effect (acked id status result)

  abbrev pub sleep : ℕ → Task Done
  sleep seconds = do_effect (slept seconds)

  -- `time.sleep`, which raises ValueError for a number below 0.
  abbrev pub sleep_for : ℤ → Task Done
  sleep_for (pos seconds) = sleep seconds
  sleep_for (negsuc n) = raised
