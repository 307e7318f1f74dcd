-- ===== src/Agent/Handler.antt =====
-- The requests that the agent answers, and the threads that they start: `LocalHandler` of
-- desktop/app/agent.py.
use ups_orchestrator.Prelude.{
  ℕ, String, Bool, true, false, not, Option, none, some, ltb, str_eq, if◌then◌else◌,
}
use ups_orchestrator.Context.State.{CommandId}
use ups_orchestrator.Agent.Monad.{
  reason, warning_started, AgentEnv, Task, Done, ◌>>=◌, ◌>>◌, except, when, do_effect, ack, sleep,
}
use ups_orchestrator.Agent.Shutdown.{do_shutdown, do_suspend}
use ups_orchestrator.Agent.Dialogs.{Choice, prompt_soft_suspend}

-- The two functions `handle`, with the command's id and its delay.
pub data Job : Type 0 where
  ask_user shut_down : CommandId → ℕ → Job

-- A request that parses, with the keys that the handler reads; a delay below 0 is 0.
pub record AgentRequest : Type 0 where
  pub token : String
  pub path : String
  pub command : Option String
  pub id : CommandId
  pub delay_seconds : ℕ
  pub event : Option String

abbrev pub is_text : Option String → String → Bool
is_text none t = false
is_text (some s) t = str_eq s t

module _ (env : AgentEnv) where
  -- `do_GET`: the code of the answer.
  unfoldable pub do_get : AgentRequest → ℕ
  do_get r =
      if not (str_eq r.token env.shared_token)
      then 403
      else if str_eq r.path "/state"
      then 200
      else 404

  -- `do_POST`: the code of the answer, and the thread that is started.
  unfoldable pub do_post : AgentRequest → ℕ × Option Job
  do_post r =
      if not (str_eq r.token env.shared_token)
      then (403, none)
      else if not (str_eq r.path "/command")
      then (404, none)
      else if is_text r.command "ups_state"
      then if is_text r.event "ONBATT"
        then (202, some (ask_user r.id r.delay_seconds))
        else (400, none)
      else if is_text r.command "critical_shutdown"
      then (202, some (shut_down r.id r.delay_seconds))
      else (400, none)

  -- What the user chose is done.
  unfoldable pub obey : CommandId → Choice → Task Done
  obey id Choice.sleep = do_suspend env id
  obey id Choice.shutdown = do_shutdown env id false "ups_state"
  obey id Choice.cancel = ack env id "cancelled" (reason "user_cancelled")

  unfoldable pub run_job : Job → Task Done
  run_job (ask_user id delay) = do
    when (ltb 0 delay) (sleep env delay)
    except (prompt_soft_suspend env >>= obey id) (do_shutdown env id true "critical_shutdown")
  run_job (shut_down id delay) = do
    when (ltb 0 delay) (sleep env delay)
    do_effect warning_started
    do_shutdown env id false "critical_shutdown"
