-- ===== src/Agent/Shutdown.antt =====
-- `_execute_shutdown`, `do_suspend` and `do_shutdown` of desktop/app/agent.py.
use Prim.Native.Char.{code}
use ups_orchestrator.Prelude.{
  ℕ, zero, suc, String, Bool, true, false, not, ◌&&◌, ◌||◌, List, [], ◌∷◌, leb, ltb, ◌==◌, str_eq,
  contains, if◌then◌else◌,
}
use ups_orchestrator.Prelude.Int.{range_length}
use ups_orchestrator.Context.State.{CommandId}
use ups_orchestrator.Agent.Monad.{
  CmdResult, PreflightStatus, allowed, rejected, error, reason, action, action_output, AgentEnv,
  Task, Done, pure, ◌>>=◌, ◌>>◌, when, run_cmd, preflight, ack, sleep_for,
}

abbrev space : ℕ → Bool
space c = c == 32 || leb 9 c && leb c 13 || leb 28 c && leb c 31

take_word : String → String
take_word String.[] = ""
take_word (String.◌∷◌ c s) =
    let rest = take_word s in if space (code c) then "" else String.◌∷◌ c rest

-- `text.split()[0] if text else ""` for a stripped text; white space is that of ASCII.
unfoldable pub first_word : String → String
unfolding take_word
first_word String.[] = ""
first_word (String.◌∷◌ c s) =
    let rest = first_word s in if space (code c) then rest else take_word (String.◌∷◌ c s)

-- `"Access denied" in out or "Interactive authentication required" in out`
unfoldable pub needs_auth : String → Bool
unfolding contains
needs_auth out = contains "Access denied" out || contains "Interactive authentication required" out

abbrev pub succeeded : CmdResult → Bool
succeeded r = r.code == 0

abbrev pub suspend_cmd : Bool → List String
suspend_cmd forced =
    if forced then "systemctl" ∷ "suspend" ∷ "-i" ∷ [] else "systemctl" ∷ "suspend" ∷ []

module _ (env : AgentEnv) where
  abbrev pub upsmon_cmd : String → List String
  upsmon_cmd pid =
      "sudo"
      ∷ "-n"
      ∷ env.upsmon_bin
      ∷ "-c"
      ∷ "fsd"
      ∷ (if str_eq pid "" then [] else "-P" ∷ pid ∷ [])

  abbrev pub poweroff_cmd : List String
  poweroff_cmd = "systemctl" ∷ "poweroff" ∷ []

  abbrev pub shutdown_cmd : List String
  shutdown_cmd = "sudo" ∷ "-n" ∷ env.shutdown_bin ∷ "-h" ∷ "now" ∷ []

  -- `_execute_shutdown`
  unfoldable pub execute_shutdown : Task CmdResult
  execute_shutdown = do
    found ← run_cmd env ("pidof" ∷ "upsmon" ∷ [])
    by_upsmon ← run_cmd env (upsmon_cmd (first_word found.output))
    let by_shutdown = run_cmd env shutdown_cmd
    let by_systemctl = do r ← run_cmd env poweroff_cmd; if succeeded r then pure r else by_shutdown
    if succeeded by_upsmon then pure by_upsmon else by_systemctl

  unfoldable pub ack_shutdown : CommandId → CmdResult → Task Done
  ack_shutdown id r =
      if succeeded r
      then ack env id "done" (action "shutdown")
      else ack env id "failed" (action_output "shutdown" r.output)

  unfoldable pub ack_rejected : CommandId → Task Done
  ack_rejected id = ack env id "failed" (reason "preflight_rejected")

  unfoldable pub shut_down_unless : CommandId → PreflightStatus → Task Done
  unfolding ack_rejected
  shut_down_unless id rejected = ack_rejected id
  shut_down_unless id allowed = do r ← execute_shutdown; ack_shutdown id r
  shut_down_unless id error = do r ← execute_shutdown; ack_shutdown id r

  -- `do_shutdown`
  unfoldable pub do_shutdown : CommandId → Bool → String → Task Done
  do_shutdown id true command_name = do execute_shutdown; pure tt
  do_shutdown id false command_name = do
    status ← preflight env id command_name
    shut_down_unless id status

  -- One attempt to suspend, and once more with `sudo` where it is refused.
  unfoldable pub attempt_suspend : Bool → Task CmdResult
  unfolding needs_auth
  attempt_suspend forced = do
    r ← run_cmd env (suspend_cmd forced)
    let again = run_cmd env ("sudo" ∷ "-n" ∷ suspend_cmd forced)
    if not (succeeded r) && needs_auth r.output then again else pure r

  -- The loop of `do_suspend`, with the attempts that are left; whether it returned from within.
  unfoldable pub suspend_attempts : CommandId → ℕ → Task Bool
  suspend_attempts id zero = pure false
  suspend_attempts id (suc left) = do
    r ← attempt_suspend (left == 0 && env.force_suspend)
    let suspended = do ack env id "done" (action "suspended"); pure true
    let again = do when (ltb 0 left) (sleep_for env env.retry_delay); suspend_attempts id left
    if succeeded r then suspended else again

  unfoldable pub suspend_or_shut_down : CommandId → Bool → Task Done
  suspend_or_shut_down id true = pure tt
  suspend_or_shut_down id false = do_shutdown id true "critical_shutdown"

  unfoldable pub suspend_unless : CommandId → PreflightStatus → Task Done
  unfolding ack_rejected
  suspend_unless id rejected = ack_rejected id
  suspend_unless id error = do_shutdown id true "critical_shutdown"
  suspend_unless id allowed = do
    suspended ← suspend_attempts id (range_length env.max_retries)
    suspend_or_shut_down id suspended

  -- `do_suspend`
  unfoldable pub do_suspend : CommandId → Task Done
  do_suspend id = do status ← preflight env id "ups_state"; suspend_unless id status
