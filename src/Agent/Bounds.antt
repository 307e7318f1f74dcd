-- ===== src/Agent/Bounds.antt =====
-- How many programs the agent runs at most.
use ups_orchestrator.Prelude.{
  ℕ, zero, String, suc, ◌+◌, ◌*◌, ◌≤◌, ◌==◌, ◌&&◌, Bool, true, length, arith,
}
use ups_orchestrator.Prelude.Int.{range_length}
use ups_orchestrator.Context.State.{CommandId}
use ups_orchestrator.Agent.Monad.{
  PreflightStatus, allowed, rejected, error, AgentEnv, AgentState, preflight, sleep_for,
}
use ups_orchestrator.Agent.Shutdown.{
  execute_shutdown, do_shutdown, ack_rejected, do_suspend, attempt_suspend, suspend_attempts,
  suspend_or_shut_down, suspend_unless,
}
use ups_orchestrator.Agent.Obeying.{programs}

abbrev pub count_programs : AgentState → ℕ
count_programs s = length (programs s.effects)

module _ (env : AgentEnv) where
  execute_shutdown-count :
      (s : AgentState) → count_programs (execute_shutdown env s).1 ≤ 4 + count_programs s
  unfolding execute_shutdown
  execute_shutdown-count s = ground arith

  attempt_suspend-count :
      (forced : Bool) (s : AgentState)
      → count_programs (attempt_suspend env forced s).1 ≤ 2 + count_programs s
  unfolding attempt_suspend
  attempt_suspend-count forced s = ground arith

  suspend_attempts-count :
      (id : CommandId) (left : ℕ) (s : AgentState)
      → count_programs (suspend_attempts env id left s).1 ≤ left * 2 + count_programs s
  unfolding suspend_attempts
  suspend_attempts-count id zero s = omega arith
  suspend_attempts-count id (suc left) s =
      let forced = left == 0 && env.force_suspend in
      let v = (attempt_suspend env forced s).1 in
      ground (
        arith,
        attempt_suspend-count forced s,
        suspend_attempts-count id left v,
        suspend_attempts-count id left (sleep_for env env.retry_delay v).1,
      )

  fail_safe-count :
      (id : CommandId) (name : String) (s : AgentState)
      → count_programs (do_shutdown env id true name s).1 ≤ 4 + count_programs s
  unfolding do_shutdown
  fail_safe-count id name s = ground (arith, execute_shutdown-count s)

  suspend_unless-count :
      (id : CommandId) (status : PreflightStatus) (s : AgentState)
      → count_programs (suspend_unless env id status s).1
        ≤ range_length env.max_retries * 2 + 4 + count_programs s
  unfolding suspend_unless suspend_or_shut_down ack_rejected
  suspend_unless-count id rejected s = omega arith
  suspend_unless-count id error s = omega (arith, fail_safe-count id "critical_shutdown" s)
  suspend_unless-count id allowed s =
      let tried = suspend_attempts env id (range_length env.max_retries) s in
      ground (
        arith,
        suspend_attempts-count id (range_length env.max_retries) s,
        fail_safe-count id "critical_shutdown" tried.1,
      )

  -- A suspend runs at most two programs for each configured attempt, one with `sudo`, and at most the
  -- four of the shutdown; so it never tries without end, whatever the programs answer, and also where
  -- one cannot be started.
  pub do_suspend-count :
      (id : CommandId) (s : AgentState)
      → count_programs (do_suspend env id s).1
        ≤ range_length env.max_retries * 2 + 4 + count_programs s
  unfolding do_suspend
  do_suspend-count id s = suspend_unless-count id _ (preflight env id "ups_state" s).1
