-- ===== src/Agent/Prompting.antt =====
-- The question to the user, from the server's push to what the agent does with the answer.
use ups_orchestrator.Prelude.{ℕ, suc, ◌≡◌, ◌⊎◌, none, some, ◌∷◌}
use ups_orchestrator.Context.State.{CommandId, pending, Command}
use ups_orchestrator.Agent.Monad.{CmdResult, acked, action, reason, asked, AgentEnv, AgentState}
use ups_orchestrator.Agent.Shutdown.{execute_shutdown}
use ups_orchestrator.Agent.Dialogs.{Choice}
use ups_orchestrator.Agent.Ending.{newest}
use ups_orchestrator.Agent.Chain.{status_after, result_after}

-- The command that `notify_desktop` makes at a stamp and a time.
abbrev state_at : ℕ → ℕ → Command
state_at stamp issued_at = record {
  id = record { prefix = "state"; stamp = stamp };
  command = "ups_state";
  event = some "ONBATT";
  status = pending;
  issued_at = issued_at;
  result = none;
  ack_at = none;
  expires_at = none;
}

-- The desktop once the server has been asked whether the command still stands.
abbrev checked : CommandId → AgentState → AgentState
checked id s = record { effects = asked id "ups_state" ∷ s.effects; ticks = suc s.ticks }

-- What the agent does with a choice: a cancelled command is acknowledged as such and nothing is run;
-- a shutdown is run and its result acknowledged last; a suspend succeeds, which is acknowledged last,
-- or ends with the whole shutdown.
unfoldable pub IsAnswered : AgentEnv → CommandId → Choice → AgentState → AgentState → Type 0
IsAnswered agent id Choice.cancel s s' =
    s'.effects ≡ acked id "cancelled" (reason "user_cancelled") ∷ s.effects
IsAnswered agent id Choice.shutdown s s' =
    (r : CmdResult) × ((execute_shutdown agent (checked id s)).0 ≡ some r)
    × (s'.effects
        ≡ acked id (status_after r) (result_after r)
          ∷ (execute_shutdown agent (checked id s)).1.effects)
IsAnswered agent id Choice.sleep s s' =
    (newest s'.effects ≡ some (acked id "done" (action "suspended")))
    ⊎ ((v : AgentState) × (s' ≡ (execute_shutdown agent v).1))
