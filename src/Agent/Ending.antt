-- ===== src/Agent/Ending.antt =====
-- How a suspend or a shutdown of the desktop ends.
use ups_orchestrator.Prelude.{
  ℕ, suc, ◌≡◌, ◌⊎◌, String, Bool, true, false, Option, some, none, is_some, List, [], ◌∷◌, arith,
}
use ups_orchestrator.Prelude.Int.{is_negative}
use ups_orchestrator.Context.State.{CommandId}
use ups_orchestrator.Agent.Monad.{
  CmdResult, action, ran, acked, Done, AgentEffect, AgentEnv, AgentState,
}
use ups_orchestrator.Agent.Shutdown.{
  execute_shutdown, succeeded, upsmon_cmd, poweroff_cmd, shutdown_cmd, first_word, do_shutdown,
}

-- Every program can be started, and ends with a result.
abbrev pub AllStart : AgentEnv → (ℕ → List String → CmdResult) → Type 0
AllStart env outcome = (k : ℕ) (argv : List String) → env.run k argv ≡ some (outcome k argv)

abbrev pub ended_well : Option CmdResult → Bool
ended_well none = false
ended_well (some r) = succeeded r

abbrev pub newest : List AgentEffect → Option AgentEffect
newest [] = none
newest (e ∷ es) = some e

module _ (env : AgentEnv) (outcome : ℕ → List String → CmdResult) (h : AllStart env outcome) where
  -- If every program can be started, the shutdown ends with the first program that ends with code 0,
  -- or it has run all: `pidof`, then `upsmon` with the process that it printed, `systemctl poweroff`
  -- and `shutdown -h now`, in this order.
  pub execute_shutdown-tries :
      (s : AgentState)
      → let pid = first_word (outcome s.ticks ("pidof" ∷ "upsmon" ∷ [])).output in
        (is_some (execute_shutdown env s).0 ≡ true)
        × ((ended_well (execute_shutdown env s).0 ≡ true)
            ⊎ ((execute_shutdown env s).1.effects
                ≡ ran (shutdown_cmd env)
                  ∷ ran (poweroff_cmd env)
                  ∷ ran (upsmon_cmd env pid)
                  ∷ ran ("pidof" ∷ "upsmon" ∷ [])
                  ∷ s.effects))
  unfolding execute_shutdown
  execute_shutdown-tries s =
      let pidof = "pidof" ∷ "upsmon" ∷ [] in
      let upsmon = upsmon_cmd env (first_word (outcome s.ticks pidof).output) in
      ground (
        arith,
        h s.ticks pidof,
        h (suc s.ticks) upsmon,
        h (suc (suc s.ticks)) (poweroff_cmd env),
        h (suc (suc (suc s.ticks))) (shutdown_cmd env),
      )

  pub do_shutdown-fail_safe :
      (id : CommandId) (name : String) (s : AgentState)
      → do_shutdown env id true name s ≡ (some tt, (execute_shutdown env s).1)
  unfolding do_shutdown
  do_shutdown-fail_safe id name s = ground (arith, execute_shutdown-tries s)

  abbrev Ended : CommandId → Option Done × AgentState → Type 0
  Ended id r =
      ((r.0 ≡ some tt)
        × ((newest r.1.effects ≡ some (acked id "done" (action "suspended")))
            ⊎ ((v : AgentState) × (r.1 ≡ (execute_shutdown env v).1))))
      ⊎ ((r.0 ≡ none) × (is_negative env.retry_delay ≡ true))
