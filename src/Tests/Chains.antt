-- ===== src/Tests/Chains.antt =====
-- The theorems about a command on its way through the server and the agent, each at an input.
use ups_orchestrator.Prelude.{◌≡◌, refl, true, some, ◌∷◌}
use ups_orchestrator.Config.{primary}
use ups_orchestrator.Context.State.{Mode, World, Command, pushed}
use ups_orchestrator.Context.Workers.{push_shutdown}
use ups_orchestrator.Agent.Monad.{CmdResult}
use ups_orchestrator.Agent.Handler.{shut_down, do_post, run_job}
use ups_orchestrator.Agent.Obeying.{programs, asking}
use ups_orchestrator.Agent.Ending.{newest}
use ups_orchestrator.Agent.Chain.{pushed_request, acknowledged, IsObeyed, push_shutdown-IsObeyed}
use ups_orchestrator.Samples.{env, world_in, desktop}
use ups_orchestrator.Tests.Agents.{outcome, agent, start}

abbrev dying : World
dying = world_in primary Mode.shutting_down true

push_shutdown-IsObeyed_example :
    let w' = (push_shutdown env dying).1 in
    let asked = asking env 300 agent w' in
    (c : Command) × (w'.effects ≡ pushed c ∷ dying.effects)
    × (do_post agent (pushed_request agent.shared_token c) ≡ (202, some (shut_down c.id 0)))
    × let s' = (run_job asked (shut_down c.id 0) start).1 in
      let told = asking env 300 agent (acknowledged env 300 (newest s'.effects) w') in
      ((r : CmdResult) × IsObeyed asked c.id start s' r)
      × (programs (run_job told (shut_down c.id 0) s').1.effects ≡ programs s'.effects)
push_shutdown-IsObeyed_example =
    push_shutdown-IsObeyed env 300 agent outcome dying desktop start (λ k argv. refl) refl

abbrev prompting : World
prompting = world_in primary Mode.monitoring_battery true
