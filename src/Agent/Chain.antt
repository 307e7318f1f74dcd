-- ===== src/Agent/Chain.antt =====
-- A command from the server's push to the agent's acknowledgement.
use ups_orchestrator.Prelude.{
  ℕ, suc, ◌≡◌, refl, ap, String, true, false, Option, none, some, List, ◌∷◌, arith, inl, inr,
  Option-cases, if◌then◌else◌,
}
use text.Mathlib.TextPositions.{eq_refl}
use ups_orchestrator.Config.{DesktopConfig}
use ups_orchestrator.Context.State.{CommandId, CommandStatus, pending, Command, World, pushed}
use ups_orchestrator.Context.Monad.{Env}
use ups_orchestrator.Context.Desktop.{push_command_to_desktop, make_critical_shutdown_command}
use ups_orchestrator.Context.Workers.{push_shutdown}
use ups_orchestrator.Server.Routes.{ack, route}
use ups_orchestrator.Server.Preflight.{IsCurrent, preflight-allowed, not_allowed}
use ups_orchestrator.Context.Recovery.{has_pending}
use ups_orchestrator.Agent.Monad.{
  CmdResult, AgentEffect, acked, action, action_output, AckResult, asked, warning_started, AgentEnv,
  AgentState,
}
use ups_orchestrator.Agent.Shutdown.{
  succeeded, execute_shutdown, do_shutdown, shut_down_unless, ack_shutdown,
}
use ups_orchestrator.Agent.Handler.{shut_down, AgentRequest, do_post, run_job}
use ups_orchestrator.Agent.Ending.{AllStart, execute_shutdown-tries, newest}
use ups_orchestrator.Agent.Obeying.{
  programs, asking, is_allowed, not_allowed-is_allowed, Refused, run_job-Refused,
}

-- The request that `push_command_to_desktop` makes, as the agent reads it.
abbrev pub pushed_request : String → Command → AgentRequest
pushed_request token c = record {
  token = token;
  path = "/command";
  command = some c.command;
  id = c.id;
  delay_seconds = 0;
  event = c.event;
}

-- The command that `push_shutdown` makes at a stamp and a time.
abbrev shutdown_at : ℕ → ℕ → Command
shutdown_at stamp issued_at = record {
  id = record { prefix = "shutdown"; stamp = stamp };
  command = "critical_shutdown";
  event = none;
  status = pending;
  issued_at = issued_at;
  result = none;
  ack_at = none;
  expires_at = none;
}

push_shutdown-shutdown_at :
    (env : Env) (w : World) (d : DesktopConfig)
    → w.device.desktop ≡ some d
    → let w' = (push_shutdown env w).1 in
      (stamp : ℕ) × (issued_at : ℕ) × (w'.command_file ≡ some (shutdown_at stamp issued_at))
      × (w'.effects ≡ pushed (shutdown_at stamp issued_at) ∷ w.effects)
unfolding push_shutdown push_command_to_desktop make_critical_shutdown_command
push_shutdown-shutdown_at env w d h = rw h (_, _, refl, refl)

do_post-shutdown_at :
    (agent : AgentEnv) (stamp issued_at : ℕ)
    → let c = shutdown_at stamp issued_at in
      do_post agent (pushed_request agent.shared_token c) ≡ (202, some (shut_down c.id 0))
unfolding do_post
do_post-shutdown_at agent stamp issued_at = rw (eq_refl agent.shared_token) refl

-- What is sent back of a shutdown, with its status.
abbrev pub status_after : CmdResult → String
status_after r = if succeeded r then "done" else "failed"

abbrev pub result_after : CmdResult → AckResult
result_after r = if succeeded r then action "shutdown" else action_output "shutdown" r.output

-- The desktop just before it shuts down: the warning is started and the server has been asked.
abbrev pub warned : CommandId → AgentState → AgentState
warned id s = record {
  effects = asked id "critical_shutdown" ∷ warning_started ∷ s.effects;
  ticks = suc s.ticks;
}

-- The shutdown has been run, and its result is acknowledged last.
unfoldable pub IsObeyed : AgentEnv → CommandId → AgentState → AgentState → CmdResult → Type 0
IsObeyed agent id s s' r =
    ((execute_shutdown agent (warned id s)).0 ≡ some r)
    × (s'.effects
        ≡ acked id (status_after r) (result_after r)
          ∷ (execute_shutdown agent (warned id s)).1.effects)

module _ (agent : AgentEnv) (outcome : ℕ → List String → CmdResult)
    (h : AllStart agent outcome) where
  run_job-IsObeyed :
      (id : CommandId) (s : AgentState)
      → agent.allows s.ticks id "critical_shutdown" ≡ some true
      → (r : CmdResult) × IsObeyed agent id s (run_job agent (shut_down id 0) s).1 r
  unfolding run_job do_shutdown shut_down_unless ack_shutdown IsObeyed
  run_job-IsObeyed id s a = elim (Option-cases (execute_shutdown agent (warned id s)).0) [
    | inl e ↦ let returns = (execute_shutdown-tries agent outcome h (warned id s)).0 in ground arith
    | inr (r, e) ↦ (r, (e, ground arith))
  ]

module _ (env : Env) (max_age : ℕ) where
  -- The server after an effect of the agent has reached it.
  unfoldable pub acknowledged : Option AgentEffect → World → World
  acknowledged (some (acked id status result)) w =
      (route env max_age (ack id (CommandStatus.status status)) w).1
  acknowledged _ w = w

  module _ (agent : AgentEnv) where
    -- A command that is acknowledged passes no preflight any more.
    pub ack-Refused :
        (c : Command) (status : String) (w : World)
        → w.command_file ≡ some c
        → Refused (
            asking env max_age agent
              (route env max_age (ack c.id (CommandStatus.status status)) w).1)
    unfolding route
    ack-Refused c status w known =
        let w' = (route env max_age (ack c.id (CommandStatus.status status)) w).1 in
        let cleared : has_pending w'.command_file ≡ false = ground (arith, eq_refl c.id.prefix) in
        λ k id name.
          ap some
            (not_allowed-is_allowed _ (not_allowed env max_age id name w'.command_file cleared))

    pub newest-Refused :
        (c : Command) (status : String) (result : AckResult) (effects es : List AgentEffect)
        (w : World)
        → w.command_file ≡ some c
        → effects ≡ acked c.id status result ∷ es
        → Refused (asking env max_age agent (acknowledged (newest effects) w))
    unfolding acknowledged
    newest-Refused c status result effects es w known e = rw e (ack-Refused c status w known)

    -- The stored command passes the preflight under its own id and name while it is pending.
    pub allows-stored :
        (c : Command) (w : World)
        → w.command_file ≡ some c
        → c.status ≡ pending
        → (k : ℕ) → (asking env max_age agent w).allows k c.id c.command ≡ some true
    allows-stored c w known waits k =
        let current : IsCurrent c.id c.command c = record {
          still_pending = waits;
          same_id = refl;
          same_name = refl;
        } in
        ap (λ b. some (is_allowed b))
          ((preflight-allowed env max_age c.id c.command w).0.1 (c, known, current))

-- If the desktop can start every program, a shutdown that the server pushes is obeyed: the agent
-- accepts the command and starts the thread for it, and as long as the server's state stays so, the
-- thread passes the preflight, runs the whole shutdown and acknowledges its result last. When the
-- server has that acknowledgement, the same command runs no program a second time.
pub push_shutdown-IsObeyed :
    (env : Env) (max_age : ℕ) (agent : AgentEnv) (outcome : ℕ → List String → CmdResult) (w : World)
    (d : DesktopConfig) (s : AgentState)
    → AllStart agent outcome
    → w.device.desktop ≡ some d
    → let w' = (push_shutdown env w).1 in
      let desktop = asking env max_age agent w' in
      (c : Command) × (w'.effects ≡ pushed c ∷ w.effects)
      × (do_post agent (pushed_request agent.shared_token c) ≡ (202, some (shut_down c.id 0)))
      × let s' = (run_job desktop (shut_down c.id 0) s).1 in
        let told = asking env max_age agent (acknowledged env max_age (newest s'.effects) w') in
        ((r : CmdResult) × IsObeyed desktop c.id s s' r)
        × (programs (run_job told (shut_down c.id 0) s').1.effects ≡ programs s'.effects)
unfolding IsObeyed
push_shutdown-IsObeyed env max_age agent outcome w d s starts has_desktop =
    let w' = (push_shutdown env w).1 in
    let desktop = asking env max_age agent w' in
    let (stamp, issued_at, stored, sent) = push_shutdown-shutdown_at env w d has_desktop in
    let c = shutdown_at stamp issued_at in
    let s' = (run_job desktop (shut_down c.id 0) s).1 in
    let (r, obeyed) =
      run_job-IsObeyed desktop outcome starts c.id s
        (allows-stored env max_age agent c w' stored refl s.ticks) in
    (
      c,
      sent,
      do_post-shutdown_at agent stamp issued_at,
      (
        (r, obeyed),
        run_job-Refused (asking env max_age agent (acknowledged env max_age (newest s'.effects) w'))
            c.id 0 s'
            (newest-Refused env max_age agent c (status_after r) (result_after r) s'.effects
              (execute_shutdown desktop (warned c.id s)).1.effects w' stored obeyed.1),
      ),
    )
