-- ===== src/Agent/Obeying.antt =====
-- The agent and the preflight of the server.
use ups_orchestrator.Prelude.{
  ℕ, ◌≡◌, ◌≢◌, String, Bool, true, false, some, List, [], ◌∷◌, arith, refl, ap, ltb, Bool-cases,
  inl, inr,
}
use ups_orchestrator.Context.State.{CommandId, World, is_idle, mode_of}
use ups_orchestrator.Context.Monad.{Env}
use ups_orchestrator.Context.Handlers.{online, handle_event}
use ups_orchestrator.Context.Recovery.{DesktopOnMains}
use ups_orchestrator.Server.Routes.{Body, allowed, preflight, route}
use ups_orchestrator.Server.Preflight.{online-preflight}
use ups_orchestrator.Agent.Monad.{AgentEffect, ran, AgentEnv, AgentState}
use ups_orchestrator.Agent.Shutdown.{do_shutdown, do_suspend, shut_down_unless, suspend_unless}
use ups_orchestrator.Agent.Dialogs.{Choice}
use ups_orchestrator.Agent.Handler.{shut_down, obey, run_job}

-- The programs among the effects.
abbrev pub programs : List AgentEffect → List (List String)
programs [] = []
programs (ran argv ∷ es) = argv ∷ programs es
programs (_ ∷ es) = programs es

abbrev pub is_allowed : Body → Bool
is_allowed allowed = true
is_allowed _ = false

pub not_allowed-is_allowed : (b : Body) → b ≢ allowed → is_allowed b ≡ false
not_allowed-is_allowed b h = ground arith

module _ (env : AgentEnv) where
  -- No command passes the preflight.
  abbrev pub Refused : Type 0
  Refused = (k : ℕ) (id : CommandId) (name : String) → env.allows k id name ≡ some false

  obey-Refused :
      (id : CommandId) (choice : Choice) (s : AgentState)
      → Refused
      → programs (obey env id choice s).1.effects ≡ programs s.effects
  unfolding obey do_suspend suspend_unless do_shutdown shut_down_unless
  obey-Refused id Choice.cancel s h = refl
  obey-Refused id Choice.shutdown s h = ground (arith, h s.ticks id "ups_state")
  obey-Refused id Choice.sleep s h = ground (arith, h s.ticks id "ups_state")

  pub run_job-Refused :
      (id : CommandId) (delay : ℕ) (s : AgentState)
      → Refused
      → programs (run_job env (shut_down id delay) s).1.effects ≡ programs s.effects
  unfolding run_job do_shutdown shut_down_unless
  run_job-Refused id delay s h = elim (Bool-cases (ltb 0 delay)) [
    | inl e ↦ ground (arith, h s.ticks id "critical_shutdown")
    | inr e ↦ ground (arith, h s.ticks id "critical_shutdown")
  ]

module _ (env : Env) (max_age : ℕ) (agent : AgentEnv) where
  -- The agent, whose preflights are answered by the server in the state `w`.
  abbrev pub asking : World → AgentEnv
  asking w = record agent {
    allows = λ k id name. some (is_allowed (route env max_age (preflight id name) w).0.body);
  }

  -- After mains power has come back at a context in an outage, with no UPS of its desktop on battery,
  -- the desktop is left alone as long as its server stays so: whatever the user chooses in a prompt
  -- that is still open runs no program, and neither does a critical shutdown that is still delayed,
  -- whatever the command.
  pub online-obey :
      (w : World) (id : CommandId) (choice : Choice) (delay : ℕ) (s : AgentState)
      → DesktopOnMains env w
      → is_idle (mode_of w.shared) ≡ false
      → let desktop = asking (handle_event env online w).1 in
        (programs (obey desktop id choice s).1.effects ≡ programs s.effects)
        × (programs (run_job desktop (shut_down id delay) s).1.effects ≡ programs s.effects)
  online-obey w id choice delay s h m =
      let desktop = asking (handle_event env online w).1 in
      let no = λ (k : ℕ) (i : CommandId) (name : String).
        ap some (not_allowed-is_allowed _ (online-preflight env max_age i name w h m)) in
      (obey-Refused desktop id choice s no, run_job-Refused desktop id delay s no)
