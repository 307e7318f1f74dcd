-- ===== src/Context/Holding.antt =====
-- What keeps a context from standing down.
use ups_orchestrator.Prelude.{ℕ, ◌≡◌, true, false, Option, arith, ap, ◌∙◌}
use ups_orchestrator.Context.State.{
  monitoring_battery, is_idle, OrchestratorState, World, mode_of, orch_of,
}
use ups_orchestrator.Context.Monad.{Env}
use ups_orchestrator.Context.Peers.{desktop_ups_on_battery}
use ups_orchestrator.Context.Phases.{
  execute_phase_action, check_phase_deadline, follow_desktop_ups, follow, ask_desktop_ups,
}
use ups_orchestrator.Context.Handlers.{online, handle_event, note_event, on_event, note_own_power}
use ups_orchestrator.Context.Recovery.{note_own_power-facts}

module _ (env : Env) where
  check_phase_deadline-mode :
      (w : World)
      → mode_of w.shared ≡ monitoring_battery
      → is_idle (mode_of (check_phase_deadline env w).1.shared) ≡ false
  unfolding check_phase_deadline execute_phase_action
  check_phase_deadline-mode w m = ground arith

  -- While a UPS of its desktop is on battery, mains power at a context that monitors does not stand it
  -- down, whatever its role.
  pub online_held :
      (w : World)
      → ((k : ℕ) → desktop_ups_on_battery w.device (env.peers k) ≡ true)
      → mode_of w.shared ≡ monitoring_battery
      → is_idle (mode_of (handle_event env online w).1.shared) ≡ false
  unfolding handle_event note_event on_event follow_desktop_ups follow
  online_held w h m =
      let w' = (note_own_power env false w).1 in
      let same = note_own_power-facts env false w in
      let asked = (ask_desktop_ups env w').1 in
      let mode' : mode_of w'.shared ≡ monitoring_battery =
        ap (λ (f : Option OrchestratorState). (orch_of f).mode) same.1 ∙ m in
      ground (arith, h w'.ticks, mode', same.3, check_phase_deadline-mode asked)
