-- ===== src/Context/LowBattery.antt =====
-- What a low battery does, from every mode.
use ups_orchestrator.Prelude.{
  ◌≡◌, ◌⊎◌, inl, inr, refl, Bool, true, List, ◌∷◌, arith, or_else, ap, ◌∙◌,
}
use ups_orchestrator.Config.{is_observer}
use ups_orchestrator.Context.State.{
  Mode, idle, monitoring_battery, shutting_down, desktop_handled, is_monitoring, Phase,
  offline_wait, Reason, low_battery_event, Worker, terminal_action_worker, World, mode_of, orch_of,
}
use ups_orchestrator.Context.Monad.{Env}
use ups_orchestrator.Context.Phases.{
  start_observer, start_primary, start_phase, arm_phase, desktop_status, notify_desktop,
  execute_phase_action, start_battery_monitoring, phase_worker,
}
use ups_orchestrator.Context.Handlers.{
  lowbatt, handle_event, note_own_power, note_event, on_event, on_low_battery,
}
use ups_orchestrator.Context.Recovery.{note_own_power-facts}

phase_worker-observer :
    (b : Bool) (phase : Phase)
    → b ≡ true
    → phase_worker b phase low_battery_event ≡ terminal_action_worker
unfolding phase_worker
phase_worker-observer b phase h = ground arith

module _ (env : Env) where
  -- A phase action in the monitoring mode starts the one thread that the phase and the reason ask
  -- for, and goes over to `shutting_down`.
  pub execute_phase_action-starts :
      (r : Reason) (w : World)
      → is_monitoring (mode_of w.shared) ≡ true
      → let w' = (execute_phase_action env r w).1 in
        (mode_of w'.shared ≡ shutting_down)
        × (w'.ups_on_battery ≡ w.ups_on_battery)
        × (w'.threads
            ≡ phase_worker
                (is_observer w.device)
                (or_else (orch_of w.orch_file).phase offline_wait)
                r
              ∷ w.threads)
  unfolding execute_phase_action
  execute_phase_action-starts r w m = ground arith

  pub start_battery_monitoring-facts :
      (w : World)
      → let w' = (start_battery_monitoring env w).1 in
        (mode_of w'.shared ≡ monitoring_battery)
        × (w'.ups_on_battery ≡ w.ups_on_battery)
        × (w'.threads ≡ w.threads)
        × (w'.device ≡ w.device)
  unfolding start_battery_monitoring start_observer start_primary start_phase arm_phase
      desktop_status notify_desktop
  start_battery_monitoring-facts w = ground arith

  abbrev LaunchesLow : World → World → Type 0
  LaunchesLow w w' =
      ((mode_of w.shared ≡ shutting_down) × (w'.threads ≡ w.threads))
      ⊎ ((x : Worker) × (w'.threads ≡ x ∷ w.threads)
          × (is_observer w.device ≡ true → x ≡ terminal_action_worker))

  -- Monitoring started if need be, and then the phase action.
  start_then_act :
      (w v : World)
      → is_monitoring (mode_of v.shared) ≡ true
      → v.device ≡ w.device
      → v.threads ≡ w.threads
      → let w' = (execute_phase_action env low_battery_event v).1 in
        (mode_of w'.shared ≡ shutting_down)
        × (w'.ups_on_battery ≡ v.ups_on_battery)
        × LaunchesLow w w'
  start_then_act w v m d t =
      let (mode', power, threads') = execute_phase_action-starts low_battery_event v m in
      let x =
        phase_worker (is_observer v.device) (or_else (orch_of v.orch_file).phase offline_wait)
          low_battery_event in
      (
        mode',
        power,
        inr (
          x,
          threads' ∙ ap (λ (ts : List Worker). x ∷ ts) t,
          λ o. phase_worker-observer _ _ (ap is_observer d ∙ o),
        ),
      )

  on_low_battery-shuts_down :
      (mode : Mode) (w : World)
      → mode_of w.shared ≡ mode
      → let w' = (on_low_battery env mode low_battery_event w).1 in
        (mode_of w'.shared ≡ shutting_down)
        × (w'.ups_on_battery ≡ w.ups_on_battery)
        × LaunchesLow w w'
  unfolding on_low_battery
  on_low_battery-shuts_down shutting_down w e = (e, refl, inl (e, refl))
  on_low_battery-shuts_down monitoring_battery w e = start_then_act w w (rw e refl) refl refl
  on_low_battery-shuts_down idle w e =
      let (m, p, t, d) = start_battery_monitoring-facts w in
      let (m', p', l) = start_then_act w (start_battery_monitoring env w).1 (rw m refl) d t in
      (m', p' ∙ p, l)
  on_low_battery-shuts_down desktop_handled w e =
      let (m, p, t, d) = start_battery_monitoring-facts w in
      let (m', p', l) = start_then_act w (start_battery_monitoring env w).1 (rw m refl) d t in
      (m', p' ∙ p, l)

  -- A LOWBATT event ends, from any mode, in `shutting_down` with the UPS noted as on battery. Unless
  -- the context was shutting down already it starts exactly one thread: an observer's is the terminal
  -- action.
  pub lowbatt-shuts_down :
      (w : World)
      → let w' = (handle_event env lowbatt w).1 in
        (mode_of w'.shared ≡ shutting_down)
        × (w'.ups_on_battery ≡ true)
        × (((mode_of w.shared ≡ shutting_down) × (w'.threads ≡ w.threads))
            ⊎ ((x : Worker) × (w'.threads ≡ x ∷ w.threads)
                × (is_observer w.device ≡ true → x ≡ terminal_action_worker)))
  unfolding handle_event note_event on_event on_low_battery
  lowbatt-shuts_down w =
      let w' = (note_own_power env true w).1 in
      let (p, o, _, d, t) = note_own_power-facts env true w in
      ground (arith, on_low_battery-shuts_down (mode_of w'.shared) w' refl)
