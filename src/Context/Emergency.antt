-- ===== src/Context/Emergency.antt =====
-- From a low battery of a primary to the end of the server, in an outage that lasts.
use ups_orchestrator.Prelude.{◌≡◌, ◌≢◌, refl, ap, ◌∙◌, true, false, List, ◌∷◌, or_else}
use mathlib.Core.Path.{ap₂}
use ups_orchestrator.Config.{UpsDeviceConfig, is_observer}
use ups_orchestrator.Context.State.{
  Mode, idle, monitoring_battery, shutting_down, desktop_handled, is_monitoring, is_shutting_down,
  Phase, offline_wait, low_battery_event, Worker, World, mode_of, orch_of,
}
use ups_orchestrator.Context.Monad.{Env}
use ups_orchestrator.Context.Phases.{start_battery_monitoring, execute_phase_action, phase_worker}
use ups_orchestrator.Context.Handlers.{
  lowbatt, handle_event, note_own_power, note_event, on_event, on_low_battery,
}
use ups_orchestrator.Context.Workers.{run_worker}
use ups_orchestrator.Context.Lasting.{StaysOut}
use ups_orchestrator.Context.LowBattery.{
  execute_phase_action-starts, start_battery_monitoring-facts, lowbatt-shuts_down,
}
use ups_orchestrator.Context.Recovery.{note_own_power-facts}
use ups_orchestrator.Context.Conduct.{handle_event-Conduct}
use ups_orchestrator.Context.Dying.{Died, phase_worker-Died}

module _ (env : Env) where
  act_low-starts :
      (w v : World)
      → is_monitoring (mode_of v.shared) ≡ true
      → v.device ≡ w.device
      → v.threads ≡ w.threads
      → (phase : Phase) × ((execute_phase_action env low_battery_event v).1.threads
          ≡ phase_worker (is_observer w.device) phase low_battery_event ∷ w.threads)
  act_low-starts w v m d t =
      let phase = or_else (orch_of v.orch_file).phase offline_wait in
      let started = (execute_phase_action-starts env low_battery_event v m).2 in
      (
        phase,
        started
            ∙ ap₂
                (λ (device : UpsDeviceConfig) (ts : List Worker).
                  phase_worker (is_observer device) phase low_battery_event ∷ ts)
                d t,
      )

  low_battery-starts :
      (mode : Mode) (w : World)
      → mode_of w.shared ≡ mode
      → is_shutting_down mode ≡ false
      → (phase : Phase) × ((on_low_battery env mode low_battery_event w).1.threads
          ≡ phase_worker (is_observer w.device) phase low_battery_event ∷ w.threads)
  unfolding on_low_battery
  low_battery-starts shutting_down w e n = absurd (one_mode n)
    where
      one_mode : true ≢ false
      one_mode h = cc h
  low_battery-starts monitoring_battery w e n = act_low-starts w w (rw e refl) refl refl
  low_battery-starts idle w e n =
      let (m, p, t, d) = start_battery_monitoring-facts env w in
      act_low-starts w (start_battery_monitoring env w).1 (rw m refl) d t
  low_battery-starts desktop_handled w e n =
      let (m, p, t, d) = start_battery_monitoring-facts env w in
      act_low-starts w (start_battery_monitoring env w).1 (rw m refl) d t

  lowbatt-starts :
      (w : World)
      → is_shutting_down (mode_of w.shared) ≡ false
      → (phase : Phase) × ((handle_event env lowbatt w).1.threads
          ≡ phase_worker (is_observer w.device) phase low_battery_event ∷ w.threads)
  unfolding handle_event note_event on_event
  lowbatt-starts w n =
      let v = (note_own_power env true w).1 in
      let facts = note_own_power-facts env true w in
      let (phase, started) =
        low_battery-starts (mode_of v.shared) v refl
          (ap (λ file. is_shutting_down (orch_of file).mode) facts.1 ∙ n) in
      (
        phase,
        started
            ∙ ap₂
                (λ (device : UpsDeviceConfig) (ts : List Worker).
                  phase_worker (is_observer device) phase low_battery_event ∷ ts)
                facts.3 facts.4,
      )

  -- A LOWBATT at a primary that is not shutting down yet starts one thread, and if nothing that the
  -- other threads do ends the outage, that thread does shut the server down: whether it is to wake the
  -- desktop, to send it a shutdown or to act at once, and whatever the desktop answers, it runs
  -- `upsmon`, and after it the fallback command where one is configured and that run of `upsmon` ended
  -- with a code other than 0; these are its last calls.
  pub lowbatt-Died :
      (w : World)
      → StaysOut env
      → is_observer w.device ≡ false
      → is_shutting_down (mode_of w.shared) ≡ false
      → let w' = (handle_event env lowbatt w).1 in
        (x : Worker) × (w'.threads ≡ x ∷ w.threads) × Died env (run_worker env x w').1
  lowbatt-Died w stays p n =
      let w' = (handle_event env lowbatt w).1 in
      let (phase, started) = lowbatt-starts w n in
      let (mode', power, _) = lowbatt-shuts_down env w in
      let same = (handle_event-Conduct env lowbatt w).same_device in
      (
        phase_worker (is_observer w.device) phase low_battery_event,
        started,
        phase_worker-Died env stays (is_observer w.device) phase w' p (ap is_observer same ∙ p)
            (mode', power),
      )
