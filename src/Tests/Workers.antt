-- ===== src/Tests/Workers.antt =====
-- The theorems about the threads of a context, each at an input.
use ups_orchestrator.Prelude.{
  suc, ℕ, ◌+◌, ◌*◌, ◌≤◌, ◌<◌, ◌≡◌, ◌⊎◌, refl, true, false, ◌∷◌, [], arith,
}
use ups_orchestrator.Config.{primary, observer, is_observer}
use ups_orchestrator.Context.State.{
  is_shutting_down, Mode, Worker, Shared, World, ran, mode_of, wake_then_shutdown_worker,
}
use ups_orchestrator.Context.Monad.{Env}
use ups_orchestrator.Context.Power.{terminal_action, upscmd_argv}
use ups_orchestrator.Context.Phases.{start_battery_monitoring}
use ups_orchestrator.Context.Gap.{start_among, lowbatt_meanwhile, start_among-overwrites}
use ups_orchestrator.Context.Workers.{
  wait_for_online, run_worker, observer_power_off_when_desktop_safe,
}
use ups_orchestrator.Context.Packets.{frames, wait_for_online-frames}
use ups_orchestrator.Context.Safety.{runs, run_worker-IsSafe}
use ups_orchestrator.Context.Dying.{Died}
use ups_orchestrator.Context.Emergency.{lowbatt-Died}
use ups_orchestrator.Context.Handlers.{lowbatt, handle_event}
use ups_orchestrator.Context.Cutting.{power_off-IsCut}
use ups_orchestrator.Context.Sparing.{owners_at, Ends, power_off-IsJustified}
use ups_orchestrator.Samples.{device_of, env, env_with, world_in, shared_in}

abbrev dying : World
dying = world_in primary Mode.shutting_down true

-- Power comes back while the thread sleeps.
abbrev restored : Env
restored = env_with [] (λ k s. shared_in Mode.idle false)

run_worker-IsSafe_example :
    let w' = (run_worker restored wake_then_shutdown_worker dying).1 in
    (runs w'.effects ≡ [])
    ⊎ ((mode_of w'.shared ≡ Mode.shutting_down)
        × ((is_observer dying.device ≡ true) ⊎ (w'.ups_on_battery ≡ true)))
run_worker-IsSafe_example =
    run_worker-IsSafe restored wake_then_shutdown_worker dying (λ h. ground arith)

abbrev interval : ℕ
interval = 10

wait_for_online-frames_example :
    let w' = (wait_for_online env 4 interval 1060 (dying.clock + interval) dying).1 in
    (n : ℕ) × (frames w'.effects ≡ frames dying.effects + n)
    × (n * interval + dying.clock ≤ w'.clock)
    × (interval ≡ 0 → n ≡ 0)
wait_for_online-frames_example = wait_for_online-frames env 4 interval 1060 dying

-- ONBATT and LOWBATT reach the server at the same time.
abbrev resting : World
resting = world_in primary Mode.idle false

start_among-overwrites_example :
    (start_among env (λ s. s) resting ≡ start_battery_monitoring env resting)
    × ((s : Shared) → mode_of (lowbatt_meanwhile env resting s) ≡ Mode.shutting_down)
    × ((meanwhile : Shared → Shared)
        → let w' = (start_among env meanwhile resting).1 in
          (mode_of w'.shared ≡ Mode.monitoring_battery) × (terminal_action env w' ≡ (tt, w')))
start_among-overwrites_example = start_among-overwrites env resting refl

lowbatt-Died_example :
    let w' = (handle_event env lowbatt resting).1 in
    (x : Worker) × (w'.threads ≡ x ∷ resting.threads) × Died env (run_worker env x w').1
lowbatt-Died_example = lowbatt-Died env resting (λ k s o. o) refl refl

-- The primary that owns the desktop has finished with it.
abbrev owned : Env
owned =
    env_with
      (record { device = device_of primary; shared = shared_in Mode.desktop_handled false } ∷ [])
      (λ k s. s)

abbrev holding : World
holding = world_in observer Mode.shutting_down true

power_off-IsCut_example :
    let w' = (observer_power_off_when_desktop_safe owned holding).1 in
    let begun = holding.clock + owned.delay holding.ticks + owned.delay (suc holding.ticks) in
    (w'.effects ≡ ran (upscmd_argv owned holding.device) ∷ holding.effects)
    ⊎ ((w'.effects ≡ holding.effects)
        × (is_shutting_down (mode_of w'.shared) ≡ false)
        × (w'.clock < begun + holding.device.timing.observer_poweroff_max_wait))
power_off-IsCut_example = power_off-IsCut owned holding

power_off-IsJustified_example :
    let w' = (observer_power_off_when_desktop_safe owned holding).1 in
    (w'.effects ≡ holding.effects)
    ⊎ ((w'.effects ≡ ran (upscmd_argv owned holding.device) ∷ holding.effects)
        × ((owners_at owned holding.device holding.ticks ≡ [])
            ⊎ (((k : ℕ) × (holding.ticks < k) × Ends owned holding.device k)
                ⊎ (holding.clock + holding.device.timing.observer_poweroff_max_wait ≤ w'.clock))))
power_off-IsJustified_example = power_off-IsJustified owned holding
