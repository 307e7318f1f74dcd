-- ===== src/Context/Safety.antt =====
-- What the threads of a context run, from their start to their end.
use ups_orchestrator.Prelude.{
  ℕ, zero, suc, ◌+◌, ◌≡◌, ◌≢◌, ◌⊎◌, inl, inr, refl, ap, true, String, List, [], ◌∷◌, arith,
}
use ups_orchestrator.Config.{is_observer}
use ups_orchestrator.Context.State.{
  Mode, shutting_down, Effect, ran, World, mode_of, Worker, terminal_action_worker,
  force_shutdown_desktop_worker, wake_then_shutdown_worker, observer_power_off_worker,
}
use ups_orchestrator.Context.Monad.{Env, now_ts, sleep, get_mode, ◌>>=◌}
use ups_orchestrator.Context.Desktop.{
  fetch_state_from_desktop, push_command_to_desktop, make_critical_shutdown_command,
}
use ups_orchestrator.Context.Wake.{send_wol}
use ups_orchestrator.Context.Power.{terminal_action}
use ups_orchestrator.Context.Workers.{
  WaitEnd, aborted, left, expired, out_of_fuel, wait_then_terminal_action, wait_for_online, retry,
  push_shutdown, push_and_wait, unless_aborted, action_force_shutdown_desktop,
  action_wake_then_shutdown, run_worker,
}
use ups_orchestrator.Context.Shutdown.{terminal_action-safe}
use ups_orchestrator.Context.Waiting.{wait_then_terminal_action-safe}

-- The programs among the effects.
abbrev pub runs : List Effect → List (List String)
runs [] = []
runs (ran argv ∷ es) = argv ∷ runs es
runs (_ ∷ es) = runs es

-- No program is run, and the device stays.
abbrev Quiet : World → World → Type 0
Quiet w w' = (runs w'.effects ≡ runs w.effects) × (w'.device ≡ w.device)

-- A program is run only if the outage still is the context's at the end: it shuts down, and it is an
-- observer or its own UPS is on battery.
abbrev IsSafe : World → World → Type 0
IsSafe w w' =
    (runs w'.effects ≡ runs w.effects)
    ⊎ ((mode_of w'.shared ≡ shutting_down)
        × ((is_observer w.device ≡ true) ⊎ (w'.ups_on_battery ≡ true)))

Quiet-IsSafe : (u v w : World) → Quiet u v → IsSafe v w → IsSafe u w
Quiet-IsSafe u v w (r, d) s = ground arith

module _ (env : Env) where
  push_shutdown-Quiet : (w : World) → Quiet w (push_shutdown env w).1
  unfolding push_shutdown push_command_to_desktop make_critical_shutdown_command
  push_shutdown-Quiet w = ground arith

  send_wol-Quiet : (w : World) → Quiet w (send_wol env w).1
  unfolding send_wol
  send_wol-Quiet w = ground arith

  fetch-Quiet : (w : World) → Quiet w (fetch_state_from_desktop env w).1
  unfolding fetch_state_from_desktop
  fetch-Quiet w = ground arith

  retry-Quiet : (interval next : ℕ) (w : World) → Quiet w (retry env interval next w).1
  unfolding retry
  retry-Quiet interval next w = ground (arith, send_wol-Quiet (now_ts env w).1)

  wait_for_online-Quiet :
      (fuel interval deadline next : ℕ) (w : World)
      → Quiet w (wait_for_online env fuel interval deadline next w).1
  unfolding wait_for_online
  wait_for_online-Quiet zero interval deadline next w = (refl, refl)
  wait_for_online-Quiet (suc fuel) interval deadline next w =
      let w1 = (now_ts env w).1 in
      let w2 = (fetch_state_from_desktop env w1).1 in
      let again = retry env interval next w2 in
      ground (
        arith,
        fetch-Quiet w1,
        retry-Quiet interval next w2,
        wait_for_online-Quiet fuel interval deadline again.0 (sleep env again.1).1,
      )

  wait-IsSafe : (w : World) → IsSafe w (wait_then_terminal_action env w).1
  wait-IsSafe w = elim (wait_then_terminal_action-safe env w) [
    | inl e ↦ inl (ap runs e)
    | inr s ↦ inr s
  ]

  push_then_wait-IsSafe :
      (w : World) → IsSafe w (wait_then_terminal_action env (push_shutdown env w).1).1
  push_then_wait-IsSafe w =
      let v = (push_shutdown env w).1 in
      Quiet-IsSafe w v (wait_then_terminal_action env v).1 (push_shutdown-Quiet w) (wait-IsSafe v)

  push_and_wait-IsSafe : (mode : Mode) (w : World) → IsSafe w (push_and_wait env mode w).1
  unfolding push_and_wait
  push_and_wait-IsSafe Mode.shutting_down w = push_then_wait-IsSafe w
  push_and_wait-IsSafe Mode.idle w = inl refl
  push_and_wait-IsSafe Mode.monitoring_battery w = inl refl
  push_and_wait-IsSafe Mode.desktop_handled w = inl refl

  after_wait-IsSafe :
      (ended : WaitEnd) (w : World)
      → IsSafe w (unless_aborted env ended (get_mode >>= push_and_wait env) w).1
  unfolding unless_aborted
  after_wait-IsSafe aborted w = inl refl
  after_wait-IsSafe out_of_fuel w = inl refl
  after_wait-IsSafe left w = push_and_wait-IsSafe (mode_of w.shared) w
  after_wait-IsSafe expired w = push_and_wait-IsSafe (mode_of w.shared) w

  wake-IsSafe : (w : World) → IsSafe w (action_wake_then_shutdown env w).1
  unfolding action_wake_then_shutdown
  wake-IsSafe w =
      let v = (send_wol env w).1 in
      let timeout = v.device.timing.wake_online_timeout in
      let interval = v.device.timing.wol_retry_interval in
      let v1 = (now_ts env v).1 in
      let v2 = (now_ts env v1).1 in
      let ended =
        wait_for_online env (suc timeout) interval (v1.clock + timeout) (v2.clock + interval) v2 in
      let last = (unless_aborted env ended.0 (get_mode >>= push_and_wait env) ended.1).1 in
      Quiet-IsSafe w v last (send_wol-Quiet w) (
        Quiet-IsSafe v2 ended.1 last
          (wait_for_online-Quiet (suc timeout) interval (v1.clock + timeout) (v2.clock + interval)
            v2)
          (after_wait-IsSafe ended.0 ended.1))

  terminal-IsSafe : (w : World) → IsSafe w (terminal_action env w).1
  terminal-IsSafe w = elim (terminal_action-safe env w) [
    | inl e ↦ inl (ap runs e)
    | inr (_, m, inl (o, _)) ↦ inr (m, inl o)
    | inr (_, m, inr (_, b)) ↦ inr (m, inr b)
  ]

  -- Whatever the other threads do while it sleeps, a thread of a context, but for the observer's that
  -- holds its power-off, runs a program only if at its end the mode is still `shutting_down` and the
  -- context is an observer or its own UPS is on battery: power that came back is seen, after a wait
  -- for the desktop to shut down and after one for it to wake.
  pub run_worker-IsSafe :
      (x : Worker) (w : World)
      → x ≢ observer_power_off_worker
      → let w' = (run_worker env x w).1 in
        (runs w'.effects ≡ runs w.effects)
        ⊎ ((mode_of w'.shared ≡ shutting_down)
            × ((is_observer w.device ≡ true) ⊎ (w'.ups_on_battery ≡ true)))
  unfolding run_worker action_force_shutdown_desktop
  run_worker-IsSafe terminal_action_worker w n = terminal-IsSafe w
  run_worker-IsSafe force_shutdown_desktop_worker w n = push_then_wait-IsSafe w
  run_worker-IsSafe wake_then_shutdown_worker w n = wake-IsSafe w
  run_worker-IsSafe observer_power_off_worker w n = absurd (n refl)
