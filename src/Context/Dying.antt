-- ===== src/Context/Dying.antt =====
-- The threads of a primary in an outage that lasts.
use ups_orchestrator.Prelude.{
  ℕ, zero, suc, ◌+◌, ◌≡◌, ◌≢◌, refl, ap, ◌∙◌, Bool, true, false, List, ◌∷◌, arith, inl, inr,
  Bool-cases, ltb,
}
use ups_orchestrator.Config.{is_observer}
use ups_orchestrator.Context.State.{
  Mode, shutting_down, is_online, status_of, Phase, user_prompt, suspend_wait, offline_wait,
  low_battery_event, Effect, ran, World, mode_of,
}
use ups_orchestrator.Context.Monad.{Env, now_ts, sleep, get_mode, ◌>>=◌}
use ups_orchestrator.Context.Desktop.{
  fetch_state_from_desktop, push_command_to_desktop, make_critical_shutdown_command,
}
use ups_orchestrator.Context.Wake.{send_wol}
use ups_orchestrator.Context.Power.{upsmon_argv, terminal_action}
use ups_orchestrator.Context.Phases.{phase_worker}
use ups_orchestrator.Context.Workers.{
  WaitEnd, aborted, left, expired, out_of_fuel, wait_then_terminal_action, wait_for_online, retry,
  push_shutdown, push_and_wait, action_force_shutdown_desktop, action_wake_then_shutdown,
  run_worker,
}
use ups_orchestrator.Context.Shutdown.{
  fallback_runs, calls_after, terminal_action_cuts, terminal_action-calls,
}
use ups_orchestrator.Context.Waiting.{wait_for_online-ends}
use ups_orchestrator.Context.Lasting.{
  IsOut, StaysOut, unless_aborted-runs, wait_then_terminal_action-shuts_down,
}

-- The outage goes on, at the same device.
abbrev Carried : World → World → Type 0
Carried w v = (IsOut w.shared → IsOut v.shared) × (v.device ≡ w.device)

module _ (env : Env) where
  -- `upsmon` has been run, as the call `k`, and the fallback command where that is due by the answer
  -- of this call; nothing has been called after them.
  abbrev pub Died : World → Type 0
  Died w =
      (k : ℕ) × (es : List Effect) × (w.ticks ≡ calls_after env (env.run k (upsmon_argv env)) k)
      × (w.effects ≡ fallback_runs env (env.run k (upsmon_argv env)) (ran (upsmon_argv env) ∷ es))

  push_shutdown-Carried : (w : World) → Carried w (push_shutdown env w).1
  unfolding push_shutdown push_command_to_desktop make_critical_shutdown_command
  push_shutdown-Carried w = ground arith

  send_wol-Carried : (w : World) → Carried w (send_wol env w).1
  unfolding send_wol
  send_wol-Carried w = ground arith

  fetch-Carried : (w : World) → Carried w (fetch_state_from_desktop env w).1
  unfolding fetch_state_from_desktop
  fetch-Carried w = ground arith

  retry-Carried : (interval next : ℕ) (w : World) → Carried w (retry env interval next w).1
  unfolding retry
  retry-Carried interval next w = ground (arith, send_wol-Carried (now_ts env w).1)

  abbrev GoesOn : World → WaitEnd × World → Type 0
  GoesOn w r = (r.0 ≢ aborted) × IsOut r.1.shared × (r.1.device ≡ w.device)

  ended-GoesOn :
      (w v : World) (ended : WaitEnd)
      → ended ≢ aborted
      → IsOut v.shared
      → v.device ≡ w.device
      → GoesOn w (ended, v)
  ended-GoesOn w v ended e o d = (e, o, d)

  -- The wait for the desktop to wake is not aborted.
  wait_for_online-GoesOn :
      (fuel interval deadline next : ℕ) (w : World)
      → StaysOut env
      → IsOut w.shared
      → GoesOn w (wait_for_online env fuel interval deadline next w)
  unfolding wait_for_online
  wait_for_online-GoesOn zero interval deadline next w h o =
      ended-GoesOn w w out_of_fuel (λ e. cc e) o refl
  wait_for_online-GoesOn (suc fuel) interval deadline next w h o =
      let w1 = (now_ts env w).1 in
      let fetched = fetch_state_from_desktop env w1 in
      let w2 = fetched.1 in
      let fetch = fetch-Carried w1 in
      let r = retry env interval next w2 in
      let again = retry-Carried interval next w2 in
      let u = (sleep env r.1).1 in
      let out = again.0 (fetch.0 o) in
      let rest =
        wait_for_online-GoesOn fuel interval deadline r.0 u h (h r.1.ticks r.1.shared out) in
      elim (Bool-cases (ltb w1.clock deadline)) [
        | inr late ↦ rw late (ended-GoesOn w w1 expired (λ e. cc e) o refl)
        | inl e ↦ elim (Bool-cases (is_online (status_of fetched.0))) [
          | inl up ↦ rw (e, o.0, up) (ended-GoesOn w w2 left (λ e. cc e) (fetch.0 o) fetch.1)
          | inr down ↦ rw (e, o.0, down) (rest.0, rest.1, rest.2 ∙ again.1 ∙ fetch.1)
        ]
      ]

  -- The threads of a primary whose outage nothing ends.
  module _ (stays : StaysOut env) where
    wait-Died :
        (w : World)
        → is_observer w.device ≡ false
        → IsOut w.shared
        → Died (wait_then_terminal_action env w).1
    wait-Died w p o =
        let (k, calls, e) = wait_then_terminal_action-shuts_down env w stays p o in
        (k, w.effects, calls, e)

    push_then_wait-Died :
        (w : World)
        → is_observer w.device ≡ false
        → IsOut w.shared
        → Died (wait_then_terminal_action env (push_shutdown env w).1).1
    push_then_wait-Died w p o =
        let pushed = push_shutdown-Carried w in
        wait-Died (push_shutdown env w).1 (ap is_observer pushed.1 ∙ p) (pushed.0 o)

    push_and_wait-Died :
        (mode : Mode) (w : World)
        → mode ≡ shutting_down
        → is_observer w.device ≡ false
        → IsOut w.shared
        → Died (push_and_wait env mode w).1
    unfolding push_and_wait
    push_and_wait-Died mode w m p o = rw m (push_then_wait-Died w p o)

    wake-Died :
        (w : World)
        → is_observer w.device ≡ false
        → IsOut w.shared
        → Died (action_wake_then_shutdown env w).1
    unfolding action_wake_then_shutdown
    wake-Died w p o =
        let sent = send_wol-Carried w in
        let v = (send_wol env w).1 in
        let timeout = v.device.timing.wake_online_timeout in
        let interval = v.device.timing.wol_retry_interval in
        let v1 = (now_ts env v).1 in
        let v2 = (now_ts env v1).1 in
        let deadline = v1.clock + timeout in
        let next = v2.clock + interval in
        let ended = wait_for_online env (suc timeout) interval deadline next v2 in
        let goes =
          wait_for_online-GoesOn (suc timeout) interval deadline next v2 stays (sent.0 o) in
        let ends =
          wait_for_online-ends env (suc timeout) interval deadline next v2 (omega arith)
            (omega arith) in
        rw (unless_aborted-runs env ended.0 (get_mode >>= push_and_wait env) ended.1 goes.0 ends) (
          push_and_wait-Died (mode_of ended.1.shared) ended.1 goes.1.0
            (ap is_observer (goes.2 ∙ sent.1) ∙ p) goes.1)

    terminal_action-Died :
        (w : World) → is_observer w.device ≡ false → IsOut w.shared → Died (terminal_action env w).1
    terminal_action-Died w p o =
        let cut = terminal_action_cuts env w o.0 (λ _. o.1) in
        (suc w.ticks, w.effects, terminal_action-calls env w o.0 p o.1, ground (arith, cut, p))

    pub phase_worker-Died :
        (b : Bool) (phase : Phase) (w : World)
        → b ≡ false
        → is_observer w.device ≡ false
        → IsOut w.shared
        → Died (run_worker env (phase_worker b phase low_battery_event) w).1
    unfolding run_worker phase_worker action_force_shutdown_desktop
    phase_worker-Died true phase w b p o = absurd (true_false b)
      where
        true_false : true ≢ false
        true_false e = cc e
    phase_worker-Died false user_prompt w b p o = push_then_wait-Died w p o
    phase_worker-Died false suspend_wait w b p o = wake-Died w p o
    phase_worker-Died false offline_wait w b p o = terminal_action-Died w p o
