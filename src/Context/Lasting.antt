-- ===== src/Context/Lasting.antt =====
-- The wait for the desktop in an outage that lasts.
use ups_orchestrator.Prelude.{ℕ, zero, suc, ◌+◌, ◌≡◌, ◌≢◌, refl, true, false, ◌∷◌, arith, Option}
use ups_orchestrator.Config.{is_observer}
use ups_orchestrator.Context.State.{
  Mode, Status, shutting_down, ran, Shared, World, mode_of, status_of,
}
use ups_orchestrator.Context.Monad.{Env, Action, now_ts, sleep}
use ups_orchestrator.Context.Power.{upsmon_argv, terminal_action}
use ups_orchestrator.Context.Workers.{
  WaitEnd, aborted, left, expired, out_of_fuel, wait_for_desktop, desktop_round,
  wait_then_terminal_action, unless_aborted,
}
use ups_orchestrator.Context.Shutdown.{
  fallback_runs, calls_after, terminal_action_cuts, terminal_action-calls,
}
use ups_orchestrator.Context.Waiting.{wait_for_desktop-ends, wait_for_desktop-Idle}

-- The context shuts down, and its own UPS is on battery.
abbrev pub IsOut : Shared → Type 0
IsOut s = (mode_of s ≡ shutting_down) × (s.ups_on_battery ≡ true)

module _ (env : Env) where
  -- Nothing that the other threads do ends the outage.
  abbrev pub StaysOut : Type 0
  StaysOut = (k : ℕ) (s : Shared) → IsOut s → IsOut (env.meanwhile k s)

  abbrev GoesOn : WaitEnd × World → Type 0
  GoesOn r = (r.0 ≢ aborted) × IsOut r.1.shared

  desktop_round-GoesOn :
      (t deadline : ℕ) (mode : Mode) (status : Option Status) (more : Action WaitEnd) (w : World)
      → mode ≡ shutting_down
      → IsOut w.shared
      → GoesOn (more w)
      → GoesOn (desktop_round env t deadline mode status more w)
  unfolding desktop_round
  desktop_round-GoesOn t deadline mode status more w m o h = ground arith

  wait_for_desktop-GoesOn :
      (fuel deadline : ℕ) (w : World)
      → StaysOut
      → IsOut w.shared
      → GoesOn (wait_for_desktop env fuel deadline w)
  unfolding wait_for_desktop
  wait_for_desktop-GoesOn zero deadline w h o = ground arith
  wait_for_desktop-GoesOn (suc fuel) deadline w h o =
      let w' = (now_ts env w).1 in
      desktop_round-GoesOn w'.clock deadline (mode_of w'.shared) (status_of w'.desktop_file) _ w'
        o.0 o (wait_for_desktop-GoesOn fuel deadline (sleep env w').1 h (h w'.ticks w'.shared o))

  pub unless_aborted-runs :
      (ended : WaitEnd) (m : Action _) (w : World)
      → ended ≢ aborted
      → ended ≢ out_of_fuel
      → unless_aborted env ended m w ≡ m w
  unfolding unless_aborted
  unless_aborted-runs left m w a f = refl
  unless_aborted-runs expired m w a f = refl
  unless_aborted-runs aborted m w a f = absurd (a refl)
  unless_aborted-runs out_of_fuel m w a f = absurd (f refl)

  -- At a primary whose outage nothing ends, the thread that waits for the desktop does shut the server
  -- down, whether or not the desktop ever reports that it is down: it runs `upsmon`, and after it the
  -- fallback command where that is due by the answer of that very call.
  pub wait_then_terminal_action-shuts_down :
      (w : World)
      → StaysOut
      → is_observer w.device ≡ false
      → IsOut w.shared
      → let w' = (wait_then_terminal_action env w).1 in
        (k : ℕ) × (w'.ticks ≡ calls_after env (env.run k (upsmon_argv env)) k)
        × (w'.effects
            ≡ fallback_runs env (env.run k (upsmon_argv env)) (ran (upsmon_argv env) ∷ w.effects))
  unfolding wait_then_terminal_action
  wait_then_terminal_action-shuts_down w h p o =
      let wait = w.device.timing.desktop_shutdown_wait in
      let w1 = (now_ts env w).1 in
      let ended = wait_for_desktop env (suc wait) (w1.clock + wait) w1 in
      let v = ended.1 in
      let idle = wait_for_desktop-Idle env (suc wait) (w1.clock + wait) w1 in
      let goes = wait_for_desktop-GoesOn (suc wait) (w1.clock + wait) w1 h o in
      let ends =
        wait_for_desktop-ends env (suc wait) (w1.clock + wait) w1 (omega arith) (omega arith) in
      let run = unless_aborted-runs ended.0 (terminal_action env) v goes.0 ends in
      let cut = terminal_action_cuts env v goes.1.0 (λ _. goes.1.1) in
      let calls = terminal_action-calls env v goes.1.0 (ground (arith, idle, p)) goes.1.1 in
      (suc v.ticks, rw run calls, rw run (ground (arith, cut, idle, p)))
