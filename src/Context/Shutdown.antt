-- ===== src/Context/Shutdown.antt =====
-- What `_terminal_action`, `_self_shutdown` and `_power_off_ups` run, and when.
use ups_orchestrator.Prelude.{
  ℕ, zero, suc, ◌≡◌, ◌⊎◌, Bool, true, false, none, List, ◌∷◌, arith, is_nil, not, ◌&&◌,
  if◌then◌else◌,
}
use ups_orchestrator.Config.{is_observer}
use ups_orchestrator.Context.State.{
  shutting_down, desktop_handled, is_shutting_down, Effect, ran, World, mode_of,
}
use ups_orchestrator.Context.Monad.{Env, RunResult, completed, not_found, raised}
use ups_orchestrator.Context.Power.{
  power_off_ups, self_shutdown, terminal_action, upscmd_argv, upsmon_argv,
}

-- Whether the fallback command is due after `upsmon` ended so: only a return code other than 0 asks
-- for it.
abbrev wants_fallback : RunResult → Bool
wants_fallback (completed zero stderr) = false
wants_fallback (completed (suc rc) stderr) = true
wants_fallback not_found = false
wants_fallback (raised exc) = false

abbrev pub succeeded : RunResult → Bool
succeeded (completed zero stderr) = true
succeeded (completed (suc rc) stderr) = false
succeeded not_found = false
succeeded (raised exc) = false

module _ (env : Env) where
  -- The number of the calls once `upsmon` has been run as the call `k`, and the fallback command if
  -- it is due.
  abbrev pub calls_after : RunResult → ℕ → ℕ
  calls_after r k = if wants_fallback r && not (is_nil env.fallback_cmd) then suc (suc k) else suc k

  abbrev pub fallback_runs : RunResult → List Effect → List Effect
  fallback_runs r before =
      if wants_fallback r && not (is_nil env.fallback_cmd)
      then ran env.fallback_cmd ∷ before
      else before

  -- The self-shutdown runs `upsmon -c fsd`, by `sudo` if the process is not root, and then the
  -- fallback command if one is configured and `upsmon` ended with a code other than 0; it runs
  -- nothing else and starts no thread.
  self_shutdown-effects :
      (w : World)
      → let w' = (self_shutdown env w).1 in
        (w'.effects
          ≡ fallback_runs
              (env.run (suc w.ticks) (upsmon_argv env))
              (ran (upsmon_argv env) ∷ w.effects))
        × (w'.threads ≡ w.threads)
        × (w'.device ≡ w.device)
        × (w'.orch_file ≡ w.orch_file)
        × (w'.ups_on_battery ≡ w.ups_on_battery)
  unfolding self_shutdown
  self_shutdown-effects w = ground arith

  -- Powering off a UPS runs one `upscmd` for the device, returns whether it ended with code 0, and
  -- leaves the orchestrator's state alone.
  pub power_off_ups-effects :
      (w : World)
      → let w' = (power_off_ups env w).1 in
        (w'.effects ≡ ran (upscmd_argv env w.device) ∷ w.effects)
        × (w'.threads ≡ w.threads)
        × (w'.device ≡ w.device)
        × (w'.orch_file ≡ w.orch_file)
        × (w'.ups_on_battery ≡ w.ups_on_battery)
        × ((power_off_ups env w).0 ≡ succeeded (env.run w.ticks (upscmd_argv env w.device)))
  unfolding power_off_ups
  power_off_ups-effects w = ground arith

  -- If the mode has left `shutting_down`, the terminal action does nothing at all.
  pub terminal_action_aborts :
      (w : World) → is_shutting_down (mode_of w.shared) ≡ false → terminal_action env w ≡ (tt, w)
  unfolding terminal_action
  terminal_action_aborts w h = ground arith

  -- A primary whose own UPS is on mains runs nothing: it rests in the mode `desktop_handled`.
  terminal_action_on_mains :
      (w : World)
      → mode_of w.shared ≡ shutting_down
      → is_observer w.device ≡ false
      → w.ups_on_battery ≡ false
      → let w' = (terminal_action env w).1 in
        (w'.effects ≡ w.effects)
        × (mode_of w'.shared ≡ desktop_handled)
        × (w'.deadline_timer ≡ none)
        × (w'.command_file ≡ w.command_file)
  unfolding terminal_action
  terminal_action_on_mains w m o b = ground arith

  -- While shutting down, a primary on battery runs the self-shutdown, and an observer powers off its
  -- UPS whatever its power state.
  pub terminal_action_cuts :
      (w : World)
      → mode_of w.shared ≡ shutting_down
      → (is_observer w.device ≡ false → w.ups_on_battery ≡ true)
      → (terminal_action env w).1.effects ≡ (
          if is_observer w.device
          then ran (upscmd_argv env w.device) ∷ w.effects
          else fallback_runs
              (env.run (suc w.ticks) (upsmon_argv env))
              (ran (upsmon_argv env) ∷ w.effects))
  unfolding terminal_action
  terminal_action_cuts w m b = ground (arith)

  -- The terminal action of a primary on battery ends with the call of `upsmon`, or of the fallback.
  pub terminal_action-calls :
      (w : World)
      → mode_of w.shared ≡ shutting_down
      → is_observer w.device ≡ false
      → w.ups_on_battery ≡ true
      → (terminal_action env w).1.ticks
        ≡ calls_after (env.run (suc w.ticks) (upsmon_argv env)) (suc w.ticks)
  unfolding terminal_action
  terminal_action-calls w m o b = ground arith

  -- A terminal action that runs anything finds, and leaves, the mode `shutting_down`, and the context
  -- is an observer or its UPS is on battery; an observer runs one `upscmd` and nothing else.
  pub terminal_action-safe :
      (w : World)
      → let w' = (terminal_action env w).1 in
        (w'.effects ≡ w.effects)
        ⊎ ((mode_of w.shared ≡ shutting_down)
            × (mode_of w'.shared ≡ shutting_down)
            × (((is_observer w.device ≡ true)
                  × (w'.effects ≡ ran (upscmd_argv env w.device) ∷ w.effects))
                ⊎ ((is_observer w.device ≡ false) × (w'.ups_on_battery ≡ true))))
  unfolding terminal_action
  terminal_action-safe w = ground arith
