-- ===== src/Context/Power.antt =====
-- The last steps: `_power_off_ups`, `_self_shutdown`, `_leave_monitoring` and `_terminal_action`.
use ups_orchestrator.Prelude.{
  zero, suc, String, Bool, true, false, not, ◌&&◌, Option, none, some, List, [], ◌∷◌, ◌++◌, is_nil,
  str_eq, if◌then◌else◌,
}
use ups_orchestrator.Prelude.Texts.{strip, is_white}
use ups_orchestrator.Config.{UpsDeviceConfig, is_observer}
use ups_orchestrator.EventLog.{server_self_shutdown, upscmd_sent, upscmd_failed}
use ups_orchestrator.Context.State.{
  Mode, desktop_handled, is_shutting_down, command_sent, command_error, command_rc, ran,
}
use ups_orchestrator.Context.Monad.{
  RunResult, completed, not_found, raised, Env, Action, Done, pure, gets, ◌>>=◌, ◌>>◌, when,
  modify_shared, do_effect, get_orchestrator_state, get_mode, ask, save_orchestrator_state,
  log_event,
}

abbrev option_args : String → String → List String
option_args flag value = if str_eq value "" then [] else flag ∷ value ∷ []

abbrev option_or {ℓ} : {A : Type ℓ} → Option A → Option A → Option A
option_or none o = o
option_or (some a) o = some a

module _ (env : Env) where
  -- `subprocess.run`
  abbrev pub run : List String → Action RunResult
  run argv = do do_effect (ran argv); ask env (λ k. env.run k argv)

  pub upscmd_argv : UpsDeviceConfig → List String
  upscmd_argv device =
      env.upscmd_bin
      ∷ (option_args "-u" env.upscmd_user
          ++ (option_args "-p" env.upscmd_pass ++ device.nut_name ∷ device.upscmd.shutdown ∷ []))

  unfoldable pub log_upscmd : String → RunResult → Action Bool
  log_upscmd name not_found = do
    log_event env upscmd_failed (some (command_error name "binary_not_found"))
    pure false
  log_upscmd name (raised exc) = do
    log_event env upscmd_failed (some (command_error name exc))
    pure false
  log_upscmd name (completed zero stderr) = do
    log_event env upscmd_sent (some (command_sent name))
    pure true
  log_upscmd name (completed (suc rc) stderr) = do
    log_event env upscmd_failed (some (command_rc name (suc rc) (strip is_white stderr)))
    pure false

  -- `_power_off_ups`
  unfoldable pub power_off_ups : Action Bool
  unfolding log_upscmd
  power_off_ups = do
    device ← gets (λ w. w.device)
    result ← run (upscmd_argv device)
    log_upscmd device.upscmd.shutdown result

  pub upsmon_argv : List String
  upsmon_argv =
      if env.is_root
      then env.upsmon_bin ∷ "-c" ∷ "fsd" ∷ []
      else "sudo" ∷ "-n" ∷ env.upsmon_bin ∷ "-c" ∷ "fsd" ∷ []

  -- An exception of `subprocess.run` is not caught here, and ends the thread.
  unfoldable pub fall_back : RunResult → Action Done
  fall_back not_found = pure tt
  fall_back (raised exc) = pure tt
  fall_back (completed zero stderr) = pure tt
  fall_back (completed (suc rc) stderr) =
      when (not (is_nil env.fallback_cmd)) (do run env.fallback_cmd; pure tt)

  -- `_self_shutdown`
  unfoldable pub self_shutdown : Action Done
  unfolding fall_back
  self_shutdown = do
    log_event env server_self_shutdown none
    result ← run upsmon_argv
    fall_back result

  -- `_leave_monitoring`
  unfoldable pub leave_monitoring : Mode → Option String → Action Done
  leave_monitoring mode last_event = do
    modify_shared λ h. record h { deadline_timer = none }
    orch ← get_orchestrator_state
    save_orchestrator_state env (record orch {
      mode = mode;
      phase = none;
      phase_deadline = none;
      onbatt_since = none;
      last_event = option_or last_event orch.last_event;
    })

  -- Neither a reset nor mains power stops the action: the switch behind the lock.
  unfoldable pub cut_power : UpsDeviceConfig → Action Done
  unfolding power_off_ups self_shutdown
  cut_power device = if is_observer device then power_off_ups >> pure tt else self_shutdown

  unfoldable pub act : Bool → Bool → UpsDeviceConfig → Action Done
  unfolding cut_power leave_monitoring
  act aborted on_battery device =
      if aborted
      then pure tt
      else if not (is_observer device) && not on_battery
      then leave_monitoring desktop_handled none
      else cut_power device

  -- `_terminal_action`
  unfoldable pub terminal_action : Action Done
  unfolding act
  terminal_action = do
    mode ← get_mode
    on_battery ← gets (λ w. w.ups_on_battery)
    device ← gets (λ w. w.device)
    act (not (is_shutting_down mode)) on_battery device
