-- ===== src/PowerAgent.antt =====
-- desktop/app/power_agent.py: the class PowerAgent, which reports the state of the desktop and holds
-- logind's delay lock.
pub mod Laws
pub mod Reporting
use ups_orchestrator.Prelude.{
  ℕ, zero, suc, ◌+◌, String, Bool, true, false, Option, none, some, List, [], ◌∷◌, ltb,
  if◌then◌else◌,
}
use ups_orchestrator.Prelude.Int.{ℤ, pos, negsuc}

pub data PowerEffect : Type 0 where
  posted : String → PowerEffect
  opened : ℕ → PowerEffect
  closed : ℕ → PowerEffect
  slept : ℕ → PowerEffect
  stopped : PowerEffect

-- The server and logind, asked at the number of calls made so far.
pub record PowerEnv : Type 0 where
  -- whether the report of a status is answered with success
  pub post_ok : ℕ → String → Bool
  -- the descriptor of a new lock, `none` where `Inhibit` raises
  pub inhibit : ℕ → Option ℕ
  -- NETWORK_WAIT_TIMEOUT
  pub network_wait : ℤ

pub record PowerAgent : Type 0 where
  pub inhibit_fd : Option ℕ
  -- the newest first
  pub effects : List PowerEffect
  pub ticks : ℕ

-- The signals of logind, and SIGTERM or SIGINT: in the main loop, or in the sleep of a handler that
-- logind's signal of a wake-up has called.
pub data Signal : Type 0 where
  prepare_for_sleep prepare_for_shutdown : Bool → Signal
  terminated : Signal
  waking_terminated : Signal

-- `loop.quit` has been called.
abbrev pub quits : Signal → Bool
quits (prepare_for_sleep _) = false
quits (prepare_for_shutdown _) = false
quits terminated = true
quits waking_terminated = true

abbrev emit : PowerEffect → PowerAgent → PowerAgent
emit e a = record a { effects = e ∷ a.effects }

abbrev close : Option ℕ → PowerAgent → PowerAgent
close none a = a
close (some fd) a = emit (closed fd) (record a { inhibit_fd = none })

-- `release_delay_lock`; a close that fails leaves no lock either.
unfoldable pub release_delay_lock : PowerAgent → PowerAgent
release_delay_lock a = close a.inhibit_fd a

abbrev hold : Option ℕ → PowerAgent → PowerAgent
hold none a = a
hold (some fd) a = emit (opened fd) (record a { inhibit_fd = some fd })

abbrev pub fresh : PowerAgent
fresh = record { inhibit_fd = none; effects = []; ticks = 0 }

module _ (env : PowerEnv) where
  -- `take_delay_lock`
  unfoldable pub take_delay_lock : PowerAgent → PowerAgent
  take_delay_lock a =
      let a' = release_delay_lock a in
      hold (env.inhibit a'.ticks) (record a' { ticks = suc a'.ticks })

  -- `_send_state`, with the tries that are left.
  unfoldable pub send_state : String → ℕ → PowerAgent → Bool × PowerAgent
  send_state status zero a = (false, a)
  send_state status (suc left) a =
      let a' = emit (posted status) (record a { ticks = suc a.ticks }) in
      let waited = if ltb 0 left then emit (slept 1) a' else a' in
      let rest = send_state status left waited in
      if env.post_ok a.ticks status then (true, a') else rest

  -- `on_prepare_for_sleep` behind its sleep, once the desktop has woken up.
  unfoldable pub come_online : PowerAgent → PowerAgent
  come_online a = (send_state "online" 5 (take_delay_lock a)).1

  -- `time.sleep` raises for a number below 0, which ends the handler but not the main loop.
  unfoldable pub wake_up : ℤ → PowerAgent → PowerAgent
  unfolding come_online
  wake_up (pos seconds) a = come_online (emit (slept seconds) a)
  wake_up (negsuc n) a = a

  -- `on_prepare_for_sleep`
  unfoldable pub on_prepare_for_sleep : Bool → PowerAgent → PowerAgent
  unfolding wake_up
  on_prepare_for_sleep true a = release_delay_lock (send_state "suspended" 3 a).1
  on_prepare_for_sleep false a = wake_up env.network_wait a

  -- `on_prepare_for_shutdown`
  unfoldable pub on_prepare_for_shutdown : Bool → PowerAgent → PowerAgent
  on_prepare_for_shutdown true a = release_delay_lock (send_state "shutting_down" 1 a).1
  on_prepare_for_shutdown false a = take_delay_lock a

  -- `handle_signal`
  unfoldable pub handle_signal : PowerAgent → PowerAgent
  handle_signal a = emit stopped (release_delay_lock (send_state "offline" 1 a).1)

  -- The signal interrupts the sleep, which goes on behind `handle_signal`.
  unfoldable pub terminated_waking : ℤ → PowerAgent → PowerAgent
  unfolding come_online handle_signal
  terminated_waking (pos seconds) a = come_online (handle_signal (emit (slept seconds) a))
  terminated_waking (negsuc n) a = handle_signal a

  unfoldable pub on_signal : Signal → PowerAgent → PowerAgent
  on_signal (prepare_for_sleep sleeping) a = on_prepare_for_sleep sleeping a
  on_signal (prepare_for_shutdown going) a = on_prepare_for_shutdown going a
  on_signal terminated a = handle_signal a
  on_signal waking_terminated a = terminated_waking env.network_wait a

  unfoldable pub on_signals : List Signal → PowerAgent → PowerAgent
  on_signals [] a = a
  on_signals (x ∷ xs) a =
      let a' = on_signal x a in let rest = on_signals xs a' in if quits x then a' else rest

  -- `run`: the signals arrive until the main loop has quit, and the `finally` releases the lock.
  unfoldable pub run_agent : List Signal → PowerAgent
  run_agent xs =
      release_delay_lock (on_signals xs (send_state "online" 3 (take_delay_lock fresh)).1)
