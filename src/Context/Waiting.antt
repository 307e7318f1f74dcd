-- ===== src/Context/Waiting.antt =====
-- The waiting loops end, and what a worker may have run when it ends.
use ups_orchestrator.Prelude.{ℕ, zero, suc, ◌+◌, ◌≤◌, ◌<◌, ◌≡◌, ◌⊎◌, ◌≢◌, refl, true, Option, arith}
use ups_orchestrator.Config.{is_observer}
use ups_orchestrator.Context.State.{Mode, Status, shutting_down, status_of, World, mode_of}
use ups_orchestrator.Context.Monad.{read_ups_status, Env, Action, now_ts, sleep}
use ups_orchestrator.Context.Desktop.{fetch_state_from_desktop}
use ups_orchestrator.Context.Wake.{send_wol}
use ups_orchestrator.Context.Workers.{
  WaitEnd, out_of_fuel, wait_for_desktop, wait_then_terminal_action, wait_for_online,
  hold_power_off, desktop_round, retry, ask_desktop_owners,
}
use ups_orchestrator.Context.Shutdown.{terminal_action-safe}

-- Nothing is run, pushed or sent, and the device stays.
abbrev Idle : World → World → Type 0
Idle w w' = (w'.effects ≡ w.effects) × (w'.device ≡ w.device)

module _ (env : Env) where
  desktop_round-ends :
      (t deadline : ℕ) (mode : Mode) (status : Option Status) (more : Action WaitEnd) (w : World)
      → (t < deadline → (more w).0 ≢ out_of_fuel)
      → (desktop_round env t deadline mode status more w).0 ≢ out_of_fuel
  unfolding desktop_round
  desktop_round-ends t deadline mode status more w h = ground arith

  -- With some fuel, and more than there are seconds to the deadline, the wait for the desktop's
  -- shutdown ends before its fuel does, whatever other threads do meanwhile: each round lasts five
  -- seconds at least.
  pub wait_for_desktop-ends :
      (fuel deadline : ℕ) (w : World)
      → 0 < fuel
      → deadline < w.clock + fuel
      → (wait_for_desktop env fuel deadline w).0 ≢ out_of_fuel
  unfolding wait_for_desktop
  wait_for_desktop-ends zero deadline w p h = absurd (omega arith)
  wait_for_desktop-ends (suc fuel) deadline w p h =
      let w' = (now_ts env w).1 in
      desktop_round-ends w'.clock deadline (mode_of w'.shared) (status_of w'.desktop_file) _ w'
        (λ (e : w'.clock < deadline).
          wait_for_desktop-ends fuel deadline (sleep env w').1 (omega arith) (omega arith))

  -- With some fuel, and more than there are seconds to the deadline, the hold of an observer's
  -- power-off ends before its fuel does, whatever other threads and its peers do meanwhile.
  pub hold_power_off-ends :
      (fuel deadline : ℕ) (w : World)
      → 0 < fuel
      → deadline < w.clock + fuel
      → (hold_power_off env fuel deadline w).0 ≢ out_of_fuel
  unfolding hold_power_off
  hold_power_off-ends zero deadline w p h = absurd (omega arith)
  hold_power_off-ends (suc fuel) deadline w p h =
      let w' = (ask_desktop_owners env (now_ts env w).1).1 in
      ground (arith, hold_power_off-ends fuel deadline (sleep env (read_ups_status env w').1).1)

  fetch_state_from_desktop-clock : (w : World) → w.clock ≤ (fetch_state_from_desktop env w).1.clock
  unfolding fetch_state_from_desktop
  fetch_state_from_desktop-clock w = ground arith

  send_wol-clock : (w : World) → w.clock ≤ (send_wol env w).1.clock
  unfolding send_wol
  send_wol-clock w = ground arith

  retry-clock : (interval next : ℕ) (w : World) → w.clock ≤ (retry env interval next w).1.clock
  unfolding retry
  retry-clock interval next w = ground (arith, send_wol-clock (now_ts env w).1)

  -- With some fuel, and more than there are seconds to the deadline, the wait for the desktop to wake
  -- ends before its fuel does, whatever the desktop answers and however often a packet is sent again.
  pub wait_for_online-ends :
      (fuel interval deadline next : ℕ) (w : World)
      → 0 < fuel
      → deadline < w.clock + fuel
      → (wait_for_online env fuel interval deadline next w).0 ≢ out_of_fuel
  unfolding wait_for_online
  wait_for_online-ends zero interval deadline next w p h = absurd (omega arith)
  wait_for_online-ends (suc fuel) interval deadline next w p h =
      let w1 = (now_ts env w).1 in
      let w2 = (fetch_state_from_desktop env w1).1 in
      let again = retry env interval next w2 in
      ground (
        arith,
        fetch_state_from_desktop-clock w1,
        retry-clock interval next w2,
        wait_for_online-ends fuel interval deadline again.0 (sleep env again.1).1,
      )

  -- Every wait that a worker starts ends before the fuel that it is given does, whatever the timing in
  -- the configuration, whatever the desktop, `upsc` and the peers answer, and whatever other threads do
  -- meanwhile: the wait for the desktop's shutdown, the one for the desktop to wake, and the hold of an
  -- observer's power-off.
  pub worker_waits-end :
      (w : World)
      → let timing = w.device.timing in
        let w1 = (now_ts env w).1 in
        let sent = (send_wol env w).1 in
        let s1 = (now_ts env sent).1 in
        let s2 = (now_ts env s1).1 in
        let o1 = (now_ts env (ask_desktop_owners env w).1).1 in
        let wait = timing.desktop_shutdown_wait in
        let window = timing.wake_online_timeout in
        let interval = timing.wol_retry_interval in
        let max_wait = timing.observer_poweroff_max_wait in
        ((wait_for_desktop env (suc wait) (w1.clock + wait) w1).0 ≢ out_of_fuel)
        × ((wait_for_online env
              (suc window)
              interval
              (s1.clock + window)
              (s2.clock + interval)
              s2).0
            ≢ out_of_fuel)
        × ((hold_power_off env (suc max_wait) (o1.clock + max_wait) o1).0 ≢ out_of_fuel)
  worker_waits-end w =
      let timing = w.device.timing in
      let w1 = (now_ts env w).1 in
      let s1 = (now_ts env (send_wol env w).1).1 in
      let s2 = (now_ts env s1).1 in
      let o1 = (now_ts env (ask_desktop_owners env w).1).1 in
      (
        wait_for_desktop-ends (suc timing.desktop_shutdown_wait) _ w1 (omega arith) (omega arith),
        wait_for_online-ends (suc timing.wake_online_timeout) _ _ _ s2 (omega arith) (omega arith),
        hold_power_off-ends (suc timing.observer_poweroff_max_wait) _ o1 (omega arith)
            (omega arith),
      )

  desktop_round-Idle :
      (t deadline : ℕ) (mode : Mode) (status : Option Status) (more : Action WaitEnd) (w : World)
      → Idle w (more w).1
      → Idle w (desktop_round env t deadline mode status more w).1
  unfolding desktop_round
  desktop_round-Idle t deadline mode status more w h = ground arith

  pub wait_for_desktop-Idle :
      (fuel deadline : ℕ) (w : World) → Idle w (wait_for_desktop env fuel deadline w).1
  unfolding wait_for_desktop
  wait_for_desktop-Idle zero deadline w = (refl, refl)
  wait_for_desktop-Idle (suc fuel) deadline w =
      let w' = (now_ts env w).1 in
      desktop_round-Idle w'.clock deadline (mode_of w'.shared) (status_of w'.desktop_file) _ w'
        (wait_for_desktop-Idle fuel deadline (sleep env w').1)

  -- The worker that waits for the desktop runs a program only if, after the wait, the mode is still
  -- `shutting_down` and the context is an observer or its own UPS is on battery: whatever the other
  -- threads did while it slept, power that came back is seen.
  pub wait_then_terminal_action-safe :
      (w : World)
      → let w' = (wait_then_terminal_action env w).1 in
        (w'.effects ≡ w.effects)
        ⊎ ((mode_of w'.shared ≡ shutting_down)
            × ((is_observer w.device ≡ true) ⊎ (w'.ups_on_battery ≡ true)))
  unfolding wait_then_terminal_action
  wait_then_terminal_action-safe w =
      let wait = w.device.timing.desktop_shutdown_wait in
      let w1 = (now_ts env w).1 in
      let ended = wait_for_desktop env (suc wait) (w1.clock + wait) w1 in
      ground (
        arith,
        wait_for_desktop-Idle (suc wait) (w1.clock + wait) w1,
        terminal_action-safe env ended.1,
      )
