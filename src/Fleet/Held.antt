-- ===== src/Fleet/Held.antt =====
-- A context that is in an outage, held by another UPS of its desktop, in a poll of
-- server/app/server.py.
use ups_orchestrator.Prelude.{
  ℕ, ◌≡◌, refl, ap, ◌∙◌, String, true, false, Option, some, none, List, arith, any,
}
use ups_orchestrator.Config.{UpsDeviceConfig}
use ups_orchestrator.Context.State.{
  Mode, idle, monitoring_battery, shutting_down, desktop_handled, World, is_idle, mode_of, orch_of,
}
use ups_orchestrator.Context.Monad.{Env, printed, upsc_argv, read_ups_status}
use ups_orchestrator.Context.Peers.{desktop_ups_on_battery}
use ups_orchestrator.Context.Desktop.{fetch_state_from_desktop}
use ups_orchestrator.Context.Phases.{
  follow_desktop_ups, follow, ask_desktop_ups, check_phase_deadline, execute_phase_action,
  run_phase_action,
}
use ups_orchestrator.Context.Handlers.{
  note_own_power, note_status, on_status, handle_flags, handle_ups_status_transition,
}
use ups_orchestrator.Context.Recovery.{note_own_power-facts}
use ups_orchestrator.Server.Routes.{poll_device, poll_status}
use ups_orchestrator.Fleet.{with_peers}
use ups_orchestrator.Fleet.Reachable.{fetch_state-SameState}
use ups_orchestrator.Fleet.Standing.{holds, any-register_peers}
use ups_orchestrator.Fleet.Polls.{poll_one}
use ups_orchestrator.Fleet.Converging.{OnLine, not_empty, polled-OnLine}

abbrev pub IsOut : World → Type 0
IsOut w = is_idle (mode_of w.shared) ≡ false

module _ (env : Env) where
  check_phase_deadline-IsOut : (w : World) → IsOut w → IsOut (check_phase_deadline env w).1
  unfolding check_phase_deadline execute_phase_action run_phase_action
  check_phase_deadline-IsOut w h = ground arith

  -- While a UPS of its desktop is out, a context on mains goes on.
  follow-IsOut :
      (mode : Mode) (reason : String) (w : World)
      → mode_of w.shared ≡ mode
      → is_idle mode ≡ false
      → IsOut (follow env true mode reason w).1
  unfolding follow
  follow-IsOut idle reason w m h = ground arith
  follow-IsOut monitoring_battery reason w m h = check_phase_deadline-IsOut w (ap is_idle m)
  follow-IsOut shutting_down reason w m h = ap is_idle m
  follow-IsOut desktop_handled reason w m h = ap is_idle m

  -- A UPS of the desktop of `w` is out, whenever the peers are asked.
  abbrev Held : World → Type 0
  Held w = (k : ℕ) → desktop_ups_on_battery w.device (env.peers k) ≡ true

  follow_ups-IsOut :
      (reason : String) (w v : World)
      → Held w
      → v.device ≡ w.device
      → IsOut v
      → IsOut (follow_desktop_ups env (mode_of v.shared) reason v).1
  unfolding follow_desktop_ups
  follow_ups-IsOut reason w v held d out =
      let asked = (ask_desktop_ups env v).1 in
      let still : (ask_desktop_ups env v).0 ≡ true =
        ap (λ (device : UpsDeviceConfig). desktop_ups_on_battery device (env.peers v.ticks)) d
        ∙ held v.ticks in
      rw still (follow-IsOut (mode_of v.shared) reason asked refl out)

  transition-IsOut :
      (text : String) (w v : World)
      → OnLine (some text)
      → Held w
      → v.device ≡ w.device
      → IsOut v
      → IsOut (handle_ups_status_transition env text v).1
  unfolding handle_ups_status_transition handle_flags note_status on_status
  transition-IsOut text w v (b, low, l) held d out =
      let u = (note_own_power env false v).1 in
      let facts = note_own_power-facts env false v in
      let still : IsOut u = ap (λ file. is_idle (orch_of file).mode) facts.1 ∙ out in
      rw (b, low, l) (follow_ups-IsOut "power_restored" w u held (facts.3 ∙ d) still)

  poll_status-IsOut :
      (max_age : ℕ) (w v : World) (status : Option String)
      → OnLine status
      → Held w
      → v.device ≡ w.device
      → IsOut v
      → IsOut (poll_status env max_age status v).1
  unfolding poll_status
  poll_status-IsOut max_age w v none h held d out = absurd h
  poll_status-IsOut max_age w v (some text) (b, low, l) held d out =
      rw (not_empty text l) (transition-IsOut text w v (b, low, l) held d out)

module _ (env : UpsDeviceConfig → Env) (max_age : ℕ)
    (mains : (d : UpsDeviceConfig) (k : ℕ)
      → OnLine (printed ((env d).upsc k (upsc_argv d.nut_name "ups.status")))) where
  pub poll_one-IsOut :
      (fleet : List World) (w : World)
      → any (holds w) fleet ≡ true
      → IsOut w
      → IsOut (poll_one env max_age fleet w)
  unfolding poll_device
  poll_one-IsOut fleet w held out =
      let e = with_peers (env w.device) fleet w in
      let v = (fetch_state_from_desktop e w).1 in
      let same = fetch_state-SameState e w in
      poll_status-IsOut e max_age w (read_ups_status e v).1 (read_ups_status e v).0
        (polled-OnLine env max_age mains fleet w) (λ k. any-register_peers w fleet ∙ held) same.2
        (ap (λ file. is_idle (orch_of file).mode) same.0 ∙ out)
