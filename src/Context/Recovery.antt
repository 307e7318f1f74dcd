-- ===== src/Context/Recovery.antt =====
-- Mains power coming back: what an ONLINE event leaves behind.
use ups_orchestrator.Prelude.{
  ℕ, ◌≡◌, refl, Bool, true, false, Option, none, some, arith, String, ap, ◌∙◌,
}
use ups_orchestrator.OutageLog.{OutageLog, power_restored, record_end}
use ups_orchestrator.Context.State.{
  Mode, idle, is_idle, Reason, Command, cancelled, is_pending, OrchestratorState, World, mode_of,
  orch_of,
}
use ups_orchestrator.Context.Monad.{Env}
use ups_orchestrator.Context.Peers.{desktop_ups_on_battery}
use ups_orchestrator.Context.Power.{terminal_action}
use ups_orchestrator.Context.Shutdown.{terminal_action_aborts}
use ups_orchestrator.Context.Phases.{
  reset_to_idle, execute_phase_action, ask_desktop_ups, follow_desktop_ups, follow,
}
use ups_orchestrator.Context.Handlers.{online, handle_event, note_own_power, note_event, on_event}

abbrev pub has_pending : Option Command → Bool
has_pending none = false
has_pending (some c) = is_pending c.status

-- No outage is open, no command is pending and nothing is left of the last phase.
pub record IsStoodDown (w : World) : Type 0 where
  pub mode_idle : mode_of w.shared ≡ idle
  pub no_phase : (orch_of w.orch_file).phase ≡ none
  pub no_deadline : (orch_of w.orch_file).phase_deadline ≡ none
  pub no_timer : w.deadline_timer ≡ none
  pub no_pending : has_pending w.command_file ≡ false
  pub no_outage : w.outage_log.state ≡ none

record_end-closes :
    (to_iso : ℕ → String) (t : ℕ) (log : OutageLog)
    → (record_end to_iso power_restored none t log).state ≡ none
unfolding record_end
record_end-closes to_iso t log = ground arith

module _ (env : Env) where
  reset_to_idle-IsStoodDown :
      (reason : String) (w : World) → IsStoodDown (reset_to_idle env reason w).1
  unfolding reset_to_idle record_end
  reset_to_idle-IsStoodDown reason w = ground arith

  reset_to_idle-threads :
      (reason : String) (w : World) → (reset_to_idle env reason w).1.threads ≡ w.threads
  unfolding reset_to_idle
  reset_to_idle-threads reason w = ground arith

  reset_to_idle-command :
      (reason : String) (w : World) (c : Command)
      → w.command_file ≡ some c
      → is_pending c.status ≡ true
      → let w' = (reset_to_idle env reason w).1 in
        w'.command_file
        ≡ some (record c { status = cancelled; result = some reason; ack_at = some w'.clock })
  unfolding reset_to_idle
  reset_to_idle-command reason w c e p = ground arith

  -- The second of two phase actions does nothing, whatever their reasons: the deadline timer, a poll
  -- and an event cannot start two threads for one outage.
  pub execute_phase_action_once :
      (r r' : Reason) (w : World)
      → let w' = (execute_phase_action env r w).1 in execute_phase_action env r' w' ≡ (tt, w')
  unfolding execute_phase_action
  execute_phase_action_once r r' w = ground arith

  pub note_own_power-facts :
      (b : Bool) (w : World)
      → let w' = (note_own_power env b w).1 in
        (w'.ups_on_battery ≡ b)
        × (w'.orch_file ≡ w.orch_file)
        × (w'.command_file ≡ w.command_file)
        × (w'.device ≡ w.device)
        × (w'.threads ≡ w.threads)
  unfolding note_own_power
  note_own_power-facts b w = ground arith

  -- The condition under which an ONLINE event stands the context down: no UPS of its desktop is on
  -- battery, whenever the peers are asked.
  abbrev pub DesktopOnMains : World → Type 0
  DesktopOnMains w = (k : ℕ) → desktop_ups_on_battery w.device (env.peers k) ≡ false

  follow_desktop_ups-down :
      (reason : String) (mode : Mode) (w : World)
      → DesktopOnMains w
      → is_idle mode ≡ false
      → (follow_desktop_ups env mode reason w).1
        ≡ (reset_to_idle env reason (ask_desktop_ups env w).1).1
  unfolding follow_desktop_ups follow
  follow_desktop_ups-down reason mode w h m = ground (arith, h w.ticks)

  -- Mains power back at a context that is in an outage, with no UPS of its desktop on battery: the
  -- context stands down completely. It is idle with no phase, deadline or timer, its outage is closed,
  -- and no command is pending any more.
  pub online-IsStoodDown :
      (w : World)
      → DesktopOnMains w
      → is_idle (mode_of w.shared) ≡ false
      → IsStoodDown (handle_event env online w).1
        × ((handle_event env online w).1.threads ≡ w.threads)
  unfolding handle_event note_event on_event
  online-IsStoodDown w h m =
      let w' = (note_own_power env false w).1 in
      let same = note_own_power-facts false w in
      let asked = (ask_desktop_ups env w').1 in
      let down =
        follow_desktop_ups-down "power_restored_event" (mode_of w'.shared) w' (λ k. rw same.3 (h k))
          (ap (λ (f : Option OrchestratorState). is_idle (orch_of f).mode) same.1 ∙ m) in
      rw down (
        reset_to_idle-IsStoodDown "power_restored_event" asked,
        reset_to_idle-threads "power_restored_event" asked ∙ same.4,
      )

  -- A terminal action that was still waiting when power came back then does nothing.
  online-terminal_action :
      (w : World)
      → DesktopOnMains w
      → is_idle (mode_of w.shared) ≡ false
      → let w' = (handle_event env online w).1 in terminal_action env w' ≡ (tt, w')
  online-terminal_action w h m =
      let down = (online-IsStoodDown w h m).0 in
      terminal_action_aborts env (handle_event env online w).1 (rw down.mode_idle refl)
