-- ===== src/Context/Leftover.antt =====
-- An outage that is open when the process of server/app/server.py ends without a shutdown.
use ups_orchestrator.Prelude.{
  ℕ, ◌+◌, ◌≤◌, ◌≡◌, refl, String, Bool, true, false, Option, some, List, [], ◌∷◌, arith, All,
  contains,
}
use ups_orchestrator.OutageLog.{
  OpenOutage, unknown, initiated, completed_entry, record_start, resolve_on_startup,
}
use ups_orchestrator.Context.State.{idle, phase_deadline, Status, World, mode_of}
use ups_orchestrator.Context.Monad.{Env}
use ups_orchestrator.Context.Power.{terminal_action}
use ups_orchestrator.Context.Handlers.{
  NutEvent, lowbatt, onbatt, online, desktop_suspend_due, other, handle_event, note_event, on_event,
  note_own_power, note_status, on_status, handle_flags, on_unavailable, notify_desktop_state_change,
  handle_ups_status_transition, handle_ups_status_unavailable,
}
use ups_orchestrator.Context.Inputs.{
  Input, poll, poll_failed, event, desktop_report, timer_fired, restart, terminal, handle,
  handle_all,
}
use ups_orchestrator.Context.Phases.{
  reset_state_on_startup, start_battery_monitoring, start_monitoring_if_mode, start_observer,
  start_primary, start_phase, arm_phase, desktop_status, notify_desktop, execute_phase_action,
  follow_desktop_ups, follow,
}
use ups_orchestrator.Context.Recovery.{DesktopOnMains}

-- The input does not say that the UPS is on battery or low.
abbrev pub IsQuiet : Input → Type 0
IsQuiet (poll text) = (contains "OB" text ≡ false) × (contains "LB" text ≡ false)
IsQuiet (event lowbatt) = ⊥
IsQuiet (event onbatt) = ⊥
IsQuiet (event _) = Unit
IsQuiet _ = Unit

-- An idle context on mains whose outage log is `log`.
record Keeps (start : World) (w : World) : Type 0 where
  mode_idle : mode_of w.shared ≡ idle
  on_mains : w.ups_on_battery ≡ false
  same_log : w.outage_log ≡ start.outage_log
  same_device : w.device ≡ start.device

module _ (env : Env) (start : World) (o : OpenOutage) (mains : DesktopOnMains env start)
    (left : start.outage_log.state ≡ some o) (running : initiated o.outcome ≡ false) where
  restart-Keeps :
      (w : World)
      → w.ups_on_battery ≡ false
      → w.outage_log ≡ start.outage_log
      → w.device ≡ start.device
      → Keeps start (reset_state_on_startup env w).1
  unfolding reset_state_on_startup resolve_on_startup
  restart-Keeps w b l d = ground arith

  follow-Keeps :
      (reason : String) (w : World)
      → Keeps start w
      → Keeps start (follow_desktop_ups env (mode_of w.shared) reason w).1
  unfolding follow_desktop_ups follow
  follow-Keeps reason w k = ground (arith, mains w.ticks)

  note-Keeps : (w : World) → Keeps start w → Keeps start (note_own_power env false w).1
  unfolding note_own_power
  note-Keeps w k = ground arith

  event-Keeps :
      (e : NutEvent) (w : World)
      → IsQuiet (event e)
      → Keeps start w
      → Keeps start (handle_event env e w).1
  unfolding handle_event note_event on_event execute_phase_action
  event-Keeps lowbatt w q k = absurd q
  event-Keeps onbatt w q k = absurd q
  event-Keeps online w q k =
      follow-Keeps "power_restored_event" (note_own_power env false w).1 (note-Keeps w k)
  event-Keeps desktop_suspend_due w q k = ground arith
  event-Keeps other w q k = k

  status-Keeps :
      (l : Bool) (w : World) → Keeps start w → Keeps start (handle_flags env false false l w).1
  unfolding handle_flags note_status on_status
  status-Keeps true w k =
      follow-Keeps "power_restored" (note_own_power env false w).1 (note-Keeps w k)
  status-Keeps false w k = k

  failed-Keeps : (w : World) → Keeps start w → Keeps start (handle_ups_status_unavailable env w).1
  unfolding handle_ups_status_unavailable on_unavailable
  failed-Keeps w k = ground (arith, mains w.ticks)

  report-Keeps :
      (s : Option Status) (w : World)
      → Keeps start w
      → Keeps start (notify_desktop_state_change env s w).1
  unfolding notify_desktop_state_change
  report-Keeps s w k = ground arith

  timer-Keeps :
      (w : World) → Keeps start w → Keeps start (execute_phase_action env phase_deadline w).1
  unfolding execute_phase_action
  timer-Keeps w k = ground arith

  terminal-Keeps : (w : World) → Keeps start w → Keeps start (terminal_action env w).1
  unfolding terminal_action
  terminal-Keeps w k = ground arith

  handle-Keeps :
      (i : Input) (w : World) → IsQuiet i → Keeps start w → Keeps start (handle env i w).1
  unfolding handle handle_ups_status_transition
  handle-Keeps (poll text) w (b, low) k = rw (b, low) (status-Keeps (contains "OL" text) w k)
  handle-Keeps poll_failed w q k = failed-Keeps w k
  handle-Keeps (event e) w q k = event-Keeps e w q k
  handle-Keeps (desktop_report s) w q k = report-Keeps s w k
  handle-Keeps timer_fired w q k = timer-Keeps w k
  handle-Keeps restart w q k = restart-Keeps w k.on_mains k.same_log k.same_device
  handle-Keeps terminal w q k = terminal-Keeps w k

  handle_all-Keeps :
      (is : List Input) (w : World)
      → All IsQuiet is
      → Keeps start w
      → Keeps start (handle_all env is w)
  unfolding handle_all
  handle_all-Keeps [] w q k = k
  handle_all-Keeps (i ∷ is) w q k =
      handle_all-Keeps is (handle env i w).1 q.1 (handle-Keeps i w q.0 k)

  -- The next outage of the UPS closes the one that was left.
  onbatt-closes :
      (w : World)
      → Keeps start w
      → (handle_event env onbatt w).1.outage_log.history
        ≡ completed_entry env.to_iso o unknown (w.clock + env.delay w.ticks)
          ∷ start.outage_log.history
  unfolding handle_event note_event on_event note_own_power start_monitoring_if_mode
      start_battery_monitoring start_observer start_primary start_phase arm_phase desktop_status
      notify_desktop record_start
  onbatt-closes w k = ground arith

-- An outage that was open when the process ended, with no shutdown due, is left open by the restart
-- with power back, and by whatever follows, restarts included, until the UPS is on battery or low
-- again, if the UPSes of the desktop stay on mains: the context is idle and its log unchanged. The
-- next ONBATT then closes that outage with the outcome `unknown` and, as its end, the time of that
-- ONBATT or later.
pub restart-leaves_open :
    (env : Env) (is : List Input) (w : World) (o : OpenOutage)
    → DesktopOnMains env w
    → All IsQuiet is
    → w.ups_on_battery ≡ false
    → w.outage_log.state ≡ some o
    → initiated o.outcome ≡ false
    → let w' = handle_all env (restart ∷ is) w in
      (mode_of w'.shared ≡ idle)
      × (w'.outage_log ≡ w.outage_log)
      × ((t : ℕ) × (w'.clock ≤ t)
          × ((handle_event env onbatt w').1.outage_log.history
              ≡ completed_entry env.to_iso o unknown t ∷ w.outage_log.history))
unfolding handle_all handle
restart-leaves_open env is w o mains quiet b left running =
    let v = (reset_state_on_startup env w).1 in
    let w' = handle_all env is v in
    let k =
      handle_all-Keeps env w o mains left running is v quiet
        (restart-Keeps env w o mains left running w b refl refl) in
    (
      k.mode_idle,
      k.same_log,
      (w'.clock + env.delay w'.ticks, omega arith, onbatt-closes env w o mains left running w' k),
    )
