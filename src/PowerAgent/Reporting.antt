-- ===== src/PowerAgent/Reporting.antt =====
-- Which state of the desktop the power agent reports last.
use ups_orchestrator.Prelude.{
  ℕ, zero, suc, ◌≡◌, refl, ◌∙◌, String, true, false, Option, none, some, List, [], ◌∷◌, ◌++◌, arith,
  any, ap, if◌then◌else◌,
}
use ups_orchestrator.Prelude.Int.{ℤ, pos, negsuc, is_negative}
use ups_orchestrator.PowerAgent.{
  PowerEffect, posted, slept, PowerEnv, PowerAgent, Signal, terminated, waking_terminated, quits,
  release_delay_lock, take_delay_lock, send_state, come_online, handle_signal, terminated_waking,
  on_signal, on_signals, run_agent, fresh,
}

abbrev last_in : List PowerEffect → Option String
last_in [] = none
last_in (posted status ∷ es) = some status
last_in (_ ∷ es) = last_in es

-- The state that was posted last.
abbrev pub last_report : PowerAgent → Option String
last_report a = last_in a.effects

release-last_report : (a : PowerAgent) → last_report (release_delay_lock a) ≡ last_report a
unfolding release_delay_lock
release-last_report a = ground arith

module _ (env : PowerEnv) where
  send_state-again :
      (status : String) (n : ℕ) (a : PowerAgent)
      → last_report a ≡ some status
      → last_report (send_state env status n a).1 ≡ some status
  unfolding send_state
  send_state-again status zero a h = h
  send_state-again status (suc left) a h =
      let a' = record a { effects = posted status ∷ a.effects; ticks = suc a.ticks } in
      ground (
        arith,
        send_state-again status left a' refl,
        send_state-again status left (record a' { effects = slept 1 ∷ a'.effects }) refl,
      )

  -- A report that is tried is the last one, whether it gets through or not.
  send_state-last_report :
      (status : String) (n : ℕ) (a : PowerAgent)
      → last_report (send_state env status (suc n) a).1 ≡ some status
  unfolding send_state
  send_state-last_report status n a =
      let a' = record a { effects = posted status ∷ a.effects; ticks = suc a.ticks } in
      ground (
        arith,
        send_state-again status n a' refl,
        send_state-again status n (record a' { effects = slept 1 ∷ a'.effects }) refl,
      )

  handle_signal-last_report : (a : PowerAgent) → last_report (handle_signal env a) ≡ some "offline"
  unfolding handle_signal
  handle_signal-last_report a = release-last_report _ ∙ send_state-last_report "offline" 0 a

  terminated_waking-last_report :
      (wait : ℤ) (a : PowerAgent)
      → last_report (terminated_waking env wait a)
        ≡ some (if is_negative wait then "offline" else "online")
  unfolding terminated_waking come_online
  terminated_waking-last_report (pos seconds) a = send_state-last_report "online" 4 _
  terminated_waking-last_report (negsuc n) a = handle_signal-last_report a

  -- The loop is run up to the signal that ends it.
  on_signals-append :
      (xs ys : List Signal) (x : Signal) (a : PowerAgent)
      → any quits xs ≡ false
      → quits x ≡ true
      → on_signals env (xs ++ x ∷ ys) a ≡ on_signal env x (on_signals env xs a)
  unfolding on_signals
  on_signals-append [] ys x a h q = ground arith
  on_signals-append (y ∷ xs) ys x a h q =
      ground (arith, on_signals-append xs ys x (on_signal env y a))

  run_agent-ends :
      (xs ys : List Signal) (x : Signal)
      → any quits xs ≡ false
      → quits x ≡ true
      → let start = (send_state env "online" 3 (take_delay_lock env fresh)).1 in
        last_report (run_agent env (xs ++ x ∷ ys))
        ≡ last_report (on_signal env x (on_signals env xs start))
  unfolding run_agent
  run_agent-ends xs ys x h q =
      release-last_report _ ∙ ap last_report (on_signals-append xs ys x _ h q)

  -- Whatever happened before, an agent that SIGTERM or SIGINT ends in its main loop has reported
  -- `offline` last. If the signal comes in the sleep after a wake-up, the handler that it interrupts
  -- goes on, and with a wait that is not negative the last report is `online`.
  pub run_agent-last_report :
      (xs ys : List Signal)
      → any quits xs ≡ false
      → (last_report (run_agent env (xs ++ terminated ∷ ys)) ≡ some "offline")
        × (last_report (run_agent env (xs ++ waking_terminated ∷ ys))
            ≡ some (if is_negative env.network_wait then "offline" else "online"))
  unfolding on_signal
  run_agent-last_report xs ys h = (
    run_agent-ends xs ys terminated h refl ∙ handle_signal-last_report _,
    run_agent-ends xs ys waking_terminated h refl
        ∙ terminated_waking-last_report env.network_wait _,
  )
