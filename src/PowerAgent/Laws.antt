-- ===== src/PowerAgent/Laws.antt =====
-- The delay lock through a session, and the tries of a report.
use ups_orchestrator.Prelude.{
  ℕ, zero, suc, ◌+◌, ◌≤◌, ◌≡◌, refl, ◌∙◌, ap, String, true, false, Option, none, some, List, [],
  ◌∷◌, ◌++◌, arith,
}
use ups_orchestrator.Prelude.Int.{ℤ, pos, negsuc}
use ups_orchestrator.PowerAgent.{
  PowerEffect, posted, opened, closed, slept, PowerEnv, PowerAgent, Signal, prepare_for_sleep,
  prepare_for_shutdown, terminated, waking_terminated, release_delay_lock, take_delay_lock,
  send_state, come_online, wake_up, terminated_waking, on_prepare_for_sleep,
  on_prepare_for_shutdown, handle_signal, on_signal, on_signals, run_agent, fresh,
}

-- The descriptors that were opened and closed, and the tries to report, in a list of effects.
abbrev pub opened_fds : List PowerEffect → List ℕ
opened_fds [] = []
opened_fds (opened fd ∷ es) = fd ∷ opened_fds es
opened_fds (_ ∷ es) = opened_fds es

abbrev pub closed_fds : List PowerEffect → List ℕ
closed_fds [] = []
closed_fds (closed fd ∷ es) = fd ∷ closed_fds es
closed_fds (_ ∷ es) = closed_fds es

abbrev posts : List PowerEffect → ℕ
posts [] = 0
posts (posted _ ∷ es) = suc (posts es)
posts (_ ∷ es) = posts es

abbrev held : Option ℕ → List ℕ
held none = []
held (some fd) = fd ∷ []

-- Every descriptor that was opened is closed, in the same order, but the one that is held.
abbrev pub IsBalanced : PowerAgent → Type 0
IsBalanced a = opened_fds a.effects ≡ held a.inhibit_fd ++ closed_fds a.effects

release_delay_lock-IsBalanced :
    (a : PowerAgent)
    → IsBalanced a
    → IsBalanced (release_delay_lock a) × ((release_delay_lock a).inhibit_fd ≡ none)
unfolding release_delay_lock
release_delay_lock-IsBalanced a h = ground arith

module _ (env : PowerEnv) where
  take_delay_lock-IsBalanced : (a : PowerAgent) → IsBalanced a → IsBalanced (take_delay_lock env a)
  unfolding take_delay_lock
  take_delay_lock-IsBalanced a h = ground (arith, release_delay_lock-IsBalanced a h)

  send_state-IsBalanced :
      (status : String) (n : ℕ) (a : PowerAgent)
      → IsBalanced a
      → IsBalanced (send_state env status n a).1
  unfolding send_state
  send_state-IsBalanced status zero a h = h
  send_state-IsBalanced status (suc left) a h =
      let a' = record a { effects = posted status ∷ a.effects; ticks = suc a.ticks } in
      ground (
        arith,
        send_state-IsBalanced status left a' h,
        send_state-IsBalanced status left (record a' { effects = slept 1 ∷ a'.effects }) h,
      )

  come_online-IsBalanced : (a : PowerAgent) → IsBalanced a → IsBalanced (come_online env a)
  unfolding come_online
  come_online-IsBalanced a h = send_state-IsBalanced "online" 5 _ (take_delay_lock-IsBalanced _ h)

  wake_up-IsBalanced : (wait : ℤ) (a : PowerAgent) → IsBalanced a → IsBalanced (wake_up env wait a)
  unfolding wake_up
  wake_up-IsBalanced (pos seconds) a h = come_online-IsBalanced _ h
  wake_up-IsBalanced (negsuc n) a h = h

  handle_signal-IsBalanced : (a : PowerAgent) → IsBalanced a → IsBalanced (handle_signal env a)
  unfolding handle_signal
  handle_signal-IsBalanced a h =
      (release_delay_lock-IsBalanced _ (send_state-IsBalanced "offline" 1 a h)).0

  terminated_waking-IsBalanced :
      (wait : ℤ) (a : PowerAgent) → IsBalanced a → IsBalanced (terminated_waking env wait a)
  unfolding terminated_waking
  terminated_waking-IsBalanced (pos seconds) a h =
      come_online-IsBalanced _ (handle_signal-IsBalanced _ h)
  terminated_waking-IsBalanced (negsuc n) a h = handle_signal-IsBalanced a h

  on_signal-IsBalanced :
      (x : Signal) (a : PowerAgent) → IsBalanced a → IsBalanced (on_signal env x a)
  unfolding on_signal on_prepare_for_sleep on_prepare_for_shutdown
  on_signal-IsBalanced (prepare_for_sleep true) a h =
      (release_delay_lock-IsBalanced _ (send_state-IsBalanced "suspended" 3 a h)).0
  on_signal-IsBalanced (prepare_for_sleep false) a h = wake_up-IsBalanced env.network_wait a h
  on_signal-IsBalanced (prepare_for_shutdown true) a h =
      (release_delay_lock-IsBalanced _ (send_state-IsBalanced "shutting_down" 1 a h)).0
  on_signal-IsBalanced (prepare_for_shutdown false) a h = take_delay_lock-IsBalanced a h
  on_signal-IsBalanced terminated a h = handle_signal-IsBalanced a h
  on_signal-IsBalanced waking_terminated a h = terminated_waking-IsBalanced env.network_wait a h

  on_signals-IsBalanced :
      (xs : List Signal) (a : PowerAgent) → IsBalanced a → IsBalanced (on_signals env xs a)
  unfolding on_signals
  on_signals-IsBalanced [] a h = h
  on_signals-IsBalanced (x ∷ xs) a h =
      let after = on_signal-IsBalanced x a h in
      ground (arith, after, on_signals-IsBalanced xs (on_signal env x a) after)

  -- Whatever signals arrive, the agent never loses a delay lock: while it runs, the descriptors that
  -- it opened are those that it closed and, in front, the one that it holds; and when it ends, all
  -- are closed.
  pub run_agent-IsBalanced :
      (xs : List Signal)
      → IsBalanced (on_signals env xs (send_state env "online" 3 (take_delay_lock env fresh)).1)
        × (opened_fds (run_agent env xs).effects ≡ closed_fds (run_agent env xs).effects)
  unfolding run_agent
  run_agent-IsBalanced xs =
      let start = send_state-IsBalanced "online" 3 _ (take_delay_lock-IsBalanced fresh refl) in
      let run = on_signals-IsBalanced xs _ start in
      let (b, n) = release_delay_lock-IsBalanced _ run in
      (run, b ∙ ap (λ o. held o ++ closed_fds (run_agent env xs).effects) n)

  send_state-posts :
      (status : String) (n : ℕ) (a : PowerAgent)
      → let r = send_state env status n a in
        (r.1.inhibit_fd ≡ a.inhibit_fd)
        × (posts a.effects ≤ posts r.1.effects)
        × (posts r.1.effects ≤ n + posts a.effects)
        × (r.0 ≡ false → posts r.1.effects ≡ n + posts a.effects)
  unfolding send_state
  send_state-posts status zero a = ground arith
  send_state-posts status (suc left) a =
      let a' = record a { effects = posted status ∷ a.effects; ticks = suc a.ticks } in
      ground (
        arith,
        send_state-posts status left a',
        send_state-posts status left (record a' { effects = slept 1 ∷ a'.effects }),
      )

  some_post :
      (status : String) (n : ℕ) (a : PowerAgent)
      → suc (posts a.effects) ≤ posts (send_state env status (suc n) a).1.effects
  unfolding send_state
  some_post status n a =
      let a' = record a { effects = posted status ∷ a.effects; ticks = suc a.ticks } in
      ground (
        arith,
        send_state-posts status n a',
        send_state-posts status n (record a' { effects = slept 1 ∷ a'.effects }),
      )

  -- The lock `fd` was released last, after a report to the server had been tried at least once.
  abbrev pub ToldThenReleased : ℕ → PowerAgent → PowerAgent → Type 0
  ToldThenReleased fd a a' =
      (a'.inhibit_fd ≡ none)
      × ((es : List PowerEffect) × (a'.effects ≡ closed fd ∷ es)
          × (suc (posts a.effects) ≤ posts es))

  release-ToldThenReleased :
      (status : String) (n fd : ℕ) (a : PowerAgent)
      → a.inhibit_fd ≡ some fd
      → ToldThenReleased fd a (release_delay_lock (send_state env status (suc n) a).1)
  unfolding release_delay_lock
  release-ToldThenReleased status n fd a h =
      let v = (send_state env status (suc n) a).1 in
      rw ((send_state-posts status (suc n) a).0 ∙ h) (refl, (v.effects, refl, some_post status n a))

  -- Before the desktop sleeps or shuts down with a lock held, a report to the server is tried at
  -- least once, and the lock is released after that, last of all.
  pub prepare-ToldThenReleased :
      (fd : ℕ) (a : PowerAgent)
      → a.inhibit_fd ≡ some fd
      → ToldThenReleased fd a (on_prepare_for_sleep env true a)
        × ToldThenReleased fd a (on_prepare_for_shutdown env true a)
  unfolding on_prepare_for_sleep on_prepare_for_shutdown
  prepare-ToldThenReleased fd a h = (
    release-ToldThenReleased "suspended" 2 fd a h,
    release-ToldThenReleased "shutting_down" 0 fd a h,
  )
