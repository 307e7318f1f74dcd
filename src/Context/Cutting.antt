-- ===== src/Context/Cutting.antt =====
-- That an observer does cut the power of its desktop in the end: the hold in server/app/ups_context.py.
use ups_orchestrator.Prelude.{
  ℕ, suc, ◌+◌, ◌<◌, ◌≡◌, ◌≢◌, ◌⊎◌, refl, inl, inr, false, ◌∷◌, arith, is_nil, Bool-cases,
}
use ups_orchestrator.Context.State.{ran, World, mode_of, is_shutting_down}
use ups_orchestrator.Context.Monad.{Env, pure, ◌>>◌, now_ts}
use ups_orchestrator.Context.Power.{power_off_ups, upscmd_argv}
use ups_orchestrator.Context.Waiting.{hold_power_off-ends}
use ups_orchestrator.Context.Sparing.{Holds, hold_power_off-Holds, cut_after, owners_at}
use ups_orchestrator.Context.Workers.{
  WaitEnd, aborted, left, expired, out_of_fuel, hold_power_off, ask_desktop_owners, unless_aborted,
  observer_power_off_when_desktop_safe,
}

module _ (env : Env) where
  -- The power is cut by one `upscmd`, or nothing is run because the mode has been found to have left
  -- `shutting_down` before the deadline.
  abbrev CutOrStopped : ℕ → World → World → Type 0
  CutOrStopped deadline w w' =
      (w'.effects ≡ ran (upscmd_argv env w.device) ∷ w.effects)
      ⊎ ((w'.effects ≡ w.effects)
          × (is_shutting_down (mode_of w'.shared) ≡ false)
          × (w'.clock < deadline))

  Holds-CutOrStopped :
      (deadline : ℕ) (w : World) (r : WaitEnd × World)
      → r.0 ≢ out_of_fuel
      → Holds env deadline w r
      → CutOrStopped deadline w (unless_aborted env r.0 (power_off_ups env >> pure tt) r.1).1
  unfolding unless_aborted
  Holds-CutOrStopped deadline w (left, v) n (e, d, why) = inl (cut_after env w v e d)
  Holds-CutOrStopped deadline w (expired, v) n (e, d, late) = inl (cut_after env w v e d)
  Holds-CutOrStopped deadline w (aborted, v) n (e, d, (back, early)) = inr (e, back, early)
  Holds-CutOrStopped deadline w (out_of_fuel, v) n h = absurd (n refl)

  -- Whatever the peers, `upsc` and the other threads do, the worker of an observer comes to an end and
  -- has then cut the power by exactly one `upscmd`, but for one case: it has found, before its longest
  -- wait was over, that the mode had left `shutting_down`, and has run nothing.
  pub power_off-IsCut :
      (w : World)
      → let w' = (observer_power_off_when_desktop_safe env w).1 in
        let begun = w.clock + env.delay w.ticks + env.delay (suc w.ticks) in
        (w'.effects ≡ ran (upscmd_argv env w.device) ∷ w.effects)
        ⊎ ((w'.effects ≡ w.effects)
            × (is_shutting_down (mode_of w'.shared) ≡ false)
            × (w'.clock < begun + w.device.timing.observer_poweroff_max_wait))
  unfolding observer_power_off_when_desktop_safe
  power_off-IsCut w =
      let max_wait = w.device.timing.observer_poweroff_max_wait in
      let w1 = (ask_desktop_owners env w).1 in
      let w2 = (now_ts env w1).1 in
      let deadline = w2.clock + max_wait in
      elim (Bool-cases (is_nil (owners_at env w.device w.ticks))) [
        | inl alone ↦ rw alone (inl (cut_after env w w2 refl refl))
        | inr owned ↦ rw owned (
            Holds-CutOrStopped deadline w2 (hold_power_off env (suc max_wait) deadline w2)
              (hold_power_off-ends env (suc max_wait) deadline w2 (omega arith) (omega arith))
              (hold_power_off-Holds env (suc max_wait) deadline w2))
      ]
