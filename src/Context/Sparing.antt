-- ===== src/Context/Sparing.antt =====
-- When an observer may cut the power of its desktop: the end of its hold in server/app/ups_context.py.
use ups_orchestrator.Prelude.{
  ℕ, zero, suc, ◌+◌, ◌≤◌, ◌<◌, ◌≡◌, ◌⊎◌, List, [], refl, ◌∙◌, inl, inr, true, false, ◌∷◌, arith,
  any, is_nil, ltb, Bool-cases,
}
use mathlib.Core.Path.{subst, ap₂}
use ups_orchestrator.Config.{UpsDeviceConfig}
use ups_orchestrator.Context.State.{ran, World, Peer, mode_of, is_shutting_down}
use ups_orchestrator.Context.Monad.{
  Env, pure, ◌>>◌, now_ts, sleep, printed, upsc_argv, read_ups_status,
}
use ups_orchestrator.Context.Peers.{desktop_peers, reports_desktop_down, finished_desktop_handling}
use ups_orchestrator.Context.Power.{power_off_ups, upscmd_argv}
use ups_orchestrator.Context.Shutdown.{power_off_ups-effects}
use ups_orchestrator.Context.Workers.{
  WaitEnd, aborted, left, expired, out_of_fuel, hold_power_off, shows_low_battery,
  ask_desktop_owners, unless_aborted, observer_power_off_when_desktop_safe,
}

module _ (env : Env) where
  -- The contexts that own the desktop, as they are at the call `k`.
  abbrev pub owners_at : UpsDeviceConfig → ℕ → List Peer
  owners_at device k = desktop_peers device false (env.peers k)

  -- What ends the hold at the call `k`: an owner has the desktop's report that it goes down, an owner
  -- has finished with it, or the UPS shows a low battery.
  abbrev pub Ends : UpsDeviceConfig → ℕ → Type 0
  Ends device k =
      (any (λ o. reports_desktop_down o.shared) (owners_at device k) ≡ true)
      ⊎ ((any (λ o. finished_desktop_handling o.shared) (owners_at device k) ≡ true)
          ⊎ (shows_low_battery (printed (env.upsc k (upsc_argv device.nut_name "ups.status")))
              ≡ true))

  abbrev Why : ℕ → World → WaitEnd → World → Type 0
  Why deadline w left w' = (k : ℕ) × (w.ticks ≤ k) × Ends w.device k
  Why deadline w expired w' = deadline ≤ w'.clock
  Why deadline w aborted w' = (is_shutting_down (mode_of w'.shared) ≡ false) × (w'.clock < deadline)
  Why deadline w out_of_fuel w' = Unit

  abbrev pub Holds : ℕ → World → WaitEnd × World → Type 0
  Holds deadline w (ended, w') =
      (w'.effects ≡ w.effects) × (w'.device ≡ w.device) × Why deadline w ended w'

  -- A later start of the hold.
  Holds-later :
      (deadline : ℕ) (w v : World) (r : WaitEnd × World)
      → v.effects ≡ w.effects
      → v.device ≡ w.device
      → w.ticks ≤ v.ticks
      → Holds deadline v r
      → Holds deadline w r
  Holds-later deadline w v (left, w') e d t (e', d', (k, later, ends)) =
      (e' ∙ e, d' ∙ d, (k, omega arith, subst (λ (device : UpsDeviceConfig). Ends device k) d ends))
  Holds-later deadline w v (expired, w') e d t h = ground arith
  Holds-later deadline w v (aborted, w') e d t h = ground arith
  Holds-later deadline w v (out_of_fuel, w') e d t h = ground arith

  pub hold_power_off-Holds :
      (fuel deadline : ℕ) (w : World) → Holds deadline w (hold_power_off env fuel deadline w)
  unfolding hold_power_off
  hold_power_off-Holds zero deadline w = (refl, refl, tt)
  hold_power_off-Holds (suc fuel) deadline w =
      let w1 = (now_ts env w).1 in
      let owners = owners_at w.device w1.ticks in
      let w2 = (ask_desktop_owners env w1).1 in
      let w3 = (sleep env (read_ups_status env w2).1).1 in
      let status = (read_ups_status env w2).0 in
      elim (Bool-cases (ltb w1.clock deadline)) [
        | inr late ↦ rw late (refl, refl, ground arith)
        | inl early ↦ elim (Bool-cases (is_shutting_down (mode_of w.shared))) [
          | inr back ↦ rw (early, back) (refl, refl, (back, ground arith))
          | inl on ↦ elim (Bool-cases (any (λ o. reports_desktop_down o.shared) owners)) [
            | inl down ↦ rw (early, on, down) (refl, refl, (w1.ticks, omega arith, inl down))
            | inr up ↦ elim (Bool-cases (any (λ o. finished_desktop_handling o.shared) owners)) [
              | inl done ↦
                  rw (early, on, up, done) (refl, refl, (w1.ticks, omega arith, inr (inl done)))
              | inr busy ↦ elim (Bool-cases (shows_low_battery status)) [
                | inl low ↦
                    rw (early, on, up, busy, low)
                      (refl, refl, (w2.ticks, omega arith, inr (inr low)))
                | inr charged ↦
                    rw (early, on, up, busy, charged)
                      (Holds-later deadline w w3 (hold_power_off env fuel deadline w3) refl refl
                        (omega arith) (hold_power_off-Holds fuel deadline w3))
              ]
            ]
          ]
        ]
      ]

  power_off_ups-clock : (w : World) → w.clock ≤ (power_off_ups env w).1.clock
  unfolding power_off_ups
  power_off_ups-clock w = ground arith

  -- What the worker does once the hold has ended.
  abbrev Cuts : ℕ → World → World → Type 0
  Cuts deadline w w' =
      (w'.effects ≡ ran (upscmd_argv env w.device) ∷ w.effects)
      × (((k : ℕ) × (w.ticks ≤ k) × Ends w.device k) ⊎ (deadline ≤ w'.clock))

  pub cut_after :
      (w v : World)
      → v.effects ≡ w.effects
      → v.device ≡ w.device
      → (power_off_ups env v).1.effects ≡ ran (upscmd_argv env w.device) ∷ w.effects
  cut_after w v e d =
      (power_off_ups-effects env v).0 ∙ ap₂ (λ dev es. ran (upscmd_argv env dev) ∷ es) d e

  Holds-Cuts :
      (deadline : ℕ) (w : World) (r : WaitEnd × World)
      → Holds deadline w r
      → let w' = (unless_aborted env r.0 (power_off_ups env >> pure tt) r.1).1 in
        (w'.effects ≡ w.effects) ⊎ Cuts deadline w w'
  unfolding unless_aborted
  Holds-Cuts deadline w (left, v) (e, d, why) = inr (cut_after w v e d, inl why)
  Holds-Cuts deadline w (expired, v) (e, d, late) =
      inr (cut_after w v e d, inr (omega (arith, late, power_off_ups-clock v)))
  Holds-Cuts deadline w (aborted, v) (e, d, _) = inl e
  Holds-Cuts deadline w (out_of_fuel, v) (e, d, _) = inl e

  nil_of_is_nil : (owners : List Peer) → is_nil owners ≡ true → owners ≡ []
  nil_of_is_nil owners h = ground arith

  -- An observer cuts the power of its desktop only with a reason: no primary owns the desktop; or, at
  -- some call during the hold, an owner had the desktop's report that it goes down, an owner had
  -- finished with the desktop, or the UPS showed a low battery; or the longest wait is over. Then it runs
  -- one `upscmd` and nothing else, and without a reason it runs nothing.
  pub power_off-IsJustified :
      (w : World)
      → let w' = (observer_power_off_when_desktop_safe env w).1 in
        (w'.effects ≡ w.effects)
        ⊎ ((w'.effects ≡ ran (upscmd_argv env w.device) ∷ w.effects)
            × ((owners_at w.device w.ticks ≡ [])
                ⊎ (((k : ℕ) × (w.ticks < k) × Ends w.device k)
                    ⊎ (w.clock + w.device.timing.observer_poweroff_max_wait ≤ w'.clock))))
  unfolding observer_power_off_when_desktop_safe
  power_off-IsJustified w =
      let max_wait = w.device.timing.observer_poweroff_max_wait in
      let w1 = (ask_desktop_owners env w).1 in
      let w2 = (now_ts env w1).1 in
      let deadline = w2.clock + max_wait in
      let held = hold_power_off-Holds (suc max_wait) deadline w2 in
      elim (Bool-cases (is_nil (owners_at w.device w.ticks))) [
        | inl alone ↦
            rw alone (
              inr
                (cut_after w w2 refl refl, inl (nil_of_is_nil (owners_at w.device w.ticks) alone)))
        | inr owned ↦
            rw owned
              (elim (Holds-Cuts deadline w2 (hold_power_off env (suc max_wait) deadline w2) held) [
                | inl same ↦ inl same
                | inr (cut, inl (k, later, ends)) ↦ inr (cut, inr (inl (k, omega arith, ends)))
                | inr (cut, inr late) ↦ inr (cut, inr (inr (omega (arith, late))))
              ])
      ]
