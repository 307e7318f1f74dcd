-- ===== src/Context/Packets.antt =====
-- How often the worker that wakes the desktop sends its packet.
use ups_orchestrator.Prelude.{
  ℕ, zero, suc, ◌+◌, ◌*◌, ◌≤◌, ◌<◌, ◌≡◌, ◌⊎◌, inl, inr, refl, ap, ◌∙◌, List, [], ◌∷◌, arith, ltb,
  Bool-cases,
}
use native.Mathlib.Nat.{suc-mul, zero-mul}
use ups_orchestrator.Context.State.{
  Effect, ran, pushed, wol_frame, World, is_shutting_down, is_online, mode_of, status_of,
}
use ups_orchestrator.Context.Monad.{Env, now_ts, sleep}
use ups_orchestrator.Context.Desktop.{fetch_state_from_desktop}
use ups_orchestrator.Context.Wake.{send_wol}
use ups_orchestrator.Context.Workers.{retry, wait_for_online}

-- The packets among the effects.
abbrev pub frames : List Effect → ℕ
frames [] = 0
frames (wol_frame f ∷ es) = suc (frames es)
frames (ran argv ∷ es) = frames es
frames (pushed c ∷ es) = frames es

-- `n` packets are sent from `w` to `w'`, of which the next was due at `next`.
record Paced (interval next : ℕ) (w w' : World) (n : ℕ) : Type 0 where
  sent : frames w'.effects ≡ frames w.effects + n
  later : w.clock ≤ w'.clock
  paced : (n ≡ 0) ⊎ (next + n * interval ≤ w'.clock + interval)
  off : interval ≡ 0 → n ≡ 0

module _ (env : Env) where
  fetch_state-frames :
      (w : World)
      → (frames (fetch_state_from_desktop env w).1.effects ≡ frames w.effects)
        × (w.clock ≤ (fetch_state_from_desktop env w).1.clock)
  unfolding fetch_state_from_desktop
  fetch_state-frames w = ground arith

  send_wol-frames :
      (w : World)
      → (w.clock ≤ (send_wol env w).1.clock)
        × ((frames (send_wol env w).1.effects ≡ frames w.effects)
            ⊎ (frames (send_wol env w).1.effects ≡ suc (frames w.effects)))
  unfolding send_wol
  send_wol-frames w = ground arith

  -- A retry sends at most one packet, once it is due, and then the next is due an interval later.
  retry-frames :
      (interval next : ℕ) (w : World)
      → let r = retry env interval next w in
        (w.clock ≤ r.1.clock)
        × (next ≤ r.0)
        × ((frames r.1.effects ≡ frames w.effects)
            ⊎ ((frames r.1.effects ≡ suc (frames w.effects))
                × (0 < interval)
                × (next + interval ≤ r.0)
                × (next ≤ r.1.clock)))
  unfolding retry
  retry-frames interval next w = ground (arith, send_wol-frames (now_ts env w).1)

  still-Paced :
      (interval next : ℕ) (w w' : World)
      → frames w'.effects ≡ frames w.effects
      → w.clock ≤ w'.clock
      → (n : ℕ) × Paced interval next w w' n
  still-Paced interval next w w' same later =
      (0, record { sent = omega (arith, same); later = later; paced = inl refl; off = λ _. refl })

  product_zero : (n m : ℕ) → n ≡ 0 → n * m ≡ 0
  product_zero n m z = ap (λ (k : ℕ). k * m) z ∙ zero-mul m

  again-Paced :
      (interval next next' : ℕ) (w u w' : World) (n : ℕ)
      → w.clock ≤ u.clock
      → next ≤ next'
      → (frames u.effects ≡ frames w.effects)
        ⊎ ((frames u.effects ≡ suc (frames w.effects))
            × (0 < interval)
            × (next + interval ≤ next')
            × (next ≤ u.clock))
      → Paced interval next' u w' n
      → (m : ℕ) × Paced interval next w w' m
  again-Paced interval next next' w u w' n later due (inl same) p = (
    n,
    record {
      sent = omega (arith, same, p.sent);
      later = omega (arith, later, p.later);
      paced = ground (arith, p.paced);
      off = p.off;
    },
  )
  again-Paced interval next next' w u w' n later due (inr s) p = (
    suc n,
    record {
      sent = omega (arith, s.0, p.sent);
      later = omega (arith, later, p.later);
      paced = inr (elim p.paced [
        | inl none ↦
            omega
              (arith, product_zero n interval none, suc-mul n interval, s.2, s.3, later, p.later)
        | inr ahead ↦ omega (arith, suc-mul n interval, s.2, ahead)
      ]);
      off = λ zero. omega (arith, zero, s.1);
    },
  )

  -- What comes before sends nothing.
  after-Paced :
      (interval next : ℕ) (w v w' : World)
      → (frames v.effects ≡ frames w.effects) × (w.clock ≤ v.clock)
      → (n : ℕ) × Paced interval next v w' n
      → (n : ℕ) × Paced interval next w w' n
  after-Paced interval next w v w' (same, earlier) (n, p) = (
    n,
    record {
      sent = omega (arith, same, p.sent);
      later = omega (arith, earlier, p.later);
      paced = p.paced;
      off = p.off;
    },
  )

  wait_for_online-Paced :
      (fuel interval deadline next : ℕ) (w : World)
      → (n : ℕ) × Paced interval next w (wait_for_online env fuel interval deadline next w).1 n
  unfolding wait_for_online
  wait_for_online-Paced zero interval deadline next w =
      still-Paced interval next w w refl (omega arith)
  wait_for_online-Paced (suc fuel) interval deadline next w =
      let w1 = (now_ts env w).1 in
      let fetched = (fetch_state_from_desktop env w1) in
      let w2 = fetched.1 in
      let fetch = fetch_state-frames w1 in
      let r = retry env interval next w2 in
      let facts = retry-frames interval next w2 in
      let u = (sleep env r.1).1 in
      let rest =
        after-Paced interval r.0 r.1 u _ (refl, omega arith)
          (wait_for_online-Paced fuel interval deadline r.0 u) in
      elim (Bool-cases (ltb w1.clock deadline)) [
        | inr late ↦ rw late (still-Paced interval next w w1 refl (omega arith))
        | inl e ↦ elim (Bool-cases (is_shutting_down (mode_of w1.shared))) [
          | inr over ↦ rw (e, over) (still-Paced interval next w w1 refl (omega arith))
          | inl m ↦ elim (Bool-cases (is_online (status_of fetched.0))) [
            | inl up ↦
                rw (e, m, up) (still-Paced interval next w w2 fetch.0 (omega (arith, fetch.1)))
            | inr down ↦
                rw (e, m, down)
                  (after-Paced interval next w w2 _ (fetch.0, omega (arith, fetch.1))
                    (again-Paced interval next r.0 w2 r.1 _ rest.0 facts.0 facts.1 facts.2 rest.1))
          ]
        ]
      ]

  -- While it waits for the desktop to wake, the worker sends at most one packet per interval: `n`
  -- packets take `n` intervals of the clock at least. With an interval of 0 it sends none.
  pub wait_for_online-frames :
      (fuel interval deadline : ℕ) (w : World)
      → let w' = (wait_for_online env fuel interval deadline (w.clock + interval) w).1 in
        (n : ℕ) × (frames w'.effects ≡ frames w.effects + n)
        × (n * interval + w.clock ≤ w'.clock)
        × (interval ≡ 0 → n ≡ 0)
  wait_for_online-frames fuel interval deadline w =
      let (n, p) = wait_for_online-Paced fuel interval deadline (w.clock + interval) w in
      (
        n,
        p.sent,
        elim p.paced [
          | inl none ↦ omega (arith, product_zero n interval none, p.later)
          | inr ahead ↦ omega (arith, ahead)
        ],
        p.off,
      )
