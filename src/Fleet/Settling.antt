-- ===== src/Fleet/Settling.antt =====
-- What polls of the loop in server/app/server.py do to the other contexts of an idle fleet, and the
-- rounds of the loop when they go in the order of the list.
use ups_orchestrator.Prelude.{
  ℕ, suc, zero, ◌≡◌, ap, ◌∙◌, sym, true, false, List, [], ◌∷◌, ◌++◌, any, append_assoc, append-nil,
  All, All-append, All-middle, All-replace, All-map,
}
use mathlib.Core.Path.{subst}
use ups_orchestrator.Config.{UpsDeviceConfig, is_observer}
use ups_orchestrator.Context.State.{World}
use ups_orchestrator.Context.Monad.{Env, printed, upsc_argv}
use ups_orchestrator.Fleet.Polls.{poll_one, poll_from, poll_round, poll_rounds}
use ups_orchestrator.Fleet.Converging.{
  OnLine, Settled, shares, Apart, devices_of, IsIdle, ObserverIdle, any-holds_apart, any-holds_idle,
  poll_one-Settled, poll_one-device,
}

-- The devices of a fleet do not depend on what a context with the same device has done.
devices_of-replace :
    (before after : List World) (w v : World)
    → v.device ≡ w.device
    → devices_of (before ++ v ∷ after) ≡ devices_of (before ++ w ∷ after)
devices_of-replace [] after w v h = ap (λ (d : UpsDeviceConfig). d ∷ devices_of after) h
devices_of-replace (x ∷ before) after w v h =
    ap (λ (ds : List UpsDeviceConfig). x.device ∷ ds) (devices_of-replace before after w v h)

-- What holds for each device holds for each context.
All-devices_of :
    (P : UpsDeviceConfig → Type 0) (fleet : List World)
    → All P (devices_of fleet)
    → All (λ w. P w.device) fleet
All-devices_of P [] h = tt
All-devices_of P (w ∷ fleet) h = (h.0, All-devices_of P fleet h.1)

module _ (env : UpsDeviceConfig → Env) (max_age : ℕ) where
  -- A round reaches `Post` for every context when each poll does and keeps `Inv`.
  poll_from-All :
      (Post : World → Type 0) (Inv : List World → Type 0)
      → ((before after : List World) (w : World)
          → Inv (before ++ w ∷ after)
          → Post (poll_one env max_age (before ++ w ∷ after) w)
            × Inv (before ++ poll_one env max_age (before ++ w ∷ after) w ∷ after))
      → (before after : List World) → All Post before
      → Inv (before ++ after)
      → All Post (poll_from env max_age before after) × Inv (poll_from env max_age before after)
  unfolding poll_from
  poll_from-All Post Inv step before [] done i = (done, subst Inv (append-nil before) i)
  poll_from-All Post Inv step before (w ∷ after) done i =
      let v = poll_one env max_age (before ++ w ∷ after) w in
      let s = step before after w i in
      poll_from-All Post Inv step (before ++ v ∷ []) after
        (All-append Post before (v ∷ []) done (s.0, tt))
        (subst Inv (sym (append_assoc before (v ∷ []) after)) s.1)

  module _
      (mains : (d : UpsDeviceConfig) (k : ℕ)
        → OnLine (printed ((env d).upsc k (upsc_argv d.nut_name "ups.status")))) where
    -- A poll makes an observer idle, since no one holds it, and keeps the devices.
    pub poll_one-ObserverIdle :
        (before after : List World) (w : World)
        → Apart (devices_of (before ++ w ∷ after))
        → ObserverIdle (poll_one env max_age (before ++ w ∷ after) w)
          × Apart (devices_of (before ++ poll_one env max_age (before ++ w ∷ after) w ∷ after))
    unfolding Settled
    poll_one-ObserverIdle before after w i =
        let ws = before ++ w ∷ after in
        let settled = λ (o : is_observer w.device ≡ true). poll_one-Settled env max_age mains ws w (
          any-holds_apart w ws (
            All-middle
              (λ c. is_observer c.device ≡ true → any (shares c.device) (devices_of ws) ≡ false)
              before after w
              (All-devices_of (λ d. is_observer d ≡ true → any (shares d) (devices_of ws) ≡ false)
                ws i)
              o)) in
        (
          λ o. (settled (ap is_observer (sym (poll_one-device env max_age ws w)) ∙ o)).0,
          subst Apart
              (sym (
                devices_of-replace before after w (poll_one env max_age ws w)
                  (poll_one-device env max_age ws w)))
              i,
        )

    -- Among idle observers a poll makes any context idle.
    pub poll_one-IsIdle :
        (before after : List World) (w : World)
        → All ObserverIdle (before ++ w ∷ after)
        → IsIdle (poll_one env max_age (before ++ w ∷ after) w)
          × All ObserverIdle (before ++ poll_one env max_age (before ++ w ∷ after) w ∷ after)
    unfolding Settled
    poll_one-IsIdle before after w i =
        let idle =
          (poll_one-Settled env max_age mains (before ++ w ∷ after) w
            (any-holds_idle w (before ++ w ∷ after) i)).0 in
        (idle, All-replace ObserverIdle before after w _ (λ _. λ _. idle) i)

    -- After a round every observer is idle.
    poll_round-ObserverIdle :
        (fleet : List World)
        → Apart (devices_of fleet)
        → All ObserverIdle (poll_round env max_age fleet)
    unfolding poll_round
    poll_round-ObserverIdle fleet apart =
        (poll_from-All ObserverIdle (λ ws. Apart (devices_of ws)) poll_one-ObserverIdle [] fleet tt
          apart).0

    -- Once the observers are idle, a round makes every context idle.
    poll_round-IsIdle :
        (fleet : List World) → All ObserverIdle fleet → All IsIdle (poll_round env max_age fleet)
    unfolding poll_round
    poll_round-IsIdle fleet calm =
        (poll_from-All IsIdle (All ObserverIdle) poll_one-IsIdle [] fleet tt calm).0

    -- Rounds keep an idle fleet idle.
    poll_rounds-still :
        (n : ℕ) (fleet : List World)
        → All IsIdle fleet
        → All IsIdle (poll_rounds env max_age n fleet)
    unfolding poll_rounds
    poll_rounds-still zero fleet calm = calm
    poll_rounds-still (suc n) fleet calm =
        poll_rounds-still n (poll_round env max_age fleet)
          (poll_round-IsIdle fleet (All-map IsIdle ObserverIdle (λ w h. λ _. h) fleet calm))

-- Two rounds in the order of the list make the whole fleet idle, and it stays idle in later rounds.
poll_rounds-IsIdle :
    (env : UpsDeviceConfig → Env) (max_age rounds : ℕ) (fleet : List World)
    → ((d : UpsDeviceConfig) (k : ℕ)
        → OnLine (printed ((env d).upsc k (upsc_argv d.nut_name "ups.status"))))
    → Apart (devices_of fleet)
    → All IsIdle (poll_rounds env max_age (suc (suc rounds)) fleet)
unfolding poll_rounds
poll_rounds-IsIdle env max_age rounds fleet mains apart =
    let once = poll_round env max_age fleet in
    poll_rounds-still env max_age mains rounds (poll_round env max_age once) (
      poll_round-IsIdle env max_age mains once
        (poll_round-ObserverIdle env max_age mains fleet apart))
