-- ===== src/Fleet/Orders.antt =====
-- The rounds of the poll loop in server/app/server.py when their threads run in any order.
use ups_orchestrator.Prelude.{
  ℕ, suc, zero, ◌≡◌, refl, ap, ◌∙◌, sym, List, [], ◌∷◌, ◌++◌, append_assoc, All, All-map, length,
  ◌<◌, arith, ltb, Bool-cases, inl, inr,
}
use mathlib.Core.Path.{subst}
use mathlib.Core.List.{Memᴰ}
use mathlib.Core.List.Memᴰ
use ups_orchestrator.Config.{UpsDeviceConfig}
use ups_orchestrator.Context.State.{World}
use ups_orchestrator.Context.Monad.{Env, printed, upsc_argv}
use ups_orchestrator.Fleet.Polls.{poll_one, poll_at, poll_in, poll_orders}
use ups_orchestrator.Fleet.Converging.{OnLine, Apart, devices_of, IsIdle, ObserverIdle}
use ups_orchestrator.Fleet.Settling.{poll_one-ObserverIdle, poll_one-IsIdle}

-- Every position below the bound occurs in the order.
abbrev pub Covers : List ℕ → ℕ → Type 0
Covers order zero = Unit
Covers order (suc n) = Memᴰ n order × Covers order n

-- What holds of the context at a position, if the fleet has one there.
abbrev At : (World → Type 0) → ℕ → List World → Type 0
At P i [] = Unit
At P zero (w ∷ fleet) = P w
At P (suc i) (w ∷ fleet) = At P i fleet

At-All :
    (P : World → Type 0) (fleet : List World)
    → ((i : ℕ) → i < length fleet → At P i fleet)
    → All P fleet
At-All P [] h = tt
At-All P (w ∷ fleet) h = (
  h 0 (omega arith),
  At-All P fleet (λ i. λ (lt : i < length fleet). h (suc i) (omega (arith, lt))),
)

Covers-Mem : (order : List ℕ) (n i : ℕ) → Covers order n → i < n → Memᴰ i order
Covers-Mem order zero i h lt = absurd (omega (arith, lt))
Covers-Mem order (suc n) i h lt = elim (Bool-cases (ltb i n)) [
  | inl e ↦ Covers-Mem order n i h.1 (grind (arith, e))
  | inr e ↦ Memᴰ.cast (grind (arith, e, lt)) h.0
]

All-At : (P : World → Type 0) (i : ℕ) (fleet : List World) → All P fleet → At P i fleet
All-At P i [] h = tt
All-At P zero (w ∷ fleet) h = h.0
All-At P (suc i) (w ∷ fleet) h = All-At P i fleet h.1

module _ (env : UpsDeviceConfig → Env) (max_age : ℕ) where
  length-poll_at :
      (before : List World) (i : ℕ) (after : List World)
      → length (poll_at env max_age before i after) ≡ length after
  unfolding poll_at
  length-poll_at before i [] = refl
  length-poll_at before zero (w ∷ after) = refl
  length-poll_at before (suc i) (w ∷ after) = ap suc (length-poll_at (before ++ w ∷ []) i after)

  length-poll_in :
      (order : List ℕ) (fleet : List World)
      → length (poll_in env max_age order fleet) ≡ length fleet
  unfolding poll_in
  length-poll_in [] fleet = refl
  length-poll_in (i ∷ order) fleet =
      length-poll_in order (poll_at env max_age [] i fleet) ∙ length-poll_at [] i fleet

  -- Each poll reaches `Post` for its context and keeps `Inv`.
  module _ (Post : World → Type 0) (Inv : List World → Type 0)
      (step : (before after : List World) (w : World)
        → Inv (before ++ w ∷ after)
        → Post (poll_one env max_age (before ++ w ∷ after) w)
          × Inv (before ++ poll_one env max_age (before ++ w ∷ after) w ∷ after)) where
    poll_at-Inv :
        (before : List World) (i : ℕ) (after : List World)
        → Inv (before ++ after)
        → Inv (before ++ poll_at env max_age before i after)
    unfolding poll_at
    poll_at-Inv before i [] h = h
    poll_at-Inv before zero (w ∷ after) h = (step before after w h).1
    poll_at-Inv before (suc i) (w ∷ after) h =
        subst Inv (append_assoc before (w ∷ []) (poll_at env max_age (before ++ w ∷ []) i after)) (
          poll_at-Inv (before ++ w ∷ []) i after
            (subst Inv (sym (append_assoc before (w ∷ []) after)) h))

    -- A position is done once it is polled.
    poll_at-hits :
        (before : List World) (i : ℕ) (after : List World)
        → Inv (before ++ after)
        → At Post i (poll_at env max_age before i after)
    unfolding poll_at
    poll_at-hits before i [] h = tt
    poll_at-hits before zero (w ∷ after) h = (step before after w h).0
    poll_at-hits before (suc i) (w ∷ after) h =
        poll_at-hits (before ++ w ∷ []) i after
          (subst Inv (sym (append_assoc before (w ∷ []) after)) h)

    -- A poll leaves the positions that are done so.
    poll_at-keeps :
        (before : List World) (i j : ℕ) (after : List World)
        → Inv (before ++ after)
        → At Post i after
        → At Post i (poll_at env max_age before j after)
    unfolding poll_at
    poll_at-keeps before i j [] h done = tt
    poll_at-keeps before zero zero (w ∷ after) h done = (step before after w h).0
    poll_at-keeps before (suc i) zero (w ∷ after) h done = done
    poll_at-keeps before zero (suc j) (w ∷ after) h done = done
    poll_at-keeps before (suc i) (suc j) (w ∷ after) h done =
        poll_at-keeps (before ++ w ∷ []) i j after
          (subst Inv (sym (append_assoc before (w ∷ []) after)) h) done

    poll_in-Inv :
        (order : List ℕ) (fleet : List World) → Inv fleet → Inv (poll_in env max_age order fleet)
    unfolding poll_in
    poll_in-Inv [] fleet h = h
    poll_in-Inv (i ∷ order) fleet h =
        poll_in-Inv order (poll_at env max_age [] i fleet) (poll_at-Inv [] i fleet h)

    poll_in-keeps :
        (i : ℕ) (order : List ℕ) (fleet : List World)
        → Inv fleet
        → At Post i fleet
        → At Post i (poll_in env max_age order fleet)
    unfolding poll_in
    poll_in-keeps i [] fleet h done = done
    poll_in-keeps i (j ∷ order) fleet h done =
        poll_in-keeps i order (poll_at env max_age [] j fleet) (poll_at-Inv [] j fleet h)
          (poll_at-keeps [] i j fleet h done)

    poll_in-hits :
        (i : ℕ) (order : List ℕ) (fleet : List World)
        → Inv fleet
        → Memᴰ i order
        → At Post i (poll_in env max_age order fleet)
    unfolding poll_in
    poll_in-hits i [] fleet h m = elim m [ ]
    poll_in-hits i (j ∷ order) fleet h (Memᴰ.head e) =
        poll_in-keeps i order (poll_at env max_age [] j fleet) (poll_at-Inv [] j fleet h) (
          subst (λ k. At Post k (poll_at env max_age [] j fleet)) (sym e)
            (poll_at-hits [] j fleet h))
    poll_in-hits i (j ∷ order) fleet h (Memᴰ.tail m) =
        poll_in-hits i order (poll_at env max_age [] j fleet) (poll_at-Inv [] j fleet h) m

    -- A round that polls every context reaches `Post` everywhere.
    poll_in-All :
        (order : List ℕ) (fleet : List World)
        → Inv fleet
        → Covers order (length fleet)
        → All Post (poll_in env max_age order fleet) × Inv (poll_in env max_age order fleet)
    poll_in-All order fleet h covers = (
      At-All Post (poll_in env max_age order fleet) (λ i. λ lt. poll_in-hits i order fleet h (
          Covers-Mem order (length fleet) i covers
            (omega (arith, lt, length-poll_in order fleet)))),
      poll_in-Inv order fleet h,
    )

    -- A round in any order keeps `Post` where it holds.
    poll_in-still :
        (order : List ℕ) (fleet : List World)
        → Inv fleet
        → All Post fleet
        → All Post (poll_in env max_age order fleet)
    poll_in-still order fleet h done =
        At-All Post (poll_in env max_age order fleet)
          (λ i. λ _. poll_in-keeps i order fleet h (All-At Post i fleet done))

  module _
      (mains : (d : UpsDeviceConfig) (k : ℕ)
        → OnLine (printed ((env d).upsc k (upsc_argv d.nut_name "ups.status")))) where
    poll_orders-still :
        (orders : List (List ℕ)) (fleet : List World)
        → All IsIdle fleet
        → All IsIdle (poll_orders env max_age orders fleet)
    unfolding poll_orders
    poll_orders-still [] fleet calm = calm
    poll_orders-still (order ∷ orders) fleet calm =
        poll_orders-still orders (poll_in env max_age order fleet) (
          poll_in-still IsIdle (All ObserverIdle) (poll_one-IsIdle env max_age mains) order fleet
            (All-map IsIdle ObserverIdle (λ w h. λ _. h) fleet calm) calm)

-- When `upsc` says of every device, at every call, that it is on line and neither on battery nor low,
-- and no desktop has two observers, two rounds of the poll loop that poll every context, each in any
-- order, alone make the whole fleet idle, and it stays idle in every later round, whatever modes and
-- phases the contexts were in before.
pub poll_orders-IsIdle :
    (env : UpsDeviceConfig → Env) (max_age : ℕ) (first second : List ℕ) (later : List (List ℕ))
    (fleet : List World)
    → ((d : UpsDeviceConfig) (k : ℕ)
        → OnLine (printed ((env d).upsc k (upsc_argv d.nut_name "ups.status"))))
    → Apart (devices_of fleet)
    → Covers first (length fleet)
    → Covers second (length fleet)
    → All IsIdle (poll_orders env max_age (first ∷ second ∷ later) fleet)
unfolding poll_orders
poll_orders-IsIdle env max_age first second later fleet mains apart all_first all_second =
    let once = poll_in env max_age first fleet in
    let calm =
      (poll_in-All env max_age ObserverIdle (λ ws. Apart (devices_of ws))
        (poll_one-ObserverIdle env max_age mains) first fleet apart all_first).0 in
    poll_orders-still env max_age mains later (poll_in env max_age second once)
      (poll_in-All env max_age IsIdle (All ObserverIdle) (poll_one-IsIdle env max_age mains) second
        once calm
        (subst (Covers second) (sym (length-poll_in env max_age first fleet)) all_second)).0
