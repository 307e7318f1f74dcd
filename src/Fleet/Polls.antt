-- ===== src/Fleet/Polls.antt =====
-- Rounds of `poll_loop`: each context is polled once, in the order of the list (`poll_round`) or in the
-- order in which its threads happen to run (`poll_in`).
use ups_orchestrator.Prelude.{ℕ, zero, suc, List, [], ◌∷◌, ◌++◌}
use ups_orchestrator.Config.{UpsDeviceConfig}
use ups_orchestrator.Context.State.{World}
use ups_orchestrator.Context.Monad.{Env}
use ups_orchestrator.Server.Routes.{poll_device}
use ups_orchestrator.Fleet.{with_peers}

-- The system answers each device on its own.
module _ (env : UpsDeviceConfig → Env) (max_age : ℕ) where
  -- `_poll_device` of one context, in the fleet as it is then.
  abbrev pub poll_one : List World → World → World
  poll_one fleet w = (poll_device (with_peers (env w.device) fleet w) max_age w).1

  -- The contexts of `before` have been polled already.
  unfoldable pub poll_from : List World → List World → List World
  poll_from before [] = before
  poll_from before (w ∷ after) = poll_from (before ++ poll_one (before ++ w ∷ after) w ∷ []) after

  unfoldable pub poll_round : List World → List World
  unfolding poll_from
  poll_round fleet = poll_from [] fleet

  -- The endless loop, for as many rounds as it has made.
  unfoldable pub poll_rounds : ℕ → List World → List World
  poll_rounds zero fleet = fleet
  poll_rounds (suc rounds) fleet = poll_rounds rounds (poll_round fleet)

  -- The context at a position of `after` is polled, the contexts of `before` stand ahead of it. Nothing
  -- is polled at a position that the fleet does not have.
  unfoldable pub poll_at : List World → ℕ → List World → List World
  poll_at before i [] = []
  poll_at before zero (w ∷ after) = poll_one (before ++ w ∷ after) w ∷ after
  poll_at before (suc i) (w ∷ after) = w ∷ poll_at (before ++ w ∷ []) i after

  -- A round whose threads run in the order of the positions.
  unfoldable pub poll_in : List ℕ → List World → List World
  unfolding poll_at
  poll_in [] fleet = fleet
  poll_in (i ∷ order) fleet = poll_in order (poll_at [] i fleet)

  -- The endless loop, each round in an order of its own.
  unfoldable pub poll_orders : List (List ℕ) → List World → List World
  unfolding poll_in
  poll_orders [] fleet = fleet
  poll_orders (order ∷ orders) fleet = poll_orders orders (poll_in order fleet)
