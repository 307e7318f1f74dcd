-- ===== src/Fleet.antt =====
-- All contexts of server/app/server.py together: each has the others as its peers, and the threads of
-- the poll loop, the routes and the workers take turns.
pub mod Reachable
pub mod Standing
pub mod Polls
pub mod Converging
pub mod Settling
pub mod Orders
pub mod Held
pub mod Rivals
use ups_orchestrator.Prelude.{ℕ, List, [], ◌∷◌, ◌++◌, map}
use ups_orchestrator.Context.State.{World, Peer}
use ups_orchestrator.Context.Monad.{Env}
use ups_orchestrator.Context.Peers.{register_peers}
use ups_orchestrator.Context.Phases.{reset_state_on_startup}
use ups_orchestrator.Context.Wake.{send_wol}
use ups_orchestrator.Context.Workers.{push_shutdown}
use ups_orchestrator.Context.Inputs.{Input, handle}
use ups_orchestrator.Server.Routes.{Request, route, poll_device}

-- A context as its peers see it.
abbrev pub peer_of : World → Peer
peer_of w = record { device = w.device; shared = w.shared }

-- The system, in which the peers of a context are the others of the fleet as they are now.
abbrev pub with_peers : Env → List World → World → Env
with_peers env fleet w = record env { peers = λ _. register_peers w.device (map peer_of fleet) }

-- The start of the server: every context is reset.
abbrev pub boot : Env → List World → List World
boot env [] = []
boot env (w ∷ ws) = (reset_state_on_startup env w).1 ∷ boot env ws

-- One turn of one thread at one context: a call that reaches it, a request, a round of the poll, or a
-- worker that pushes the shutdown or sends a packet. The answers of the system are new in each turn.
pub data Turn (env : Env) : World → World → Type 0 where
  handled : (i : Input) (w : World) → Turn env w (handle env i w).1
  routed : (max_age : ℕ) (req : Request) (w : World) → Turn env w (route env max_age req w).1
  polled : (max_age : ℕ) (w : World) → Turn env w (poll_device env max_age w).1
  pushed : (w : World) → Turn env w (push_shutdown env w).1
  woken : (w : World) → Turn env w (send_wol env w).1

pub data Step : List World → List World → Type 0 where
  turn :
      (env : Env) (before after : List World) (w w' : World)
      → Turn (with_peers env (before ++ w ∷ after) w) w w'
      → Step (before ++ w ∷ after) (before ++ w' ∷ after)

-- The fleets that any sequence of turns leads to.
pub data Reaches (start : List World) : List World → Type 0 where
  started : Reaches start start
  next : (v w : List World) → Reaches start v → Step v w → Reaches start w
