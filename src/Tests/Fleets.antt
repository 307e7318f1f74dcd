-- ===== src/Tests/Fleets.antt =====
-- The theorems about all contexts together, each at an input.
use ups_orchestrator.Prelude.{◌≡◌, refl, sym, contains, true, false, List, [], ◌∷◌, All, any}
use mathlib.Core.List.{Memᴰ}
use ups_orchestrator.Context.Monad.{Env, completed, printed}
use ups_orchestrator.Config.{primary, observer}
use ups_orchestrator.Context.State.{Mode, World}
use ups_orchestrator.Context.Handlers.{lowbatt}
use ups_orchestrator.Context.Inputs.{event, restart, handle}
use ups_orchestrator.Context.Invariant.{IsWellFormed}
use ups_orchestrator.Fleet.{boot, with_peers, handled, turn, started, next}
use ups_orchestrator.Fleet.Polls.{poll_orders}
use ups_orchestrator.Fleet.Converging.{Apart, IsIdle, devices_of}
use ups_orchestrator.Fleet.Orders.{poll_orders-IsIdle}
use ups_orchestrator.Fleet.Held.{IsOut}
use ups_orchestrator.Fleet.Rivals.{poll_orders-IsOut}
use ups_orchestrator.Fleet.Reachable.{Reaches-IsWellFormed, Reaches-IsRecorded}
use ups_orchestrator.Context.Recording.{IsRecorded}
use ups_orchestrator.Fleet.Standing.{holds}
use ups_orchestrator.Samples.{env, world_in, device_of}

abbrev server : World
server = world_in primary Mode.monitoring_battery true

abbrev desktop_ups : World
desktop_ups = record (world_in observer Mode.monitoring_battery true) {
  device = record (device_of observer) { id = "desktop-ups" };
}

abbrev files : List World
files = server ∷ desktop_ups ∷ []

abbrev booted : World
booted = (handle env restart server).1

abbrev others : List World
others = boot env (desktop_ups ∷ [])

-- The server boots, and the first context then gets a LOWBATT.
Reaches-IsWellFormed_example :
    All IsWellFormed
      ((handle (with_peers env (booted ∷ others) booted) (event lowbatt) booted).1 ∷ others)
unfolding handle
Reaches-IsWellFormed_example =
    Reaches-IsWellFormed env files
      ((handle (with_peers env (booted ∷ others) booted) (event lowbatt) booted).1 ∷ others)
      (next (booted ∷ others)
        ((handle (with_peers env (booted ∷ others) booted) (event lowbatt) booted).1 ∷ others)
        started
        (turn env [] others booted
          (handle (with_peers env (booted ∷ others) booted) (event lowbatt) booted).1
          (handled (event lowbatt) booted)))

Reaches-IsRecorded_example :
    All IsRecorded
      ((handle (with_peers env (booted ∷ others) booted) (event lowbatt) booted).1 ∷ others)
unfolding handle
Reaches-IsRecorded_example =
    Reaches-IsRecorded env files
      ((handle (with_peers env (booted ∷ others) booted) (event lowbatt) booted).1 ∷ others)
      (next (booted ∷ others)
        ((handle (with_peers env (booted ∷ others) booted) (event lowbatt) booted).1 ∷ others)
        started
        (turn env [] others booted
          (handle (with_peers env (booted ∷ others) booted) (event lowbatt) booted).1
          (handled (event lowbatt) booted)))

held_by_desktop_ups : any (holds server) files ≡ true
held_by_desktop_ups = refl

-- An observer is held by another observer of the same desktop, although it only watches its own UPS.
held_by_observer :
    any (holds (world_in observer Mode.monitoring_battery false)) (desktop_ups ∷ []) ≡ true
held_by_observer = refl

abbrev on_line : Env
on_line = record env { upsc = λ _. λ _. completed 0 "OL\n" }

abbrev apart : Apart (devices_of files)
apart = (λ o. sym o, ((λ _. refl), tt))

-- Both contexts monitor at first; the server's own is held until the desktop's is idle. The first round
-- polls the server's own first, the second the desktop's.
poll_orders-IsIdle_example :
    All IsIdle (poll_orders (λ _. on_line) 30 ((0 ∷ 1 ∷ []) ∷ (1 ∷ 0 ∷ []) ∷ []) files)
unfolding contains printed
poll_orders-IsIdle_example =
    poll_orders-IsIdle (λ _. on_line) 30 (0 ∷ 1 ∷ []) (1 ∷ 0 ∷ []) [] files
      (λ _. λ _. (refl, refl, refl)) apart (Memᴰ.tail (Memᴰ.head refl), (Memᴰ.head refl, tt))
      (Memᴰ.head refl, (Memᴰ.tail (Memᴰ.head refl), tt))

-- The desktop has a second UPS, which is an observer too.
abbrev spare : World
spare = record desktop_ups { device = record (device_of observer) { id = "spare-ups" } }

poll_orders-IsOut_example :
    All IsOut
      (poll_orders (λ _. on_line) 30 ((0 ∷ 1 ∷ []) ∷ (1 ∷ 0 ∷ []) ∷ []) (desktop_ups ∷ spare ∷ []))
unfolding contains printed
poll_orders-IsOut_example =
    poll_orders-IsOut (λ _. on_line) 30 ((0 ∷ 1 ∷ []) ∷ (1 ∷ 0 ∷ []) ∷ []) desktop_ups spare
      (λ _. λ _. (refl, refl, refl)) (refl, refl) refl refl
