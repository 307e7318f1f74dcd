-- ===== src/Fleet/Rivals.antt =====
-- Two observers of one desktop in the poll loop of server/app/server.py.
use ups_orchestrator.Prelude.{ℕ, suc, zero, ◌≡◌, ap, ◌∙◌, true, List, [], ◌∷◌, arith, All}
use ups_orchestrator.Config.{UpsDeviceConfig}
use ups_orchestrator.Context.State.{World}
use ups_orchestrator.Context.Monad.{Env, printed, upsc_argv}
use ups_orchestrator.Fleet.Standing.{holds}
use ups_orchestrator.Fleet.Polls.{poll_from, poll_round, poll_rounds, poll_at, poll_in, poll_orders}
use ups_orchestrator.Fleet.Converging.{OnLine, shares, poll_one-device}
use ups_orchestrator.Fleet.Held.{IsOut, poll_one-IsOut}

-- Two observers of one desktop.
abbrev pub AreRivals : UpsDeviceConfig → UpsDeviceConfig → Type 0
AreRivals d e = (shares d e ≡ true) × (shares e d ≡ true)

-- A fleet of two observers of one desktop, both in an outage.
abbrev Rivalling : List World → Type 0
Rivalling [] = ⊥
Rivalling (a ∷ []) = ⊥
Rivalling (a ∷ b ∷ []) = AreRivals a.device b.device × IsOut a × IsOut b
Rivalling (a ∷ b ∷ c ∷ fleet) = ⊥

Rivalling-IsOut : (fleet : List World) → Rivalling fleet → All IsOut fleet
Rivalling-IsOut [] h = tt
Rivalling-IsOut (a ∷ []) h = absurd h
Rivalling-IsOut (a ∷ b ∷ []) h = (h.1, (h.2, tt))
Rivalling-IsOut (a ∷ b ∷ c ∷ fleet) h = absurd h

rival_holds : (a b : World) → shares a.device b.device ≡ true → IsOut b → holds a b ≡ true
rival_holds a b s out = ground arith

module _ (env : UpsDeviceConfig → Env) (max_age : ℕ)
    (mains : (d : UpsDeviceConfig) (k : ℕ)
      → OnLine (printed ((env d).upsc k (upsc_argv d.nut_name "ups.status")))) where
  -- They still are after one of them is polled.
  poll_at-Rivalling :
      (i : ℕ) (fleet : List World) → Rivalling fleet → Rivalling (poll_at env max_age [] i fleet)
  unfolding poll_at
  poll_at-Rivalling i [] h = h
  poll_at-Rivalling i (a ∷ []) h = absurd h
  poll_at-Rivalling zero (a ∷ b ∷ []) (rivals, out_a, out_b) =
      let same = poll_one-device env max_age (a ∷ b ∷ []) a in
      let held = rival_holds a b rivals.0 out_b in
      (
        (
          ap (λ (d : UpsDeviceConfig). shares d b.device) same ∙ rivals.0,
          ap (shares b.device) same ∙ rivals.1,
        ),
        poll_one-IsOut env max_age mains (a ∷ b ∷ []) a (ground arith) out_a,
        out_b,
      )
  poll_at-Rivalling (suc zero) (a ∷ b ∷ []) (rivals, out_a, out_b) =
      let same = poll_one-device env max_age (a ∷ b ∷ []) b in
      let held = rival_holds b a rivals.1 out_a in
      (
        (
          ap (shares a.device) same ∙ rivals.0,
          ap (λ (d : UpsDeviceConfig). shares d a.device) same ∙ rivals.1,
        ),
        out_a,
        poll_one-IsOut env max_age mains (a ∷ b ∷ []) b (ground arith) out_b,
      )
  poll_at-Rivalling (suc (suc i)) (a ∷ b ∷ []) h = h
  poll_at-Rivalling i (a ∷ b ∷ c ∷ fleet) h = absurd h

  poll_in-Rivalling :
      (order : List ℕ) (fleet : List World)
      → Rivalling fleet
      → Rivalling (poll_in env max_age order fleet)
  unfolding poll_in
  poll_in-Rivalling [] fleet h = h
  poll_in-Rivalling (i ∷ order) fleet h =
      poll_in-Rivalling order (poll_at env max_age [] i fleet) (poll_at-Rivalling i fleet h)

  poll_orders-Rivalling :
      (orders : List (List ℕ)) (fleet : List World)
      → Rivalling fleet
      → Rivalling (poll_orders env max_age orders fleet)
  unfolding poll_orders
  poll_orders-Rivalling [] fleet h = h
  poll_orders-Rivalling (order ∷ orders) fleet h =
      poll_orders-Rivalling orders (poll_in env max_age order fleet)
        (poll_in-Rivalling order fleet h)

  -- A round in the order of the list polls the first, then the second.
  poll_round-Rivalling :
      (fleet : List World) → Rivalling fleet → Rivalling (poll_round env max_age fleet)
  unfolding poll_round poll_from poll_at
  poll_round-Rivalling [] h = h
  poll_round-Rivalling (a ∷ []) h = absurd h
  poll_round-Rivalling (a ∷ b ∷ []) h =
      poll_at-Rivalling 1 (poll_at env max_age [] 0 (a ∷ b ∷ []))
        (poll_at-Rivalling 0 (a ∷ b ∷ []) h)
  poll_round-Rivalling (a ∷ b ∷ c ∷ fleet) h = absurd h

  poll_rounds-Rivalling :
      (rounds : ℕ) (fleet : List World)
      → Rivalling fleet
      → Rivalling (poll_rounds env max_age rounds fleet)
  unfolding poll_rounds
  poll_rounds-Rivalling zero fleet h = h
  poll_rounds-Rivalling (suc rounds) fleet h =
      poll_rounds-Rivalling rounds (poll_round env max_age fleet) (poll_round-Rivalling fleet h)

-- Rounds in the order of the list leave both out.
poll_rounds-IsOut :
    (env : UpsDeviceConfig → Env) (max_age rounds : ℕ) (a b : World)
    → ((d : UpsDeviceConfig) (k : ℕ)
        → OnLine (printed ((env d).upsc k (upsc_argv d.nut_name "ups.status"))))
    → AreRivals a.device b.device
    → IsOut a
    → IsOut b
    → All IsOut (poll_rounds env max_age rounds (a ∷ b ∷ []))
poll_rounds-IsOut env max_age rounds a b mains rivals out_a out_b =
    Rivalling-IsOut (poll_rounds env max_age rounds (a ∷ b ∷ []))
      (poll_rounds-Rivalling env max_age mains rounds (a ∷ b ∷ []) (rivals, out_a, out_b))

-- Two observers of one desktop that are in an outage keep each other in it: although `upsc` says of
-- both, at every call, that it is on line and neither on battery nor low, neither is idle after any
-- number of rounds of the poll loop, in whatever order each round polls them. So the rounds do not make a
-- fleet idle in which a desktop has two observers.
pub poll_orders-IsOut :
    (env : UpsDeviceConfig → Env) (max_age : ℕ) (orders : List (List ℕ)) (a b : World)
    → ((d : UpsDeviceConfig) (k : ℕ)
        → OnLine (printed ((env d).upsc k (upsc_argv d.nut_name "ups.status"))))
    → AreRivals a.device b.device
    → IsOut a
    → IsOut b
    → All IsOut (poll_orders env max_age orders (a ∷ b ∷ []))
poll_orders-IsOut env max_age orders a b mains rivals out_a out_b =
    Rivalling-IsOut (poll_orders env max_age orders (a ∷ b ∷ []))
      (poll_orders-Rivalling env max_age mains orders (a ∷ b ∷ []) (rivals, out_a, out_b))
