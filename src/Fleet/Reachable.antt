-- ===== src/Fleet/Reachable.antt =====
-- The invariants of every context, in every fleet that the server can reach.
use ups_orchestrator.Prelude.{
  ℕ, String, refl, List, [], ◌∷◌, arith, All, All-replace, Option, some, none, Bool-cases, inl, inr,
  str_eq,
}
use ups_orchestrator.Context.State.{World, CommandId, CommandStatus}
use ups_orchestrator.Context.Monad.{Env, now_ts, read_ups_status}
use ups_orchestrator.Context.Desktop.{
  fetch_state_from_desktop, push_command_to_desktop, make_critical_shutdown_command,
}
use ups_orchestrator.Context.Wake.{send_wol}
use ups_orchestrator.Context.Workers.{push_shutdown}
use ups_orchestrator.Context.Inputs.{poll, poll_failed, event, desktop_report, handle}
use ups_orchestrator.Context.Invariant.{IsWellFormed}
use ups_orchestrator.Context.Upholding.{SameState, IsUpheld, handle-upheld}
use ups_orchestrator.Context.Fitting.{IsWellFormed-upheld}
use ups_orchestrator.Context.Recording.{IsRecorded, IsRecorded-upheld}
use ups_orchestrator.Server.Routes.{
  Request, get_status, post_event, update_state, get_state, read_command, create_command,
  create_nameless, ack, preflight, parse_event, route, poll_status, poll_device,
}
use ups_orchestrator.Fleet.{
  boot, with_peers, Turn, handled, routed, polled, pushed, woken, Step, turn, Reaches, started,
  next,
}

module _ (env : Env) where
  push_shutdown-SameState : (w : World) → SameState w (push_shutdown env w).1
  unfolding push_shutdown push_command_to_desktop make_critical_shutdown_command
  push_shutdown-SameState w = ground arith

  send_wol-SameState : (w : World) → SameState w (send_wol env w).1
  unfolding send_wol
  send_wol-SameState w = ground arith

  pub fetch_state-SameState : (w : World) → SameState w (fetch_state_from_desktop env w).1
  unfolding fetch_state_from_desktop
  fetch_state-SameState w = ground arith

  get_state-SameState : (max_age : ℕ) (w : World) → SameState w (route env max_age get_state w).1
  unfolding route
  get_state-SameState max_age w =
      ground (arith, fetch_state-SameState w, fetch_state-SameState (now_ts env w).1)

  ack-SameState :
      (max_age : ℕ) (id : CommandId) (new : CommandStatus) (w : World)
      → SameState w (route env max_age (ack id new) w).1
  unfolding route
  ack-SameState max_age id new w = ground arith

module _ (P : World → Type 0) (u : IsUpheld P) where
  module _ (env : Env) where
    route-upheld : (max_age : ℕ) (req : Request) (w : World) → P w → P (route env max_age req w).1
    unfolding route handle
    route-upheld max_age get_status w h =
        u.same w (route env max_age get_status w).1 (refl, refl, refl, refl, refl) h
    route-upheld max_age (post_event text) w h =
        handle-upheld P u env (event (parse_event text)) w h
    route-upheld max_age (update_state hostname status user_active source) w h =
        let v = record (now_ts env w).1 {
          shared = record w.shared {
            desktop_file = some record {
              hostname = hostname;
              status = status;
              user_active = user_active;
              source = source;
              last_seen = (now_ts env w).0;
            };
          };
        } in
        handle-upheld P u env (desktop_report status) v
          (u.same w v (refl, refl, refl, refl, refl) h)
    route-upheld max_age get_state w h =
        u.same w (route env max_age get_state w).1 (get_state-SameState env max_age w) h
    route-upheld max_age read_command w h = h
    route-upheld max_age (create_command name e expires_at) w h =
        u.same w (route env max_age (create_command name e expires_at) w).1
          (refl, refl, refl, refl, refl) h
    route-upheld max_age create_nameless w h = h
    route-upheld max_age (ack id new) w h =
        u.same w (route env max_age (ack id new) w).1 (ack-SameState env max_age id new w) h
    route-upheld max_age (preflight id name) w h = h

    poll_status-upheld :
        (max_age : ℕ) (status : Option String) (w : World)
        → P w
        → P (poll_status env max_age status w).1
    unfolding poll_status handle
    poll_status-upheld max_age none w h = handle-upheld P u env poll_failed w h
    poll_status-upheld max_age (some status) w h = elim (Bool-cases (str_eq status "")) [
      | inl e ↦ rw e (handle-upheld P u env poll_failed w h)
      | inr e ↦ rw e (handle-upheld P u env (poll status) w h)
    ]

    poll_device-upheld : (max_age : ℕ) (w : World) → P w → P (poll_device env max_age w).1
    unfolding poll_device
    poll_device-upheld max_age w h =
        let v = (fetch_state_from_desktop env w).1 in
        poll_status-upheld max_age (read_ups_status env v).0 (read_ups_status env v).1
          (u.same w (read_ups_status env v).1 (fetch_state-SameState env w) h)

  Turn-upheld : (env : Env) (w w' : World) → Turn env w w' → P w → P w'
  Turn-upheld env w w' (handled i _) h = handle-upheld P u env i w h
  Turn-upheld env w w' (routed max_age req _) h = route-upheld env max_age req w h
  Turn-upheld env w w' (polled max_age _) h = poll_device-upheld env max_age w h
  Turn-upheld env w w' (pushed _) h = u.same w w' (push_shutdown-SameState env w) h
  Turn-upheld env w w' (woken _) h = u.same w w' (send_wol-SameState env w) h

  Step-upheld : (v w : List World) → Step v w → All P v → All P w
  Step-upheld v w (turn env before after x x' t) h =
      All-replace P before after x x' (Turn-upheld (with_peers env v x) x x' t) h

  boot-upheld : (env : Env) (ws : List World) → All P (boot env ws)
  boot-upheld env [] = tt
  boot-upheld env (w ∷ ws) = (u.restarted env w, boot-upheld env ws)

  -- What a restart brings about and every transition keeps, holds of every context that is reached.
  pub Reaches-upheld :
      (env : Env) (files fleet : List World) → Reaches (boot env files) fleet → All P fleet
  Reaches-upheld env files fleet started = boot-upheld env files
  Reaches-upheld env files fleet (next v _ r s) =
      Step-upheld v fleet s (Reaches-upheld env files v r)

-- Whatever the files held when the server started, and in whatever order the contexts' polls,
-- requests, timers, terminal actions, restarts and workers take their turns afterwards: the parts of
-- every context fit. While it rests it has no phase, deadline, outage start or armed timer; while it
-- monitors it has all four, and an observer is then in the offline phase; while it shuts down it has
-- an outage start.
pub Reaches-IsWellFormed :
    (env : Env) (files fleet : List World) → Reaches (boot env files) fleet → All IsWellFormed fleet
Reaches-IsWellFormed env files fleet =
    Reaches-upheld IsWellFormed IsWellFormed-upheld env files fleet

-- In every fleet that the server can reach, as above: a context that monitors or shuts down while its
-- own UPS is on battery has its outage open in the outage log, also when the outage began while only
-- the desktop was being brought down.
pub Reaches-IsRecorded :
    (env : Env) (files fleet : List World) → Reaches (boot env files) fleet → All IsRecorded fleet
Reaches-IsRecorded env files fleet = Reaches-upheld IsRecorded IsRecorded-upheld env files fleet
