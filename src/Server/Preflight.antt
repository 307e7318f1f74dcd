-- ===== src/Server/Preflight.antt =====
-- The commands of the desktop: which of them pass the preflight.
use ups_orchestrator.Prelude.{
  ℕ, suc, or_else, ◌+◌, ◌≡◌, ◌≢◌, ◌⊎◌, ◌↔◌, refl, String, true, false, Option, none, some, arith,
  eq_iff, inl, inr,
}
use text.Mathlib.TextPositions.{eq_refl}
use ups_orchestrator.Config.{is_observer}
use ups_orchestrator.Context.State.{
  shutting_down, is_idle, CommandId, id_eq, CommandStatus, pending, is_pending, Command, World,
  mode_of,
}
use ups_orchestrator.Context.Monad.{Env}
use ups_orchestrator.Context.Handlers.{lowbatt, online, handle_event}
use ups_orchestrator.Context.LowBattery.{lowbatt-shuts_down}
use ups_orchestrator.Context.Recovery.{DesktopOnMains, has_pending, online-IsStoodDown}
use ups_orchestrator.Server.Routes.{
  Response, refused, no_command, command_not_pending, id_mismatch, command_mismatch, allowed, acked,
  created, command_body, event_body, ok, preflight, ack, create_command, read_command, post_event,
  parse_event, is_lowbatt, check_command, route,
}

-- What the preflight is to allow: the command that is stored, still pending, under its own id and
-- name.
pub record IsCurrent (id : CommandId) (name : String) (c : Command) : Type 0 where
  pub still_pending : c.status ≡ pending
  pub same_id : c.id ≡ id
  pub same_name : c.command ≡ name

id_eq_iff : (a b : CommandId) → (id_eq a b ≡ true) ↔ (a ≡ b)
id_eq_iff a b = ground (arith, eq_iff a.prefix b.prefix)

check_command-IsCurrent :
    (id : CommandId) (name : String) (c : Command)
    → (check_command id name (some c)).body ≡ allowed
    → IsCurrent id name c
unfolding check_command
check_command-IsCurrent id name c h =
    ground (arith, eq_iff c.id.prefix id.prefix, eq_iff c.command name)

IsCurrent-check_command :
    (id : CommandId) (name : String) (c : Command)
    → IsCurrent id name c
    → (check_command id name (some c)).body ≡ allowed
unfolding check_command
IsCurrent-check_command id name c h =
    ground (arith, eq_iff c.id.prefix id.prefix, eq_iff c.command name)

check_command-cases :
    (id : CommandId) (name : String) (o : Option Command)
    → ((check_command id name o).body ≡ allowed)
      ↔ ((c : Command) × (o ≡ some c) × IsCurrent id name c)
check_command-cases id name none = (λ h. absurd (not_none h), λ h. cc h.1)
  where
    not_none : (check_command id name none).body ≡ allowed → ⊥
    not_none h = unfold check_command in cc h
check_command-cases id name (some c) = (
  λ h. (c, refl, check_command-IsCurrent id name c h),
  λ h. IsCurrent-check_command id name c (current h),
)
  where
    current : ((d : Command) × (some c ≡ some d) × IsCurrent id name d) → IsCurrent id name c
    current h = ground arith

-- The answer of a preflight to each case: the code and the reason.
abbrev pub Answer : CommandId → String → Option Command → Response → Type 0
Answer id name o r =
    ((c : Command) × (o ≡ some c) × IsCurrent id name c × (r.code ≡ 200) × (r.body ≡ allowed))
    ⊎ (((o ≡ none) × (r.code ≡ 404) × (r.body ≡ refused no_command))
        ⊎ ((c : Command) × (o ≡ some c)
            × (r.code ≡ 409)
            × (((c.status ≢ pending) × (r.body ≡ refused command_not_pending))
                ⊎ (((c.status ≡ pending) × (c.id ≢ id) × (r.body ≡ refused id_mismatch))
                    ⊎ ((c.status ≡ pending)
                        × (c.id ≡ id)
                        × (c.command ≢ name)
                        × (r.body ≡ refused command_mismatch))))))

is_pending_iff : (s : CommandStatus) → (is_pending s ≡ true) ↔ (s ≡ pending)
is_pending_iff s = ground arith

check_command-Answer :
    (id : CommandId) (name : String) (o : Option Command)
    → Answer id name o (check_command id name o)
unfolding check_command
check_command-Answer id name none = inr (inl (refl, refl, refl))
check_command-Answer id name (some c) =
    ground (arith, is_pending_iff c.status, id_eq_iff c.id id, eq_iff c.command name)

parse_event-lowbatt :
    (text : Option String) → (is_lowbatt (parse_event text) ≡ true) ↔ (text ≡ some "LOWBATT")
unfolding parse_event
parse_event-lowbatt none = ground arith
parse_event-lowbatt (some e) = ground (arith, eq_iff e "LOWBATT")

module _ (env : Env) (max_age : ℕ) where
  -- The preflight allows a command exactly when a command is stored that is pending and has the id and
  -- the name asked for. It answers 200 then, 404 when none is stored, and 409 with the first reason
  -- that applies when the stored one is not pending, has another id or has another name; and it changes
  -- nothing.
  pub preflight-allowed :
      (id : CommandId) (name : String) (w : World)
      → let r = (route env max_age (preflight id name) w).0 in
        ((r.body ≡ allowed) ↔ ((c : Command) × (w.command_file ≡ some c) × IsCurrent id name c))
        × Answer id name w.command_file r
        × ((route env max_age (preflight id name) w).1 ≡ w)
  unfolding route
  preflight-allowed id name w = (
    check_command-cases id name w.command_file,
    check_command-Answer id name w.command_file,
    refl,
  )

  pub not_allowed :
      (id : CommandId) (name : String) (o : Option Command)
      → has_pending o ≡ false
      → (check_command id name o).body ≢ allowed
  unfolding check_command
  not_allowed id name o h = ground arith

  -- After mains power has come back at a context in an outage, with no UPS of its desktop on battery,
  -- no command passes the preflight: a desktop that still shows its prompt, or was about to shut down,
  -- is told not to.
  pub online-preflight :
      (id : CommandId) (name : String) (w : World)
      → DesktopOnMains env w
      → is_idle (mode_of w.shared) ≡ false
      → (route env max_age (preflight id name) (handle_event env online w).1).0.body ≢ allowed
  unfolding route
  online-preflight id name w h m = not_allowed id name _ (online-IsStoodDown env w h m).0.no_pending

  -- A command that is created passes the preflight under the id and name that the answer gives, and is
  -- the one that the desktop is given; once it is acknowledged with any status but pending it passes no
  -- more.
  pub create_command-preflight :
      (name : String) (event : Option String) (expires_at : Option ℕ) (new : CommandStatus)
      (w : World)
      → is_pending new ≡ false
      → let w' = (route env max_age (create_command name event expires_at) w).1 in
        (c : Command) × ((route env max_age (create_command name event expires_at) w).0
          ≡ ok (created c))
        × ((route env max_age read_command w').0 ≡ ok (command_body (some c)))
        × ((route env max_age (preflight c.id name) w').0 ≡ ok allowed)
        × ((route env max_age (ack c.id new) w').0 ≡ ok (acked true))
        × ((route env max_age (preflight c.id name) (route env max_age (ack c.id new) w').1).0.body
            ≢ allowed)
  unfolding route
  create_command-preflight name event expires_at new w h =
      let stamp = w.clock + env.delay w.ticks in
      let issued_at = stamp + env.delay (suc w.ticks) in
      let t = issued_at + env.delay (suc (suc w.ticks)) in
      let c : Command = record {
        id = record { prefix = name; stamp = stamp };
        command = name;
        event = event;
        status = pending;
        issued_at = issued_at;
        result = none;
        ack_at = none;
        expires_at = some (or_else expires_at (t + 900));
      } in
      let same = eq_refl name in
      (
        c,
        refl,
        refl,
        ground (arith, eq_refl name),
        ground (arith, eq_refl name),
        ground (arith, eq_refl name),
      )

  -- The answer to an event asks the NUT hook to shut the server down exactly for a LOWBATT of a
  -- primary, and the context is then in the mode `shutting_down`.
  pub post_event-shutdown :
      (text : Option String) (w : World)
      → let r = route env max_age (post_event text) w in
        ((r.0 ≡ ok (event_body true)) ↔ ((text ≡ some "LOWBATT") × (is_observer w.device ≡ false)))
        × (r.0 ≡ ok (event_body true) → mode_of r.1.shared ≡ shutting_down)
  unfolding route
  post_event-shutdown text w = (
    (
      (λ h. ground (arith, parse_event-lowbatt text)),
      (λ h. ground (arith, parse_event-lowbatt text)),
    ),
    λ h. let e : parse_event text ≡ lowbatt = ground arith in rw e (lowbatt-shuts_down env w).0,
  )
