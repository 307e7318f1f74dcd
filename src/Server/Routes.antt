-- ===== src/Server/Routes.antt =====
-- The routes of one context, behind the token and the lookup of the context. A request that the code
-- would answer with an exception is left out, such as one with no JSON body, but for a command with no
-- name; and so is an acknowledgement or a preflight without an id.
use ups_orchestrator.Prelude.{
  ℕ, ◌+◌, String, Bool, true, false, not, ◌&&◌, Option, none, some, List, map, str_eq, or_else,
  contains, if◌then◌else◌,
}
use ups_orchestrator.Prelude.Int.{ℤ}
use ups_orchestrator.Config.{UpsDeviceConfig, is_observer}
use ups_orchestrator.StateStore.{state_is_fresh}
use ups_orchestrator.Context.State.{
  Status, DesktopState, CommandId, id_eq, CommandStatus, pending, is_pending, Command,
}
use ups_orchestrator.Context.Monad.{
  Env, Action, Done, pure, gets, ◌>>=◌, ◌>>◌, get_desktop_state, save_desktop_state, get_command,
  save_command, now_ts, read_ups_status, read_ups_battery_charge,
}
use ups_orchestrator.Context.Desktop.{fetch_state_from_desktop}
use ups_orchestrator.Context.Handlers.{
  NutEvent, lowbatt, onbatt, online, desktop_suspend_due, other, handle_event,
  handle_ups_status_transition, handle_ups_status_unavailable, notify_desktop_state_change,
}

pub data Refusal : Type 0 where
  no_command command_not_pending id_mismatch command_mismatch : Refusal

pub data Body : Type 0 where
  ok_body : Body
  empty : Body
  event_body : Bool → Body
  status_body : String → String → Option ℤ → Bool → Bool → Body
  upsc_unavailable : Body
  state_body : DesktopState → String → Body
  unknown_state : Body
  command_body : Option Command → Body
  created : Command → Body
  acked : Bool → Body
  allowed : Body
  refused : Refusal → Body
  devices_body : List (String × String) → Body

pub record Response : Type 0 where
  pub code : ℕ
  pub body : Body

pub data Request : Type 0 where
  get_status : Request
  post_event : Option String → Request
  update_state : Option String → Option Status → Bool → Option String → Request
  get_state : Request
  read_command : Request
  create_command : String → Option String → Option ℕ → Request
  create_nameless : Request  -- no key "command"
  ack : CommandId → CommandStatus → Request
  preflight : CommandId → String → Request

-- The event that a text stands for.
unfoldable pub parse_event : Option String → NutEvent
parse_event none = other
parse_event (some e) =
    if str_eq e "LOWBATT"
    then lowbatt
    else if str_eq e "ONBATT"
    then onbatt
    else if str_eq e "ONLINE"
    then online
    else if str_eq e "desktop_suspend_due"
    then desktop_suspend_due
    else other

abbrev pub is_lowbatt : NutEvent → Bool
is_lowbatt lowbatt = true
is_lowbatt _ = false

abbrev pub ok : Body → Response
ok body = record { code = 200; body = body }

-- `health`
abbrev pub health : Response
health = ok ok_body

-- `list_ups`, with the token of the request.
unfoldable pub list_ups : String → List UpsDeviceConfig → String → Response
list_ups shared_token devices token =
    if str_eq token shared_token
    then ok (devices_body (map (λ d. (d.id, d.nut_name)) devices))
    else record { code = 403; body = empty }

-- `preflight` of the stored command against the id and the name that the desktop gives.
unfoldable pub check_command : CommandId → String → Option Command → Response
check_command id name none = record { code = 404; body = refused no_command }
check_command id name (some c) =
    if not (is_pending c.status)
    then record { code = 409; body = refused command_not_pending }
    else if not (id_eq c.id id)
    then record { code = 409; body = refused id_mismatch }
    else if not (str_eq c.command name)
    then record { code = 409; body = refused command_mismatch }
    else ok allowed

pending_only : Option Command → Option Command
pending_only none = none
pending_only (some c) = if is_pending c.status then some c else none

module _ (env : Env) (max_age : ℕ) where
  -- `ups_status`
  status_reply : UpsDeviceConfig → Option String → Option ℤ → Response
  status_reply device none charge = record { code = 503; body = upsc_unavailable }
  status_reply device (some status) charge =
      ok (status_body device.nut_name status charge (contains "OB" status) (contains "LB" status))

  -- `desktop_state`, once the stored state is not fresh.
  query_state : Option DesktopState → Option DesktopState → Response
  query_state state (some fresh) = ok (state_body fresh "desktop-query")
  query_state (some state) none = ok (state_body state "unknown")
  query_state none none = ok unknown_state

  stored_state : Option DesktopState → Action Response
  unfolding query_state
  stored_state none = do fresh ← fetch_state_from_desktop env; pure (query_state none fresh)
  stored_state (some state) = do
    t ← now_ts env
    let query = do fresh ← fetch_state_from_desktop env; pure (query_state (some state) fresh)
    if state_is_fresh t max_age state.last_seen then pure (ok (state_body state "cache")) else query

  ack_command : CommandId → CommandStatus → Option Command → Action Response
  ack_command id new none = pure (ok (acked false))
  ack_command id new (some c) =
      if id_eq c.id id
      then save_command (record c { status = new }) >> pure (ok (acked true))
      else pure (ok (acked false))

  unfoldable pub route : Request → Action Response
  unfolding status_reply stored_state ack_command parse_event check_command pending_only
  route get_status = do
    device ← gets (λ w. w.device)
    status ← read_ups_status env
    charge ← read_ups_battery_charge env
    pure (status_reply device status charge)
  route (post_event text) = do
    device ← gets (λ w. w.device)
    let event = parse_event text
    handle_event env event
    pure (ok (event_body (is_lowbatt event && not (is_observer device))))
  route (update_state hostname status user_active source) = do
    t ← now_ts env
    save_desktop_state (record {
      hostname = hostname;
      status = status;
      user_active = user_active;
      source = source;
      last_seen = t;
    })
    notify_desktop_state_change env status
    pure (ok ok_body)
  route get_state = do state ← get_desktop_state; stored_state state
  route read_command = do c ← get_command; pure (ok (command_body (pending_only c)))
  route (create_command name event expires_at) = do
    stamp ← now_ts env
    issued_at ← now_ts env
    t ← now_ts env
    let command : Command = record {
      id = record { prefix = name; stamp = stamp };
      command = name;
      event = event;
      status = pending;
      issued_at = issued_at;
      result = none;
      ack_at = none;
      expires_at = some (or_else expires_at (t + 900));
    }
    save_command command
    pure (ok (created command))
  -- KeyError, which the server answers with 500.
  route create_nameless = pure (record { code = 500; body = empty })
  route (ack id new) = do c ← get_command; ack_command id new c
  route (preflight id name) = do c ← get_command; pure (check_command id name c)

  unfoldable pub poll_status : Option String → Action Done
  poll_status none = handle_ups_status_unavailable env
  poll_status (some status) =
      if str_eq status ""
      then handle_ups_status_unavailable env
      else handle_ups_status_transition env status

  -- `_poll_device`
  unfoldable pub poll_device : Action Done
  unfolding poll_status
  poll_device = do fetch_state_from_desktop env; status ← read_ups_status env; poll_status status
