-- ===== src/Context/Desktop.antt =====
-- Talking to the desktop: `fetch_state_from_desktop`, `push_command_to_desktop`, and the commands
-- that the server makes.
use ups_orchestrator.Prelude.{String, Bool, false, Option, none, some}
use ups_orchestrator.Config.{DesktopConfig}
use ups_orchestrator.Context.State.{DesktopState, pending, Command, pushed}
use ups_orchestrator.Context.Monad.{
  GetReply, unreachable, broken, reply, Env, Action, pure, gets, ◌>>=◌, ◌>>◌, do_effect,
  save_desktop_state, ask, now_ts,
}

abbrev mac_of : Option DesktopConfig → Option String
mac_of none = none
mac_of (some d) = d.mac_address

module _ (env : Env) where
  use_reply : GetReply → Action (Option DesktopState)
  use_reply unreachable = pure none
  use_reply broken = pure none
  use_reply (reply s) = do
    t ← now_ts env
    let state = record s { last_seen = t }
    save_desktop_state state
    pure (some state)

  fetch_from : Option DesktopConfig → Action (Option DesktopState)
  unfolding use_reply
  fetch_from none = pure none
  fetch_from (some d) = do r ← ask env env.get_reply; use_reply r

  -- `fetch_state_from_desktop`; the empty dictionary is `none`.
  unfoldable pub fetch_state_from_desktop : Action (Option DesktopState)
  unfolding fetch_from
  fetch_state_from_desktop = do device ← gets (λ w. w.device); fetch_from device.desktop

  push_to : Option DesktopConfig → Command → Action Bool
  push_to none command = pure false
  push_to (some d) command = do do_effect (pushed command); ask env (λ k. env.post_ok k command)

  -- `push_command_to_desktop`
  unfoldable pub push_command_to_desktop : Command → Action Bool
  unfolding push_to
  push_command_to_desktop command = do device ← gets (λ w. w.device); push_to device.desktop command

  -- `_make_critical_shutdown_command`
  unfoldable pub make_critical_shutdown_command : Action Command
  make_critical_shutdown_command = do
    stamp ← now_ts env
    issued_at ← now_ts env
    pure (record {
      id = record { prefix = "shutdown"; stamp = stamp };
      command = "critical_shutdown";
      event = none;
      status = pending;
      issued_at = issued_at;
      result = none;
      ack_at = none;
      expires_at = none;
    })

  -- `_make_ups_state_command`
  unfoldable pub make_ups_state_command : Action Command
  make_ups_state_command = do
    stamp ← now_ts env
    issued_at ← now_ts env
    pure (record {
      id = record { prefix = "state"; stamp = stamp };
      command = "ups_state";
      event = some "ONBATT";
      status = pending;
      issued_at = issued_at;
      result = none;
      ack_at = none;
      expires_at = none;
    })
