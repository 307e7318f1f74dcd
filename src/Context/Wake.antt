-- ===== src/Context/Wake.antt =====
-- `_send_wol`: one Wake-on-LAN packet to the desktop.
use Prim.Native.Char.{code}
use ups_orchestrator.Prelude.{
  ◌≡◌, refl, String, Bool, true, false, ◌&&◌, Option, none, some, or_else, str_eq, if◌then◌else◌,
  ◌==◌,
}
use ups_orchestrator.Config.{DesktopConfig, UpsDeviceConfig, WolRelayConfig}
use ups_orchestrator.EventLog.{wol_sent, wol_failed}
use ups_orchestrator.Wol.{Net, SendResult, sent, failed, send, iface_for_ip}
use ups_orchestrator.Context.State.{mac, mac_error, wol_frame}
use ups_orchestrator.Context.Monad.{Env, Action, pure, gets, ◌>>=◌, ◌>>◌, do_effect, ask, log_event}

-- What stands behind the last "//", if there is one.
after_slashes : String → Option String
after_slashes String.[] = none
after_slashes (String.◌∷◌ c String.[]) = none
after_slashes (String.◌∷◌ c (String.◌∷◌ d s)) =
    let later = after_slashes s in
    let rest = after_slashes (String.◌∷◌ d s) in
    if code c == b'/' && code d == b'/' then some (or_else later s) else rest

before_colon : String → String
before_colon String.[] = String.[]
before_colon (String.◌∷◌ c s) =
    let rest = before_colon s in if code c == b':' then String.[] else String.◌∷◌ c rest

-- agent_url.split("//")[-1].split(":")[0]
pub desktop_ip : String → String
unfolding after_slashes before_colon
desktop_ip agent_url = before_colon (or_else (after_slashes agent_url) agent_url)

-- The packet for a device: by the relay if there is one, else by the interface to the desktop.
pub send_to : Net → String → String → Option WolRelayConfig → SendResult
unfolding desktop_ip
send_to net address agent_url (some relay) =
    send net address "" relay.host (or_else relay.identity_file "")
send_to net address agent_url none =
    send net address (iface_for_ip net (desktop_ip agent_url)) "" ""

module _ (env : Env) where
  log_wol : String → SendResult → Action Bool
  log_wol address (sent frame) = do
    do_effect (wol_frame frame)
    log_event env wol_sent (some (mac address))
    pure true
  log_wol address (failed e) = do log_event env wol_failed (some (mac_error address e)); pure false

  wake : DesktopConfig → Option WolRelayConfig → Option String → Action Bool
  unfolding send_to log_wol
  wake desktop relay none = pure false
  wake desktop relay (some address) =
      if str_eq address ""
      then pure false
      else ask env (λ k. send_to (env.net k) address desktop.agent_url relay) >>= log_wol address

  wake_desktop : UpsDeviceConfig → Option DesktopConfig → Action Bool
  unfolding wake
  wake_desktop device none = pure false
  wake_desktop device (some desktop) = wake desktop device.wol_relay desktop.mac_address

  -- `_send_wol`
  unfoldable pub send_wol : Action Bool
  unfolding wake_desktop
  send_wol = do device ← gets (λ w. w.device); wake_desktop device device.desktop

ip_of_url : desktop_ip "http://192.168.1.2:8788" ≡ "192.168.1.2"
unfolding desktop_ip
ip_of_url = refl
