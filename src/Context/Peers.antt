-- ===== src/Context/Peers.antt =====
-- The contexts of the other UPSes: `register_peers`, `_desktop_peers` and the queries that peers
-- make about each other.
use ups_orchestrator.Prelude.{
  String, Bool, true, false, not, ◌&&◌, Option, none, some, List, any, select, str_eq,
}
use ups_orchestrator.Config.{DesktopConfig, UpsDeviceConfig, is_observer}
use ups_orchestrator.Context.State.{is_idle, is_handled, is_down, status_of, Shared, Peer, mode_of}

-- `in_outage`
abbrev pub in_outage : Shared → Bool
in_outage s = not (is_idle (mode_of s))

-- `reports_desktop_down`
abbrev pub reports_desktop_down : Shared → Bool
reports_desktop_down s = is_down (status_of s.desktop_file)

-- `finished_desktop_handling`
abbrev pub finished_desktop_handling : Shared → Bool
finished_desktop_handling s = is_handled (mode_of s)

-- `register_peers`: every context but this one. The contexts are keyed by their ids.
unfoldable pub register_peers : UpsDeviceConfig → List Peer → List Peer
register_peers self contexts = select (λ c. not (str_eq c.device.id self.id)) contexts

abbrev shares_desktop : String → Option DesktopConfig → Bool
shares_desktop my_url none = false
shares_desktop my_url (some d) = str_eq d.agent_url my_url

abbrev same_role : Bool → Bool → Bool
same_role true b = b
same_role false b = not b

unfoldable pub peers_of_desktop : Option DesktopConfig → Bool → List Peer → List Peer
peers_of_desktop none observers peers = List.[]
peers_of_desktop (some d) observers peers =
    select
      (λ c.
        same_role observers (is_observer c.device) && shares_desktop d.agent_url c.device.desktop)
      peers

-- `_desktop_peers(observers)`
unfoldable pub desktop_peers : UpsDeviceConfig → Bool → List Peer → List Peer
unfolding peers_of_desktop
desktop_peers self observers peers = peers_of_desktop self.desktop observers peers

-- `_desktop_ups_on_battery`
unfoldable pub desktop_ups_on_battery : UpsDeviceConfig → List Peer → Bool
unfolding desktop_peers
desktop_ups_on_battery self peers = any (λ o. in_outage o.shared) (desktop_peers self true peers)
