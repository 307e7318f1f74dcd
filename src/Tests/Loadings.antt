-- ===== src/Tests/Loadings.antt =====
-- The theorems about the loading of the configuration, each at an input.
use ups_orchestrator.Prelude.{
  ◌≡◌, String, not, ◌&&◌, ◌||◌, Option, none, some, List, [], ◌∷◌, any, select, length, leb,
}
use ups_orchestrator.Config.{primary, observer, UpsDeviceConfig, DesktopConfig}
use ups_orchestrator.Config.Loading.{RawDevice, load_ups_devices}
use ups_orchestrator.Config.Desktops.{
  is_loaded, has_role, observes, lacks_desktop, load_ups_devices-is_loaded,
}
use ups_orchestrator.Samples.{desktop, device_of}

abbrev entry : String → Option String → Option DesktopConfig → RawDevice
entry id role desktop = record {
  id = id;
  nut_name = "server-ups@localhost";
  role = role;
  timing = none;
  desktop = desktop;
  wol_relay = none;
  upscmd = none;
}

abbrev entries : List RawDevice
entries = entry "server-ups" none none ∷ entry "desktop-ups" (some "observer") (some desktop) ∷ []

load_ups_devices-is_loaded_example :
    is_loaded (load_ups_devices entries)
    ≡ not (any (λ r. not (has_role r)) entries)
      && (not (any lacks_desktop entries) || leb (length (select observes entries)) 1)
load_ups_devices-is_loaded_example = load_ups_devices-is_loaded entries

abbrev server_ups : Option DesktopConfig → UpsDeviceConfig
server_ups desktop = record (device_of primary) { id = "server-ups"; desktop = desktop }

abbrev desktop_ups : UpsDeviceConfig
desktop_ups = record (device_of observer) { id = "desktop-ups"; desktop = some desktop }
