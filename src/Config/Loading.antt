-- ===== src/Config/Loading.antt =====
-- `_parse_timing` and `_load_ups_devices` of server/app/config.py, from the parsed file. A required
-- key that is missing, which raises KeyError, is left out.
use ups_orchestrator.Prelude.{
  ℕ, String, Bool, true, false, not, ◌&&◌, Option, none, some, List, [], ◌∷◌, or_else, str_eq,
  select, if◌then◌else◌,
}
use ups_orchestrator.Config.{
  Role, primary, observer, TimingConfig, WolRelayConfig, DesktopConfig, UpsDeviceConfig,
  is_observer,
}

-- The `timing` block: the keys that are there.
pub record RawTiming : Type 0 where
  pub desktop_offline_wait : Option ℕ
  pub desktop_online_prompt_wait : Option ℕ
  pub desktop_suspend_wait : Option ℕ
  pub desktop_shutdown_wait : Option ℕ
  pub wake_online_timeout : Option ℕ
  pub wol_retry_interval : Option ℕ
  pub observer_poweroff_max_wait : Option ℕ

-- An entry of `ups_devices`; `upscmd` is the block's `shutdown`, if there is one.
pub record RawDevice : Type 0 where
  pub id : String
  pub nut_name : String
  pub role : Option String
  pub timing : Option RawTiming
  pub desktop : Option DesktopConfig
  pub wol_relay : Option WolRelayConfig
  pub upscmd : Option String

pub data ConfigError : Type 0 where
  invalid_role : String → String → ConfigError
  ambiguous_desktop : String → ConfigError

pub data Loaded {ℓ} (A : Type ℓ) : Type ℓ where
  loaded : A → Loaded A
  refused : ConfigError → Loaded A

-- `TimingConfig()`
abbrev pub default_timing : TimingConfig
default_timing = record {
  desktop_offline_wait = 300;
  desktop_online_prompt_wait = 180;
  desktop_suspend_wait = 360;
  desktop_shutdown_wait = 60;
  wake_online_timeout = 60;
  wol_retry_interval = 20;
  observer_poweroff_max_wait = 1800;
}

-- `_parse_timing`
unfoldable pub parse_timing : Option RawTiming → TimingConfig
parse_timing none = default_timing
parse_timing (some d) = record {
  desktop_offline_wait = or_else d.desktop_offline_wait 300;
  desktop_online_prompt_wait = or_else d.desktop_online_prompt_wait 180;
  desktop_suspend_wait = or_else d.desktop_suspend_wait 360;
  desktop_shutdown_wait = or_else d.desktop_shutdown_wait 60;
  wake_online_timeout = or_else d.wake_online_timeout 60;
  wol_retry_interval = or_else d.wol_retry_interval 20;
  observer_poweroff_max_wait = or_else d.observer_poweroff_max_wait 1800;
}

unfoldable pub parse_role : String → Option Role
parse_role text =
    if str_eq text "primary"
    then some primary
    else if str_eq text "observer"
    then some observer
    else none

abbrev pub role_text : RawDevice → String
role_text d = or_else d.role "primary"

abbrev device_with : RawDevice → Role → UpsDeviceConfig
device_with d role = record {
  id = d.id;
  nut_name = d.nut_name;
  role = role;
  timing = parse_timing d.timing;
  desktop = d.desktop;
  wol_relay = d.wol_relay;
  upscmd = record { shutdown = or_else d.upscmd "shutdown.return" };
}

abbrev with_role : RawDevice → Option Role → Loaded UpsDeviceConfig
with_role d none = refused (invalid_role (role_text d) d.id)
with_role d (some role) = loaded (device_with d role)

-- One round of the loop over the entries.
unfoldable pub load_device : RawDevice → Loaded UpsDeviceConfig
load_device d = with_role d (parse_role (role_text d))

abbrev pub add :
    Loaded UpsDeviceConfig → Loaded (List UpsDeviceConfig) → Loaded (List UpsDeviceConfig)
add (refused e) ds = refused e
add (loaded d) (refused e) = refused e
add (loaded d) (loaded ds) = loaded (d ∷ ds)

unfoldable pub load_entries : List RawDevice → Loaded (List UpsDeviceConfig)
load_entries [] = loaded []
load_entries (r ∷ rs) = add (load_device r) (load_entries rs)

abbrev is_missing : Option DesktopConfig → Bool
is_missing none = true
is_missing (some d) = false

-- `not dev.is_observer and dev.desktop is None`
abbrev pub needs_desktop : UpsDeviceConfig → Bool
needs_desktop d = not (is_observer d) && is_missing d.desktop

abbrev from_observers : List UpsDeviceConfig → UpsDeviceConfig → Loaded UpsDeviceConfig
from_observers [] d = loaded d
from_observers (o ∷ []) d = loaded (record d { desktop = o.desktop })
from_observers (_ ∷ _ ∷ _) d = refused (ambiguous_desktop d.id)

unfoldable pub inherit_one : List UpsDeviceConfig → UpsDeviceConfig → Loaded UpsDeviceConfig
inherit_one observers d = if needs_desktop d then from_observers observers d else loaded d

-- The second loop: the observers' own desktops do not change in it.
unfoldable pub inherit : List UpsDeviceConfig → List UpsDeviceConfig → Loaded (List UpsDeviceConfig)
inherit observers [] = loaded []
inherit observers (d ∷ ds) = add (inherit_one observers d) (inherit observers ds)

abbrev pub inherit_all : Loaded (List UpsDeviceConfig) → Loaded (List UpsDeviceConfig)
inherit_all (refused e) = refused e
inherit_all (loaded ds) = inherit (select is_observer ds) ds

-- `_load_ups_devices`, for a configuration file that exists.
unfoldable pub load_ups_devices : List RawDevice → Loaded (List UpsDeviceConfig)
load_ups_devices rs = inherit_all (load_entries rs)
