-- ===== src/Config/Settings.antt =====
-- The settings of server/app/config.py, taken from the environment, and the choice of the file of
-- devices. That the two directories are made is left out.
use ups_orchestrator.Prelude.{
  ◌≡◌, refl, String, Bool, Option, none, some, List, [], ◌∷◌, is_some, if◌then◌else◌,
}
use ups_orchestrator.Prelude.Int.{ℤ}
use ups_orchestrator.Prelude.Options.{◌>>=◌, or_first}
use ups_orchestrator.Prelude.Environ.{Environ, get, text_of, int_of, all_numbers, is_some-bind}
use ups_orchestrator.Config.{primary, UpsDeviceConfig}
use ups_orchestrator.Config.Loading.{RawDevice, Loaded, loaded, default_timing, load_ups_devices}

pub record ServerSettings : Type 0 where
  pub state_dir : String
  pub logs_dir : String
  pub timezone : String
  pub shared_token : String
  pub server_port : ℤ
  pub state_max_age : ℤ
  pub upsmon_bin : String
  pub outage_log_max_entries : ℤ
  pub shutdown_fallback_cmd : String
  pub unknown_poll_interval : ℤ
  pub request_timeout_short : ℤ
  pub request_timeout_long : ℤ
  pub upscmd_bin : String
  pub upscmd_user : String
  pub upscmd_pass : String

-- The module's constants, `none` where reading them raises ValueError.
unfoldable pub load_server_settings : Environ → Option ServerSettings
load_server_settings e = do
  server_port ← int_of (get "UPS_SERVER_PORT" e) 8787
  state_max_age ← int_of (get "UPS_STATE_MAX_AGE" e) 300
  outage_log_max_entries ← int_of (get "UPS_OUTAGE_LOG_MAX_ENTRIES" e) 200
  unknown_poll_interval ← int_of (get "UPS_POLL_INTERVAL" e) 30
  request_timeout_short ← int_of (get "UPS_REQUEST_TIMEOUT_SHORT" e) 5
  request_timeout_long ← int_of (get "UPS_REQUEST_TIMEOUT_LONG" e) 30
  some (record {
    state_dir = text_of (get "UPS_STATE_DIR" e) "./.runtime-state";
    logs_dir = text_of (get "UPS_LOGS_DIR" e) "./logs";
    timezone = text_of (get "UPS_TIMEZONE" e) "Europe/Istanbul";
    shared_token = text_of (get "UPS_SHARED_TOKEN" e) "change-me";
    server_port = server_port;
    state_max_age = state_max_age;
    upsmon_bin = text_of (get "UPS_UPSMON_BIN" e) "upsmon";
    outage_log_max_entries = outage_log_max_entries;
    shutdown_fallback_cmd = text_of (get "UPS_SHUTDOWN_FALLBACK_CMD" e) "";
    unknown_poll_interval = unknown_poll_interval;
    request_timeout_short = request_timeout_short;
    request_timeout_long = request_timeout_long;
    upscmd_bin = text_of (get "UPS_UPSCMD_BIN" e) "upscmd";
    upscmd_user = text_of (get "UPS_UPSCMD_USER" e) "";
    upscmd_pass = text_of (get "UPS_UPSCMD_PASS" e) "";
  })

-- The variables that are read as numbers.
abbrev pub server_number_names : List String
server_number_names =
    "UPS_SERVER_PORT" ∷ "UPS_STATE_MAX_AGE" ∷ "UPS_OUTAGE_LOG_MAX_ENTRIES" ∷ "UPS_POLL_INTERVAL"
    ∷ "UPS_REQUEST_TIMEOUT_SHORT" ∷ "UPS_REQUEST_TIMEOUT_LONG" ∷ []

-- The server's settings can be read exactly when each of its number variables that is set is set to
-- the text of an integer.
load_server_settings-is_some :
    (e : Environ) → is_some (load_server_settings e) ≡ all_numbers e server_number_names
unfolding load_server_settings
load_server_settings-is_some e = is_some-bind (get "UPS_SERVER_PORT" e) 8787 _ _ λ port.
    is_some-bind (get "UPS_STATE_MAX_AGE" e) 300 _ _ λ age.
      is_some-bind (get "UPS_OUTAGE_LOG_MAX_ENTRIES" e) 200 _ _ λ entries.
        is_some-bind (get "UPS_POLL_INTERVAL" e) 30 _ _ λ interval.
          is_some-bind (get "UPS_REQUEST_TIMEOUT_SHORT" e) 5 _ _
            λ short. is_some-bind (get "UPS_REQUEST_TIMEOUT_LONG" e) 30 _ _ λ long. refl

-- The files that UPS_CONFIG_FILE may stand for: the entries, `none` for one that does not exist.
pub record ConfigFiles : Type 0 where
  pub is_absolute : Bool
  -- the path in the directory of the server
  pub alternative : Option (List RawDevice)
  pub given : Option (List RawDevice)

abbrev pub config_file : ConfigFiles → Option (List RawDevice)
config_file files =
    if files.is_absolute then files.given else or_first files.alternative files.given

-- The one device without a file.
abbrev pub fallback_device : Environ → UpsDeviceConfig
fallback_device e = record {
  id = "main-ups";
  nut_name = text_of (get "UPS_NUT_NAME" e) "ups@localhost";
  role = primary;
  timing = default_timing;
  desktop = some (record {
    agent_url = text_of (get "DESKTOP_AGENT_URL" e) "http://192.168.1.2:8788";
    mac_address = none;
  });
  wol_relay = none;
  upscmd = record { shutdown = "shutdown.return" };
}

abbrev load_devices : Environ → Option (List RawDevice) → Loaded (List UpsDeviceConfig)
load_devices e none = loaded (fallback_device e ∷ [])
load_devices e (some entries) = load_ups_devices entries

-- `_load_ups_devices`, with the choice of the file.
unfoldable pub load_config : ConfigFiles → Environ → Loaded (List UpsDeviceConfig)
load_config files e = load_devices e (config_file files)
