-- ===== src/Samples.antt =====
-- Concrete devices, systems and worlds, in which the tests and examples are run.
use ups_orchestrator.Prelude.{ℕ, Bool, true, none, some, List, [], ◌∷◌}
use ups_orchestrator.Config.{Role, DesktopConfig, UpsDeviceConfig}
use ups_orchestrator.Config.Loading.{default_timing}
use ups_orchestrator.Wol.{Net}
use ups_orchestrator.Wol.Send.{SshResult}
use ups_orchestrator.Context.State.{Mode, Phase, Command, pending, Shared, World, Peer}
use ups_orchestrator.Context.Monad.{Env, unreachable, completed}

abbrev pub desktop : DesktopConfig
desktop = record { agent_url = "http://192.168.1.2:8788"; mac_address = some "AA:BB:CC:00:01:02" }

abbrev pub device_of : Role → UpsDeviceConfig
device_of role = record {
  id = "server-ups";
  nut_name = "server-ups@localhost";
  role = role;
  timing = default_timing;
  desktop = some desktop;
  wol_relay = none;
  upscmd = record { shutdown = "shutdown.return" };
}

abbrev pub net : Net
net = record {
  address_text = λ _. none;
  addr_words = λ _. none;
  route_words = λ _. none;
  raw_error = λ _ _. some "no permission";
  udp_error = λ _ _. none;
  ssh = λ _. SshResult.raised "no ssh";
}

abbrev pub env_with : List Peer → (ℕ → Shared → Shared) → Env
env_with peers meanwhile = record {
  delay = λ _. 1;
  to_iso = λ _. "2026-01-01T00:00:00+03:00";
  max_entries = 200;
  get_reply = λ _. unreachable;
  post_ok = λ _ _. true;
  run = λ _ _. completed 0 "";
  upsc = λ _ _. completed 0 "OB\n";
  net = λ _. net;
  peers = λ _. peers;
  meanwhile = meanwhile;
  is_root = true;
  upsmon_bin = "upsmon";
  upscmd_bin = "upscmd";
  upscmd_user = "admin";
  upscmd_pass = "secret";
  fallback_cmd = "/sbin/shutdown" ∷ "-h" ∷ "now" ∷ [];
}

-- No peers, and no other thread that changes anything.
abbrev pub env : Env
env = env_with [] (λ _ s. s)

abbrev pub command : Command
command = record {
  id = record { prefix = "shutdown"; stamp = 1000 };
  command = "critical_shutdown";
  event = none;
  status = pending;
  issued_at = 1000;
  result = none;
  ack_at = none;
  expires_at = none;
}

abbrev pub shared_in : Mode → Bool → Shared
shared_in mode on_battery = record {
  orch_file = some (record {
    mode = mode;
    phase = some Phase.user_prompt;
    phase_deadline = some 1100;
    onbatt_since = some 1000;
    last_event = some "ONBATT";
    updated_at = 1000;
  });
  desktop_file = none;
  command_file = some command;
  ups_on_battery = on_battery;
  deadline_timer = some 100;
  outage_log = record { state = none; history = [] };
  event_log = [];
}

abbrev pub world_in : Role → Mode → Bool → World
world_in role mode on_battery = record {
  device = device_of role;
  shared = shared_in mode on_battery;
  effects = [];
  threads = [];
  clock = 1000;
  ticks = 0;
}
