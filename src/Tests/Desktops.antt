-- ===== src/Tests/Desktops.antt =====
-- The theorems about the settings and the reports of the desktop, each at an input.
use ups_orchestrator.Prelude.{◌≡◌, ◌≢◌, ◌↔◌, refl, true, false, none, some, [], ◌∷◌}
use ups_orchestrator.Prelude.Int.{pos}
use ups_orchestrator.Prelude.Options.{map_option, or_first}
use ups_orchestrator.Config.{primary}
use ups_orchestrator.Context.State.{Mode, World}
use ups_orchestrator.Context.Monad.{now_ts}
use ups_orchestrator.Server.Dispatch.{Contexts, get_context}
use ups_orchestrator.Prelude.Environ.{Environ, get, all_numbers}
use ups_orchestrator.Desktop.EnvFile.{
  EnvFiles, env_file, set_default, load_lines, load_env, parse_line,
}
use ups_orchestrator.Desktop.Environment.{assignments, lines_of, get-load_env}
use ups_orchestrator.Desktop.Settings.{Settings, number_names}
use ups_orchestrator.Prelude.Numbers.{parse_int}
use ups_orchestrator.Prelude.Texts.{split_lines}
use ups_orchestrator.Desktop.Reports.{Post, imported, read_status, run_tool}
use ups_orchestrator.Desktop.Delivery.{connected, kept, deliver, run_tool-delivers}
use ups_orchestrator.Samples.{env, world_in}

abbrev files : EnvFiles
files = record {
  local_exists = true;
  local =
      some "UPS_AGENT_PORT=1\n# UPS_X=2\n UPS_AGENT_PORT = '8790' \nUPS_DEVICE_ID=\"desk ups\"\n";
  system = none;
}

abbrev environ : Environ
environ = ("UPS_AGENT_PORT", "8789") ∷ ("UPS_SUSPEND_MAX_RETRIES", "four") ∷ []

get-load_env_example :
    map_option (get "UPS_AGENT_PORT") (load_env files environ)
    ≡ some (
        or_first
          (get "UPS_AGENT_PORT" environ)
          (get "UPS_AGENT_PORT" (assignments (lines_of (env_file files)))))
unfolding assignments parse_line split_lines
get-load_env_example = get-load_env "UPS_AGENT_PORT" files environ (refl, (refl, (refl, tt)))

-- The environment wins, and then the first line.
first_line : map_option (get "UPS_AGENT_PORT") (load_env files []) ≡ some (some "1")
unfolding load_env load_lines parse_line split_lines set_default
first_line = refl

bad_number : all_numbers environ number_names ≡ false
unfolding parse_int
bad_number = refl

abbrev settings : Settings
settings = record {
  server_base = "http://192.168.50.10:8787";
  ups_device_id = "server-ups";
  shared_token = "token";
  agent_port = pos 8788;
  ui_prompt_timeout = pos 5;
  request_timeout_fast = pos 2;
  request_timeout_normal = pos 5;
  network_wait_timeout = pos 5;
  suspend_max_retries = pos 3;
  suspend_retry_delay = pos 5;
  force_suspend = false;
  upsmon_bin = "upsmon";
  shutdown_bin = "/sbin/shutdown";
}

abbrev contexts : Contexts
contexts = ("server-ups", world_in primary Mode.shutting_down true) ∷ []

run_tool-delivers_example :
    let run =
      run_tool (connected env 300 "token" contexts) "desk" (imported settings) ("offline" ∷ []) in
    (p : Post) × (run.posted ≡ some p)
    × ((run.exit_code ≡ 0) ↔ (
        (settings.shared_token ≡ "token")
        × ((w : World) × (get_context settings.ups_device_id contexts ≡ some w))))
    × ((w : World)
        → settings.shared_token ≡ "token"
        → get_context settings.ups_device_id contexts ≡ some w
        → kept env 300 "token" contexts p
          ≡ some (
              some (record {
                hostname = some "desk";
                status = some (read_status "offline");
                user_active = true;
                source = some "desktop-hook";
                last_seen = (now_ts env w).0;
              })))
    × (run.exit_code ≢ 0 → (deliver env 300 "token" contexts p).1 ≡ contexts)
run_tool-delivers_example = run_tool-delivers env 300 "token" contexts settings "desk" "offline" []
