-- ===== src/Desktop/Reports.antt =====
-- The reports of the desktop's state: the tool desktop/app/send_state.py, and `current_state` and
-- `push_state` of desktop/app/agent.py.
use ups_orchestrator.Prelude.{
  ℕ, String, Bool, true, false, not, ◌&&◌, Option, none, some, List, [], ◌∷◌, leb, ltb, str_eq,
  if◌then◌else◌,
}
use ups_orchestrator.Context.State.{Status, online, suspended, offline, shutting_down, other}
use ups_orchestrator.Server.Routes.{Request, update_state}
use ups_orchestrator.Desktop.Settings.{Settings}

-- The body of a report.
pub record Report : Type 0 where
  pub hostname : String
  pub status : String
  pub user_active : Bool
  pub source : String

-- A report that is posted to `{base}/api/ups/{device_id}/desktop/update-state`.
pub record Post : Type 0 where
  pub base : String
  pub device_id : String
  pub token : String
  pub report : Report

-- The code of the answer to a post, `none` where the request raises.
abbrev pub Poster : Type 0
Poster = Post → Option ℕ

-- `raise_for_status` lets the answer pass.
abbrev pub is_success : Option ℕ → Bool
is_success none = false
is_success (some code) = not (leb 400 code && ltb code 600)

-- How the import of the settings ends.
pub data Import : Type 0 where
  imported : Settings → Import
  import_error raised : Import

-- What a run of the tool does: the post that it makes, if any, and its exit code.
pub record Run : Type 0 where
  pub posted : Option Post
  pub exit_code : ℕ

abbrev pub tool_post : String → String → String → String → String → Post
tool_post base device_id token hostname status = record {
  base = base;
  device_id = device_id;
  token = token;
  report = record {
    hostname = hostname;
    status = status;
    user_active = true;
    source = "desktop-hook";
  };
}

module _ (post : Poster) (hostname : String) where
  abbrev tool_run : String → String → String → List String → Run
  tool_run base device_id token [] = record { posted = none; exit_code = 1 }
  tool_run base device_id token (status ∷ _) =
      let p = tool_post base device_id token hostname status in
      record { posted = some p; exit_code = if is_success (post p) then 0 else 1 }

  -- A run of desktop/app/send_state.py with the arguments behind its name; an import that raises
  -- anything but ImportError ends it.
  unfoldable pub run_tool : Import → List String → Run
  run_tool raised args = record { posted = none; exit_code = 1 }
  run_tool import_error args = tool_run "http://192.168.50.10:8787" "server-ups" "change-me" args
  run_tool (imported s) args = tool_run s.server_base s.ups_device_id s.shared_token args

-- `current_state`
unfoldable pub current_state : String → Report
current_state hostname = record {
  hostname = hostname;
  status = "online";
  user_active = true;
  source = "desktop-ui-agent";
}

-- `push_state`: the post that it makes; what comes of it is only logged.
unfoldable pub push_state : Settings → String → Post
unfolding current_state
push_state s hostname = record {
  base = s.server_base;
  device_id = s.ups_device_id;
  token = s.shared_token;
  report = current_state hostname;
}

-- A status as the server reads it.
unfoldable pub read_status : String → Status
read_status text =
    if str_eq text "online"
    then online
    else if str_eq text "suspended"
    then suspended
    else if str_eq text "offline"
    then offline
    else if str_eq text "shutting_down"
    then shutting_down
    else other text

-- The request that the server gets.
abbrev pub request_of : Report → Request
request_of r =
    update_state (some r.hostname) (some (read_status r.status)) r.user_active (some r.source)
