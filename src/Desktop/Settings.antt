-- ===== src/Desktop/Settings.antt =====
-- The settings of desktop/app/config.py, taken from the environment.
use Prim.Native.Char.{code}
use ups_orchestrator.Prelude.{
  ℕ, ◌+◌, ◌≡◌, refl, String, Bool, true, false, ◌&&◌, Option, some, List, [], ◌∷◌, leb, ◌==◌,
  is_some, if◌then◌else◌,
}
use ups_orchestrator.Prelude.Int.{ℤ}
use ups_orchestrator.Prelude.Options.{◌>>=◌}
use ups_orchestrator.Prelude.Environ.{Environ, get, text_of, int_of, all_numbers, is_some-bind}

pub record Settings : Type 0 where
  pub server_base : String
  pub ups_device_id : String
  pub shared_token : String
  pub agent_port : ℤ
  pub ui_prompt_timeout : ℤ
  pub request_timeout_fast : ℤ
  pub request_timeout_normal : ℤ
  pub network_wait_timeout : ℤ
  pub suspend_max_retries : ℤ
  pub suspend_retry_delay : ℤ
  pub force_suspend : Bool
  pub upsmon_bin : String
  pub shutdown_bin : String

-- The lower-case letter of an ASCII character.
abbrev lower : ℕ → ℕ
lower c = if leb b'A' c && leb c b'Z' then c + 32 else c

-- `text.lower() == word` for a word of lower-case letters.
is_lower : String → String → Bool
is_lower String.[] String.[] = true
is_lower String.[] (String.◌∷◌ _ _) = false
is_lower (String.◌∷◌ _ _) String.[] = false
is_lower (String.◌∷◌ c s) (String.◌∷◌ d t) = lower (code c) == code d && is_lower s t

-- The module's constants, `none` where reading them raises ValueError.
unfoldable pub load_settings : Environ → Option Settings
unfolding is_lower
load_settings e = do
  agent_port ← int_of (get "UPS_AGENT_PORT" e) 8788
  ui_prompt_timeout ← int_of (get "UPS_UI_PROMPT_TIMEOUT" e) 5
  request_timeout_fast ← int_of (get "UPS_REQUEST_TIMEOUT_FAST" e) 2
  request_timeout_normal ← int_of (get "UPS_REQUEST_TIMEOUT_NORMAL" e) 5
  network_wait_timeout ← int_of (get "UPS_NETWORK_WAIT_TIMEOUT" e) 5
  suspend_max_retries ← int_of (get "UPS_SUSPEND_MAX_RETRIES" e) 3
  suspend_retry_delay ← int_of (get "UPS_SUSPEND_RETRY_DELAY" e) 5
  some (record {
    server_base = text_of (get "UPS_SERVER_BASE" e) "http://192.168.50.10:8787";
    ups_device_id = text_of (get "UPS_DEVICE_ID" e) "server-ups";
    shared_token = text_of (get "UPS_SHARED_TOKEN" e) "change-me";
    agent_port = agent_port;
    ui_prompt_timeout = ui_prompt_timeout;
    request_timeout_fast = request_timeout_fast;
    request_timeout_normal = request_timeout_normal;
    network_wait_timeout = network_wait_timeout;
    suspend_max_retries = suspend_max_retries;
    suspend_retry_delay = suspend_retry_delay;
    force_suspend = is_lower (text_of (get "UPS_FORCE_SUSPEND" e) "false") "true";
    upsmon_bin = text_of (get "UPS_UPSMON_BIN" e) "upsmon";
    shutdown_bin = text_of (get "UPS_SHUTDOWN_BIN" e) "/sbin/shutdown";
  })

-- The variables that are read as numbers.
abbrev pub number_names : List String
number_names =
    "UPS_AGENT_PORT" ∷ "UPS_UI_PROMPT_TIMEOUT" ∷ "UPS_REQUEST_TIMEOUT_FAST"
    ∷ "UPS_REQUEST_TIMEOUT_NORMAL" ∷ "UPS_NETWORK_WAIT_TIMEOUT" ∷ "UPS_SUSPEND_MAX_RETRIES"
    ∷ "UPS_SUSPEND_RETRY_DELAY" ∷ []

-- The settings can be read exactly when every variable that stands for a number and is set is set to
-- the text of an integer; a single one that is not ends the program that imports them.
load_settings-is_some : (e : Environ) → is_some (load_settings e) ≡ all_numbers e number_names
unfolding load_settings
load_settings-is_some e = is_some-bind (get "UPS_AGENT_PORT" e) 8788 _ _ λ port.
    is_some-bind (get "UPS_UI_PROMPT_TIMEOUT" e) 5 _ _ λ prompt.
      is_some-bind (get "UPS_REQUEST_TIMEOUT_FAST" e) 2 _ _ λ fast.
        is_some-bind (get "UPS_REQUEST_TIMEOUT_NORMAL" e) 5 _ _ λ normal.
          is_some-bind (get "UPS_NETWORK_WAIT_TIMEOUT" e) 5 _ _ λ wait.
            is_some-bind (get "UPS_SUSPEND_MAX_RETRIES" e) 3 _ _
              λ retries. is_some-bind (get "UPS_SUSPEND_RETRY_DELAY" e) 5 _ _ λ delay. refl
