-- ===== src/Config.antt =====
-- server/app/config.py: the configuration of a UPS device, and its loading (Config/Loading).
pub mod Loading
pub mod Desktops
pub mod Settings
use ups_orchestrator.Prelude.{ℕ, String, Bool, true, false, Option}

-- `ROLE_PRIMARY` and `ROLE_OBSERVER`.
pub data Role : Type 0 where
  primary observer : Role

pub record TimingConfig : Type 0 where
  pub desktop_offline_wait : ℕ
  pub desktop_online_prompt_wait : ℕ
  pub desktop_suspend_wait : ℕ
  pub desktop_shutdown_wait : ℕ
  pub wake_online_timeout : ℕ
  pub wol_retry_interval : ℕ
  pub observer_poweroff_max_wait : ℕ

pub record WolRelayConfig : Type 0 where
  pub host : String
  pub identity_file : Option String

pub record DesktopConfig : Type 0 where
  pub agent_url : String
  pub mac_address : Option String

pub record UpscmdConfig : Type 0 where
  pub shutdown : String

pub record UpsDeviceConfig : Type 0 where
  pub id : String
  pub nut_name : String
  pub role : Role
  pub timing : TimingConfig
  pub desktop : Option DesktopConfig
  pub wol_relay : Option WolRelayConfig
  pub upscmd : UpscmdConfig

abbrev is_observer_role : Role → Bool
is_observer_role observer = true
is_observer_role primary = false

-- The property `is_observer`.
abbrev pub is_observer : UpsDeviceConfig → Bool
is_observer d = is_observer_role d.role
