-- ===== src/Desktop.antt =====
-- The rest of the desktop: desktop/app/config.py, the state tool desktop/app/send_state.py, and the
-- reports of state that the tool and the agent make.
pub mod EnvFile
pub mod Environment
pub mod Quoting
pub mod Settings
pub mod Reports
pub mod Delivery
