-- ===== src/Agent.antt =====
-- The agent of the desktop, desktop/app/agent.py and desktop/app/ui.py.
pub mod Monad
pub mod Shutdown
pub mod Dialogs
pub mod Handler
pub mod Obeying
pub mod Ending
pub mod Answers
pub mod Chain
pub mod Prompting
pub mod Bounds
