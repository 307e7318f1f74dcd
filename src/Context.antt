-- ===== src/Context.antt =====
-- server/app/ups_context.py: the class UPSContext, one object for each UPS device.
pub mod State
pub mod Monad
pub mod Peers
pub mod Desktop
pub mod Wake
pub mod Power
pub mod Phases
pub mod Handlers
pub mod Workers
pub mod Shutdown
pub mod Waiting
pub mod Safety
pub mod Lasting
pub mod Recovery
pub mod LowBattery
pub mod Starting
pub mod Holding
pub mod Inputs
pub mod Invariant
pub mod Upholding
pub mod Fitting
pub mod Recording
pub mod Leftover
pub mod Moves
pub mod Machine
pub mod Restraint
pub mod Conduct
pub mod Packets
pub mod Gap
pub mod Dying
pub mod Emergency
pub mod Threads
pub mod Lock
pub mod Serial
pub mod Once
pub mod Racing
pub mod Sections
pub mod Sparing
pub mod Cutting
