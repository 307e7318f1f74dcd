-- ===== src/Tests.antt =====
-- Tests, and the theorems at concrete inputs.
mod Contexts
mod Servers
mod Locks
mod Logs
mod Agents
mod Loadings
mod Fleets
mod Workers
mod Desktops
mod Chains
