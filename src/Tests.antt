-- ===== src/Tests.antt =====
-- The theorems at concrete inputs, in a cluster kept in memory.
mod Memory
mod Releases
mod Spared
mod Schemes
mod Settled
mod Merging
mod Copying
mod Retrying
mod Clients
mod Starting
mod Factories
mod Operators
mod Server
mod Crashing
mod Tracking
