-- ===== src/Stats.antt =====
-- bordercontrol/lib/stats: the statistics of the feeders and their connections.
pub mod State
pub mod Feeders
pub mod Connections
pub mod Invariant
pub mod Init
pub mod Cases
pub mod Preserves
pub mod Connected
pub mod Registering
pub mod Unregistering
pub mod Counting
pub mod Growing
pub mod Units
pub mod Evictor
pub mod Histories
pub mod Totals
pub mod Forgetting
pub mod Races
pub mod Gauges
pub mod Refinement
pub mod Threads
pub mod Requests
pub mod Collectors
pub mod Lifecycle
pub mod Api
