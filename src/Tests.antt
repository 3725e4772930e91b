-- ===== src/Tests.antt =====
-- Runs of the definitions on small inputs, and each property at concrete arguments.
pub mod Stats
pub mod Requests
pub mod Races
pub mod Threads
pub mod Limits
pub mod Serving
pub mod Tracker
pub mod FeedProxy
pub mod Proxy
pub mod Atc
pub mod Containers
pub mod Listener
pub mod Server
