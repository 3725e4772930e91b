-- ===== src/FeedProxy.antt =====
-- bordercontrol/lib/feedproxy: the proxy for incoming connections.
pub mod Tracker
pub mod Feeders
pub mod Auth
pub mod Refresh
pub mod Dial
pub mod Starting
pub mod Proxying
pub mod Lifecycle
