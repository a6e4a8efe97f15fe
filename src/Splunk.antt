-- ===== src/Splunk.antt =====
-- crusoe-splunk-hec: the forwarder of Crusoe audit logs to a Splunk HTTP event collector.
pub mod Dedup
pub mod Hec
pub mod Client
pub mod Forward
pub mod Daemon
pub mod Settings
pub mod Commands
