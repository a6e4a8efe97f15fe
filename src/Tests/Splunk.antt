-- ===== src/Tests/Splunk.antt =====
-- The theorems on crusoe-splunk-hec at concrete inputs.
mod Data
mod Dedup
mod Forward
mod Settings
mod Commands
