-- ===== src/Tests/Transfer.antt =====
-- The theorems on cmk-data-transfer at concrete inputs.
mod Samples
mod Shard
mod Config
mod Run
mod Completes
mod Sweep
mod Load
