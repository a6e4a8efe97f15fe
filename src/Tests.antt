-- ===== src/Tests.antt =====
-- The theorems at concrete inputs, with concrete functions for the code outside the repository.
mod Codec
mod Splunk
mod Transfer
mod Aria
mod Tuning
