-- ===== src/Transfer.antt =====
-- cmk-data-transfer: the bulk transfer of objects by workers.
pub mod Shard
pub mod Config
pub mod Sizing
pub mod Manifests
pub mod RcloneConf
pub mod Kubectl
pub mod Run
pub mod Collect
pub mod Grid
pub mod Sweep
