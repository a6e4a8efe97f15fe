-- ===== src/Tuning.antt =====
-- crusoe-managed-finetuning-example: a client for fine-tuning jobs.
pub mod Cache
pub mod Swagger
pub mod Adapter
pub mod Runtime
pub mod Polls
pub mod State
pub mod Schema
pub mod Catalog
pub mod Service
pub mod Prompts
pub mod Overrides
pub mod Selection
pub mod Run
