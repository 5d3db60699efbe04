-- ===== src/Registry.antt =====
-- core/registry: who may validate.
pub mod Validators
pub mod Models
