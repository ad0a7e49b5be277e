-- ===== src/ApiRegistry.antt =====
-- windows_os_api/apps/api_registry: the model, and the operations of the registry.
pub mod Model
pub mod Operations
pub mod Verified
pub mod Upsert
mod Tests
