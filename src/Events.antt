-- ===== src/Events.antt =====
-- windows_os_api/core/events.
pub mod Bus
pub mod Schema
pub mod Webhooks
