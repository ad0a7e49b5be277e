-- ===== src/Workflows.antt =====
-- windows_os_api/apps/workflows.
pub mod Recorder
