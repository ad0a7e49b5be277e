-- ===== src/Processes.antt =====
-- windows_os_api/os/processes: who may be started, who may be stopped, and what lies under a process.
pub mod Tree
pub mod Launch
pub mod Identity
pub mod Service
