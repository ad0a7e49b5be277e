-- ===== src/Auth.antt =====
-- windows_os_api/core/security/auth.py: API keys, sessions and authorization. The function
-- `fingerprint` (the hexadecimal SHA-256 of a key) is a parameter.
pub mod Http
pub mod Registry
pub mod Roles
pub mod Context
