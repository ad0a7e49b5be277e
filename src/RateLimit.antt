-- ===== src/RateLimit.antt =====
-- windows_os_api/core/security/rate_limit.py: the sliding window and the concurrency gate.
pub mod Window
pub mod Gate
