-- ===== src/Lib.antt =====
-- WinOs-Layer is a server that gives authenticated clients access to a desktop system: over REST, MCP
-- and a websocket a request is authenticated, counted against limits, authorized, logged, and handed
-- to a backend. These modules model the Python code that decides: who a client is and what it may
-- do, how many requests run, what the audit log says, which subscribers get an event, which API
-- counts as verified, and whether a recorded workflow or a plan of the agent is executed. Paths are
-- those of the repository.
--
-- - Common: the shared names, dictionaries in insertion order (Common/Dict), Python's `str.strip`
--   and the case of ASCII letters (Common/Text), and integers (Common/Int).
-- - RateLimit, windows_os_api/core/security/rate_limit.py: Window is `RateLimiter` (`allow`,
--   `remaining`), Gate is `ConcurrencyGate` (`try_acquire`, `release`, `in_flight_for`), whose callers
--   Gate/Slots lets interleave. What happens under the lock is one step; a reading of the monotonic
--   clock is a number of nanoseconds and an argument.
-- - Permissions, windows_os_api/core/permissions/model.py: roles, permissions and `has_permission`.
-- - Auth, windows_os_api/core/security/auth.py: Registry is `AuthRegistry` with its sessions, scopes
--   and revocations, Roles the keys of the settings and `resolve_role`, Context `AuthContext`,
--   `build_auth_context`, `assert_active` and the checks that stand before a side effect. The
--   fingerprint of a key is a parameter, fresh session ids and the time are arguments,
--   `secrets.compare_digest` is equality of ASCII texts and raises on others, and an `HTTPException` is
--   a result of its own, as is the 500 of an exception that nothing catches. `rotate_key`, which takes
--   the lock three times, is one step.
-- - Audit, windows_os_api/core/security/audit.py: the chain of entries, rotation, the start over an
--   old file, verified reading and paging. The HMAC of an object is a parameter; a file is the list
--   of its lines, all of them UTF-8, and the failures of the file system are arguments.
-- - Events, windows_os_api/core/events/bus.py: `EventBus` with its queues, its count of bytes, its
--   history and its shutdown (Events/Bus), over any sanitizer of payloads; what runs under the lock or
--   in one go on the event loop is one step. Events/Schema is windows_os_api/core/events/schema.py:
--   `redact_secrets` and `validate_and_sanitize` on JSON values, and Schema/Contents the bus with that
--   sanitizer. The size of an encoded payload is a parameter. Events/Webhooks is
--   windows_os_api/core/events/webhooks.py: `validate_webhook_url`, and in Webhooks/Dispatcher the
--   signatures and `WebhookDispatcher`. The parsing of URLs and addresses, the name service, HMAC, the
--   transport and the clock are parameters; requests are served one after the other. The `ValueError`
--   of a URL, which nothing catches, is an answer with a code of its own.
-- - Workflows, windows_os_api/apps/workflows/recorder.py: recording, listing, and `play` with the rollback
--   and with or without the gate before each step. The gate and the invocation are parameters that
--   change a world.
-- - Agent, windows_os_api/apps/sandbox/permissions.py (Sandbox), windows_os_api/apps/agent/gate.py
--   (Gate) and `strip_injection_auth_claims` of windows_os_api/apps/ai/egress.py: the policies of the
--   sandbox and the decision whether a plan runs unattended. Numbers with a fraction are a parameter.
-- - ApiRegistry, windows_os_api/apps/api_registry/model.py: Model has the records, the statuses and
--   the gate before VERIFIED (`authorize_verified_status`), Operations `register`, `set_status` and
--   `issue_verification_proof`. The digest of an id and the parsing of a date are parameters, the
--   time is an argument; the time of a proof may be NaN, an infinity or before the epoch.
-- - Processes, windows_os_api/os/processes: Launch is `authorize` of exec_policy.py, Identity
--   identity.py, Tree `child_pids`, `descendant_pids` of tree.py, Service `terminate_process` of
--   service.py with `residual_alive`, and Service/Restart `start_process` and `restart_process`. The
--   backend is a record of functions on a world (`System`, `Backend`), the file system and the search
--   path another (`Host`), `os.path.normcase` a parameter. Times of creation are microseconds.
-- - FileSystem, windows_os_api/os/filesystem/paths.py: `normalize_user_path`, `walk_under`,
--   `write_bytes_nofollow` and `read_bytes_nofollow`, below a root that is resolved and exists, on a
--   system with O_NOFOLLOW. The system calls are a record of functions on a world (`System`), which may
--   fail by an `OSError` in lstat, mkdir, opening, reading and writing.
-- - RegistryGuard, windows_os_api/os/registry: `check`, `check_read` and `filter_values` of
--   allowlist.py, `read` and `write` of service.py. The environment variable is an argument, the
--   registry a record of functions on a world, `isalnum` a parameter.
--
-- Auth uses Permissions; Agent.Gate asks Agent.Sandbox; the gate of Workflows stands for
-- `assert_active` of Auth. Processes.Service asks Launch, Identity and Tree.
--
-- The loops of the modelled code run over lists and are recursion on them. Only the walk of
-- `descendant_pids` runs on fuel, 258 rounds: it meets at most 256 processes, each of which is put on
-- the stack once, and Processes/Tree/Ends shows that it returns. The loop of a subscriber runs as long
-- as events come; Events/Bus/Shutdown counts its rounds.
--
-- Not modelled: the web framework, the backends and their system calls, threads and event loops but
-- for the order of their steps, the text of messages, metrics and time stamps that nothing decides
-- on, and the parts of the program not named above.
mod Common
pub mod RateLimit
pub mod Permissions
pub mod Auth
pub mod Audit
pub mod Events
pub mod Workflows
pub mod Agent
pub mod ApiRegistry
pub mod FileSystem
pub mod Processes
pub mod RegistryGuard
