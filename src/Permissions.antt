-- ===== src/Permissions.antt =====
-- Who may run a tool: the permission modes and rules (capslock/permissions.py and
-- capslock/tooling/permission_policy), the journal of requests and grants
-- (capslock/storage/repositories/journal/permissions.py) and the boundary of Plan Mode
-- (capslock/tooling/planning.py).
pub mod Rules
pub mod Patterns
pub mod McpNames
pub mod Strategies
pub mod Journal
pub mod Engine
pub mod Middleware
