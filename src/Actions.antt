-- ===== src/Actions.antt =====
-- capslock/storage/repositories/actions.py and the coordinator of
-- capslock/application/action_system/core.py: proposed actions, their approval and execution.
pub mod Record
pub mod Store
pub mod Lifecycle
pub mod History
pub mod Guards
pub mod Coordinator
