-- ===== src/Workflow.antt =====
-- The life of a foreground work item and of its run: the statuses of capslock/domain/workflow.py, and
-- the transactions of capslock/storage/repositories/workflow_uow.py that move both.
pub mod Status
pub mod Store
pub mod Resume
pub mod Transitions
pub mod Waiting
pub mod Cancelling
pub mod Coupling
pub mod Histories
pub mod Ending
pub use Status.*
