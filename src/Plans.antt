-- ===== src/Plans.antt =====
-- capslock/domain/plans.py and capslock/storage/repositories/plans.py: the plans of a session, their
-- revisions, the requests that the user decides, and their implementations.
pub mod Record
pub mod Store
pub mod Revising
pub mod Requesting
pub mod Implementing
pub mod Approval
pub mod Revisions
