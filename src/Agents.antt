-- ===== src/Agents.antt =====
-- Agent teams, workers, tasks and attempts (capslock/storage/repositories/collaboration.py).
pub mod Record
pub mod Store
pub mod Creating
pub mod States
pub mod Attempts
pub mod Finishing
pub mod Resuming
pub mod Accounts
pub mod Histories
pub mod Acyclic
pub mod Dependencies
pub mod Claims
pub mod Sending
pub mod Messages
