-- ===== src/Governance.antt =====
-- capslock/runtime/governance.py, capslock/domain/governance.py and
-- capslock/storage/repositories/governance.py: the limits of a run.
pub mod Loops
pub mod Limits
pub mod Budget
