-- ===== src/Mailbox.antt =====
-- The Agent mailbox: notifications (capslock/collaboration/wakeup.py), the durable tables
-- (capslock/storage/repositories/collaboration.py and mailbox.py) and the receiver that moves
-- messages into a model's context (capslock/runtime/mailbox.py).
pub mod Wakeup
pub mod Store
pub mod Receiver
pub mod Polling
