-- ===== src/Notifications.antt =====
-- app/notifications: the message templates, the queue and the worker.
pub mod Templates
pub mod Queue
pub mod Worker
pub mod Claiming
pub mod Attempts
pub mod Tick
pub mod Runs
