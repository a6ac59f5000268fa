-- ===== src/Queue/Message/Fifo.antt =====
-- The message queue as a bounded queue of messages, oldest first.
pub mod Window
pub mod Push
pub mod Pop
pub mod Runs
