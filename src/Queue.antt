-- ===== src/Queue.antt =====
-- include/csics/queue and src/queue/SPSCQueue.cpp: the single-producer single-consumer byte queue and
-- the message queue on top of it.
pub mod Memory
pub mod Spsc
pub mod Message
pub mod Threads
mod Tests
