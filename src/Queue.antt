-- ===== src/Queue.antt =====
-- snitun/multiplexer/queue.py: the message queues, measured in bytes.
pub mod Items
pub mod Single
pub mod Multi
