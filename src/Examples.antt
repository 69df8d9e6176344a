-- ===== src/Examples.antt =====
-- Concrete inputs, on which the theorems about the program hold.
mod Wire
mod Queues
mod Server
mod Sessions
mod Bridges
