-- ===== src/Queues.antt =====
-- Queued work: the consumer of messages, the jobs, and the product sync that runs as a job.
pub mod Consumer
pub mod Life
pub mod Jobs
pub mod ProductSync
pub mod Settling
pub mod Settled
