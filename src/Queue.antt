-- ===== src/Queue.antt =====
-- The package queue: jobs, the retry policy, the producer and the worker.
pub mod Job
pub mod Retry
pub mod Backend
pub mod Producer
pub mod Tracing
pub mod Worker
