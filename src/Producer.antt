-- ===== src/Producer.antt =====
-- The producer side: batches of events, the queue of batches of a target, and the pushes of events.
pub mod Batch
pub mod Queue
pub mod Routed
pub mod Push
