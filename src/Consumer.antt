-- ===== src/Consumer.antt =====
-- The consumer side: the futures of pulled events, the transfer of a batch, and what becomes of its
-- events.
pub mod Futures
pub mod Batch
pub mod Receive
pub mod Lifetime
pub mod Acknowledge
pub mod Tests
