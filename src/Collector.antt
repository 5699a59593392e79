-- ===== src/Collector.antt =====
-- packages/collector/src: reading the chain over several endpoints, and keeping up with it.
mod Tests
pub mod Client
pub mod Pool
pub mod Backfill
pub mod Head
pub mod Payments
