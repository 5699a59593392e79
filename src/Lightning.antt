-- ===== src/Lightning.antt =====
-- packages/lightning/src: selling and paying over Lightning.
mod Tests
pub mod Replay
pub mod Limiter
pub mod Amounts
pub mod Invoice
pub mod Json
pub mod Binding
pub mod Decode
pub mod Exact
