-- ===== src/Facilitator.antt =====
-- packages/facilitator/src: what the facilitator agrees to settle, and for whom.
mod Tests
pub mod Guard
pub mod Sellers
pub mod Service
