-- ===== src/Router.antt =====
-- packages/router/src: the buyer's rail. `Decide` is decide.ts, `Rail` the hooks of index.ts that
-- stand around a payment, `Lightning` its way of paying over Lightning,
-- `Proofs` its search for settlements on chain, `Fetch` the end of a paid request.
mod Tests
pub mod Decide
pub mod Rail
pub mod Lightning
pub mod Proofs
pub mod Fetch
