-- ===== src/Examples.antt =====
-- Examples of the theorems: each property at a concrete input.
mod Data
pub mod Stores
pub mod Guards
pub mod Brokers
pub mod Turns
pub mod Runbooks
pub mod Worlds
pub mod Recalls
pub mod Messages
pub mod Decisions
pub mod Dicts
