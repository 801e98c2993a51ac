-- ===== src/Simulator.antt =====
-- simulator/postmortem_sim: the seeded world that incidents are injected into and remediated in.
pub mod Models
pub mod Conductor
pub mod Load
pub mod Inject
pub mod Families
pub mod Remedy
pub mod Apply
pub mod Observe
pub mod Chains
pub mod Kept
pub mod Framed
pub mod Keeping
pub mod Mutations
pub mod Settled
pub mod Steps
pub mod Timeline
pub mod Lifecycle
pub mod Resolution
pub mod Incidents
pub mod Refused
pub mod Labels
pub mod Schedule
pub mod Progress
pub mod Completion
