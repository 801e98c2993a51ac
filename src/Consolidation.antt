-- ===== src/Consolidation.antt =====
-- consolidation/postmortem_consolidation: runbooks from completed incidents.
pub mod Repository
pub mod Apply
pub mod Versions
pub mod Valid
pub mod Replay
pub mod Grouping
pub mod Pipeline
pub mod Contracts
pub mod Stripped
pub mod Wire
pub mod Rounds
pub mod Again
pub mod Members
