-- ===== src/Service.antt =====
-- backend/src/postmortem_backend/service.py: the responder's turn over one incident, and the
-- recording of an outcome.
pub mod Turn
pub mod Console
pub mod Stages
pub mod Handle
pub mod Trace
pub mod Ends
pub mod Acts
pub mod Safe
pub mod Stored
pub mod Screens
pub mod Outcomes
