-- ===== src/Guardrails.antt =====
-- The guardrails of backend/src/postmortem_backend/guardrails/.
pub mod Unicode
pub mod Allowlist
pub mod Authority
pub mod Radius
pub mod Blank
pub mod Provenance
pub mod Roles
pub mod Patterns
pub mod Injection
pub mod Clean
pub mod Screened
pub mod Webhook
