-- ===== src/Store.antt =====
-- The transaction store of backend/src/postmortem_backend/adapters/fakes.py: its tables, its
-- state and `seed`. The two transactions are `Store.Remediate` and `Store.Outcome`.
--
-- `snapshot` is a deep copy: here the tables are one value, `tables`, so a transaction works on a
-- copy by working on that value. The fresh ids (`uuid4`) and the clock are arguments.
pub mod Remediate
pub mod Outcome
pub mod Accepts
pub mod Atomic
pub mod Committed
pub mod Replay
pub mod Idempotent
pub mod Linked
pub mod Recorded
pub mod History
use ckdb_aws.Base.{
  ℕ, Bool, true, false, ◌≡◌, Option, none, some, List, [], ◌∷◌, nat_eq, elem, if◌then◌else◌,
}
use ckdb_aws.Base.Dict.{Dict, put}
use ckdb_aws.Domain.{
  Uuid, Text, text, Datetime, Float, ActionKind, rollback, restart, scale, feature_flag,
}

pub record ServiceRow : Type 0 where
  pub org_id : Uuid
  pub status : Text
  pub current_deploy_id : Option Uuid

pub record IncidentRow : Type 0 where
  pub org_id : Uuid
  pub service_id : Uuid
  pub status : Text
  pub runbook_id : Option Uuid
  pub resolved_at : Option Datetime

pub record DeployRow : Type 0 where
  pub org_id : Uuid
  pub service_id : Uuid
  pub version : Text
  pub action : Text
  pub deployed_by : Text
  pub status : Text

-- The two shapes of a row of `episodes`, by their `event_type`. An id that the metadata holds as
-- text is kept as the id: `str` of a UUID is one-to-one.
pub data EpisodeRow : Type 0 where
  action_episode :
      (org_id agent_id incident_id session_id service_id : Uuid) (content : Text)
      (deploy_id cited_memory_id : Uuid) (outcome : Text) (runbook_id : Option Uuid)
      (importance : Float) (embedding : List Float)
      → EpisodeRow
  outcome_episode :
      (org_id agent_id incident_id service_id : Uuid) (content : Text) (outcome : Text)
      (action_id transaction_id : Uuid) (action_type target_version : Text)
      (error_signature : Option Text) (runbook_id : Option Uuid) (importance : Float)
      (embedding : List Float) (occurred_at created_at : Datetime)
      → EpisodeRow

-- `params` of an action holds its target version alone.
pub record ActionRow : Type 0 where
  pub org_id : Uuid
  pub incident_id : Uuid
  pub action_type : Text
  pub target_id : Uuid
  pub target_version : Text
  pub applied_by : Text
  pub outcome : Text
  pub memory_ref : Uuid
  pub transaction_id : Uuid
  pub idempotency_key : Text

pub record Tables : Type 0 where
  pub services : Dict Uuid ServiceRow
  pub incidents : Dict Uuid IncidentRow
  pub deploys : Dict Uuid DeployRow
  pub episodes : Dict Uuid EpisodeRow
  pub remediation_actions : Dict Uuid ActionRow
  pub runbook_usage : Dict Uuid ℕ

-- The texts that `fail_at` is compared with; any other text injects nothing, like `None`.
pub data FailPoint : Type 0 where
  after_operational_write during_memory_write during_audit_write : FailPoint
  outcome_after_action_update outcome_during_event_write : FailPoint

abbrev pub fail_point_eq : FailPoint → FailPoint → Bool
fail_point_eq after_operational_write after_operational_write = true
fail_point_eq during_memory_write during_memory_write = true
fail_point_eq during_audit_write during_audit_write = true
fail_point_eq outcome_after_action_update outcome_after_action_update = true
fail_point_eq outcome_during_event_write outcome_during_event_write = true
fail_point_eq _ _ = false

-- `self.fail_at == point`
abbrev pub fails_at : Option FailPoint → FailPoint → Bool
fails_at none point = false
fails_at (some p) point = fail_point_eq p point

pub record Store : Type 0 where
  pub tables : Tables
  pub provenance : List Uuid
  pub fail_at : Option FailPoint
  pub commit_count : ℕ
  pub rollback_count : ℕ
  pub outcome_commit_count : ℕ
  pub outcome_rollback_count : ℕ
  pub auto_seed : Bool

abbrev pub no_tables : Tables
no_tables = record {
  services = [];
  incidents = [];
  deploys = [];
  episodes = [];
  remediation_actions = [];
  runbook_usage = [];
}

unfoldable pub init : Bool → Store
init auto_seed = record {
  tables = no_tables;
  provenance = [];
  fail_at = none;
  commit_count = 0;
  rollback_count = 0;
  outcome_commit_count = 0;
  outcome_rollback_count = 0;
  auto_seed = auto_seed;
}

abbrev pub degraded_service : Uuid → ServiceRow
degraded_service org = record { org_id = org; status = text "degraded"; current_deploy_id = none }

abbrev pub open_incident : Uuid → Uuid → IncidentRow
open_incident org service = record {
  org_id = org;
  service_id = service;
  status = text "open";
  runbook_id = none;
  resolved_at = none;
}

-- `set.add`
abbrev pub add : Uuid → List Uuid → List Uuid
add a xs = if elem a xs then xs else a ∷ xs

unfoldable pub seed : (service_id incident_id cited_memory_id org_id : Uuid) → Store → Store
unfolding put
seed service_id incident_id cited org s = record s {
  tables = record (s.tables) {
    services = put service_id (degraded_service org) s.tables.services;
    incidents = put incident_id (open_incident org service_id) s.tables.incidents;
  };
  provenance = add cited s.provenance;
}

unfoldable pub supported : ActionKind → Bool
supported rollback = true
supported restart = true
supported scale = false
supported feature_flag = false
