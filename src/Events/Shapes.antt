-- ===== src/Events/Shapes.antt =====
-- `AgentEvent` of backend/src/postmortem_backend/domain.py. Its `data` dictionary is a value of
-- `Payload`, one constructor for each shape that backend/src/postmortem_backend/service.py
-- publishes. The event's own id and time are left out: they are drawn when it is made
-- and are read by nothing here.
use ckdb_aws.Base.{Bool, Option, String, ℕ, List}
use ckdb_aws.Domain.{
  DecisionKind, Error, EventType, Float, RecallBundle, RemediationResult, Text, Uuid,
}
use ckdb_aws.Guardrails.Allowlist.{ApprovalRecord}

-- The `score` that the console shows of a candidate.
pub record ConsoleScore : Type 0 where
  pub vector : Float
  pub scope : Float
  pub freshness : Float
  pub outcome : Float
  pub composite : Float

pub data Payload : Type 0 where
  received_data : (service : Uuid) (severity summary : Text) → Payload
  recall_started_data : (query_summary : Text) → Payload
  recall_completed_data :
      (memory : RecallBundle) (rejected_count : ℕ) (scores : List ConsoleScore)
      (query_summary : Text)
      → Payload
  no_data : Payload
  decision_data :
      (decision : DecisionKind) (confidence : Float)
      (cited_memory_id cited_runbook_id : Option Uuid)
      → Payload
  action_data :
      (action action_id : Text) (target cited_memory_id : Uuid) (requires_approval : Bool)
      (target_version : Text)
      → Payload
  approval_data : (action : Text) (target cited_memory_id : Uuid) (target_version : Text) → Payload
  started_data : (action : Text) (transaction_id : Uuid) (authorization : ApprovalRecord) → Payload
  committed_data : (result : RemediationResult) → Payload
  completed_data : (remediated : Bool) (memory_id : Option Uuid) (summary : Text) → Payload
  failed_data : (error : Error) → Payload
  outcome_data :
      (memory_id : Uuid) (summary : Text) (freshness_ms : ℕ) (action_id transaction_id : Uuid)
      (outcome incident_status : Text) (idempotent_replay : Bool)
      → Payload

pub record AgentEvent : Type 0 where
  pub incident_id : Uuid
  pub event_type : EventType
  pub stage : String
  pub message : Text
  pub payload : Payload
