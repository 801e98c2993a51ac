-- ===== src/Domain.antt =====
-- backend/src/postmortem_backend/domain.py and errors.py: the contracts that the responder, its
-- adapters and its stores share. An enumeration's `.value` is the function `*_value`.
mod Values
unfoldable pub use Values.*
use ckdb_aws.Base.{ℕ, Bool, true, false, String, Option, none, some, List, [], ◌∷◌, ◌++◌, Eq}

pub data MemoryKind : Type 0 where
  episodic semantic procedural : MemoryKind

pub data ActionKind : Type 0 where
  rollback restart scale feature_flag : ActionKind

pub data DecisionKind : Type 0 where
  remediate propose ask_human escalate : DecisionKind

pub data OutcomeKind : Type 0 where
  success failed no_effect : OutcomeKind

pub data EventType : Type 0 where
  incident_received recall_started recall_completed reasoning_started decision_proposed : EventType
  action_proposed approval_required transaction_started transaction_committed : EventType
  transaction_rolled_back outcome_recorded response_completed response_failed : EventType

unfoldable pub action_value : ActionKind → Text
action_value rollback = text "rollback"
action_value restart = text "restart"
action_value scale = text "scale"
action_value feature_flag = text "feature_flag"

unfoldable pub outcome_value : OutcomeKind → Text
outcome_value success = text "success"
outcome_value failed = text "failed"
outcome_value no_effect = text "no_effect"

-- errors.py, the `SimulationError` of simulator/postmortem_sim/conductor.py, and the `ValueError`,
-- `TypeError`, `KeyError`, `ZeroDivisionError` and `AttributeError` that Python raises.
pub data Error : Type 0 where
  configuration_error provenance_error approval_required_error unsupported_action : Error
  recall_error reasoning_error atomic_remediation_error outcome_conflict : Error
  outcome_recording_error tool_not_allowed destructive_action_blocked : Error
  prompt_injection_detected input_validation_error webhook_authentication_error : Error
  role_scope_violation value_error type_error key_error simulation_error : Error
  zero_division_error attribute_error : Error

pub record IncidentSignal : Type 0 where
  pub incident_id : Uuid
  pub session_id : Uuid
  pub org_id : Uuid
  pub agent_id : Uuid
  pub service_id : Uuid
  pub severity : Text
  pub summary : Text
  pub error_signature : Option Text
  pub service_tags : List Text
  pub observed_at : Datetime
  pub metadata : Fields

pub record RecallQuery : Type 0 where
  pub org_id : Uuid
  pub agent_id : Uuid
  pub service_id : Uuid
  pub query_text : Text
  pub embedding : List Float
  pub k : ℕ
  pub service_tags : List Text
  pub error_signature : Option Text
  pub as_of : Datetime
  pub cold_start : Bool
  pub current_incident_id : Option Uuid

pub record MemoryCandidate : Type 0 where
  pub memory_id : Uuid
  pub kind : MemoryKind
  pub content : Text
  pub similarity : Float
  pub success_rate : Float
  pub occurred_at : Option Datetime
  pub service_id : Option Uuid
  pub runbook_id : Option Uuid
  pub steps : List Value
  pub metadata : Fields
  pub org_id : Option Uuid
  pub agent_id : Option Uuid
  pub confidence : Float
  pub valid_from : Option Datetime
  pub valid_to : Option Datetime
  pub recorded_at : Option Datetime
  pub provenance_ids : List Uuid
  pub ranking_score : Float

pub record RecallBundle : Type 0 where
  pub episodes : List MemoryCandidate
  pub facts : List MemoryCandidate
  pub runbooks : List MemoryCandidate
  pub cold_start : Bool
  pub diagnostics : Fields

abbrev pub all_candidates : RecallBundle → List MemoryCandidate
all_candidates b = b.episodes ++ (b.facts ++ b.runbooks)

pub record RemediationCommand : Type 0 where
  pub org_id : Uuid
  pub agent_id : Uuid
  pub incident_id : Uuid
  pub session_id : Uuid
  pub service_id : Uuid
  pub action : ActionKind
  pub target_version : Text
  pub cited_memory_id : Uuid
  pub runbook_id : Option Uuid
  pub rationale : Text
  pub outcome_stub : Text
  pub requires_human_approval : Bool
  pub approved : Bool
  pub idempotency_key : Option Text

pub record AgentDecision : Type 0 where
  pub kind : DecisionKind
  pub explanation : Text
  pub cited_memory_id : Option Uuid
  pub command : Option RemediationCommand
  pub confidence : Float

pub record RemediationResult : Type 0 where
  pub action_id : Uuid
  pub transaction_id : Uuid
  pub event_id : Uuid
  pub deploy_id : Uuid
  pub committed_at : Datetime
  pub incident_status : Text
  pub service_status : Text

pub record OutcomeCommand : Type 0 where
  pub org_id : Uuid
  pub agent_id : Uuid
  pub incident_id : Uuid
  pub service_id : Uuid
  pub action_id : Uuid
  pub outcome : OutcomeKind
  pub summary : Text
  pub error_signature : Option Text
  pub observed_at : Datetime

pub record OutcomeResult : Type 0 where
  pub action_id : Uuid
  pub transaction_id : Uuid
  pub event_id : Uuid
  pub incident_id : Uuid
  pub outcome : OutcomeKind
  pub incident_status : Text
  pub recorded_at : Datetime
  pub idempotent_replay : Bool

pub record ResponseResult : Type 0 where
  pub incident_id : Uuid
  pub decision : AgentDecision
  pub remediation : Option RemediationResult

-- `f" {label}: {signature}." if signature else ""`
labelled_signature : Option Text → Text
labelled_signature none = []
labelled_signature (some []) = []
labelled_signature (some (c ∷ s)) = text " Error signature: " ++ ((c ∷ s) ++ text ".")

-- `", ".join(tags)`
join_tags : List Text → Text
join_tags [] = []
join_tags (t ∷ []) = t
join_tags (t ∷ u ∷ ts) = t ++ (text ", " ++ join_tags (u ∷ ts))

labelled_tags : List Text → Text
unfolding join_tags
labelled_tags [] = []
labelled_tags (t ∷ ts) = text " Service tags: " ++ (join_tags (t ∷ ts) ++ text ".")

unfoldable pub recall_text : IncidentSignal → Text
unfolding labelled_signature labelled_tags uuid_text
recall_text s =
    s.severity
    ++ (text " incident affecting service "
        ++ (uuid_text s.service_id
            ++ (text ". "
                ++ (s.summary
                    ++ (text "."
                        ++ (labelled_signature s.error_signature
                            ++ labelled_tags s.service_tags))))))

unfoldable pub memory_text : RemediationCommand → Text
unfolding action_value uuid_text
memory_text c =
    action_value c.action
    ++ (text " service "
        ++ (uuid_text c.service_id
            ++ (text " to "
                ++ (c.target_version
                    ++ (text "; reason: "
                        ++ (c.rationale ++ (text "; expected outcome: " ++ c.outcome_stub)))))))

-- `a or b`: an empty text counts as absent.
abbrev pub or_text : Option Text → Text → Text
or_text none d = d
or_text (some []) d = d
or_text (some (c ∷ s)) d = c ∷ s

unfoldable pub effective_idempotency_key : RemediationCommand → Text
unfolding action_value
effective_idempotency_key c = or_text c.idempotency_key (
    uuid_text c.incident_id
    ++ (text ":"
        ++ (action_value c.action
            ++ (text ":"
                ++ (uuid_text c.service_id
                    ++ (text ":"
                        ++ (c.target_version ++ (text ":" ++ uuid_text c.cited_memory_id))))))))

unfoldable pub outcome_text : OutcomeCommand → Text
unfolding labelled_signature outcome_value uuid_text
outcome_text c =
    text "Remediation action "
    ++ (uuid_text c.action_id
        ++ (text " for service "
            ++ (uuid_text c.service_id
                ++ (text " finished with outcome "
                    ++ (outcome_value c.outcome
                        ++ (text ". "
                            ++ (c.summary
                                ++ (text "." ++ labelled_signature c.error_signature))))))))
