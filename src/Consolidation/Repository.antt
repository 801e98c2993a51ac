-- ===== src/Consolidation/Repository.antt =====
-- `InMemoryRunbookRepository` of consolidation/postmortem_consolidation/repository.py, and the
-- candidates of contracts.py. The hash of a candidate's steps is a parameter, and total. A
-- runbook's id is the pair of numbers that its text `rb-<keys>-<position>` prints.
use ckdb_aws.Base.{
  Bool, Eq, List, Result, [], arith, err, if◌then◌else◌, ltb, ok, true, ℕ, ◌&&◌, ◌↔◌, ◌≡◌,
}
use ckdb_aws.Base.Dict.{Dict}
use ckdb_aws.Domain.{Error, Float, Text, Value, text_beq, text_beq_iff, value_error}

pub data RunbookOutcome : Type 0 where
  success failed no_effect : RunbookOutcome

pub data RunbookStatus : Type 0 where
  draft active deprecated absent : RunbookStatus

pub data Operation : Type 0 where
  create reinforce weaken ignored_counterexample noop : Operation

pub data RunbookId : Type 0 where
  no_id : RunbookId
  rb : (keys position : ℕ) → RunbookId

pub record CandidateRunbook : Type 0 where
  pub org_id : Text
  pub agent_id : Text
  pub incident_id : Text
  pub service_id : Text
  pub name : Text
  pub trigger_desc : Text
  pub steps : List Value
  pub preconditions : List Value
  pub postconditions : List Value
  pub service_tags : List Text
  pub error_signatures : List Text
  pub outcome : RunbookOutcome
  pub source_event_ids : List Text
  pub embedding : List Float

pub record RunbookMutation : Type 0 where
  pub operation : Operation
  pub runbook_id : RunbookId
  pub version : ℕ
  pub success_count : ℕ
  pub failure_count : ℕ
  pub status : RunbookStatus
  pub idempotent_replay : Bool

-- `_LocalRunbook`
pub record LocalRunbook : Type 0 where
  pub runbook_id : RunbookId
  pub version : ℕ
  pub steps_hash : Text
  pub success_count : ℕ
  pub failure_count : ℕ
  pub status : RunbookStatus
  pub embedding : List Float

-- `(org_id, agent_id, name)`
pub record RunbookKey : Type 0 where
  pub org_id : Text
  pub agent_id : Text
  pub name : Text

abbrev key_beq : RunbookKey → RunbookKey → Bool
key_beq a b =
    text_beq a.org_id b.org_id && (text_beq a.agent_id b.agent_id && text_beq a.name b.name)

pub key_beq_iff : (a b : RunbookKey) → (key_beq a b ≡ true) ↔ (a ≡ b)
key_beq_iff a b = ground (
  arith,
  text_beq_iff a.org_id b.org_id,
  text_beq_iff a.agent_id b.agent_id,
  text_beq_iff a.name b.name,
)

instance abbrev pub key_eq : Eq RunbookKey
key_eq = record { equal = key_beq; equal_iff = key_beq_iff }

pub record Repository : Type 0 where
  pub reinforcements_to_activate : ℕ
  pub runbooks : Dict RunbookKey (List LocalRunbook)
  pub processed : Dict Text RunbookMutation

-- `__init__`
unfoldable pub new_repository : ℕ → Result Error Repository
new_repository reinforcements_to_activate =
    if ltb reinforcements_to_activate 1
    then err value_error
    else ok (record {
      reinforcements_to_activate = reinforcements_to_activate;
      runbooks = [];
      processed = [];
    })
