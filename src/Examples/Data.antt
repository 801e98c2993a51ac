-- ===== src/Examples/Data.antt =====
-- The inputs that the examples share.
use ckdb_aws.Base.{
  List, [], false, leb, nat_eq, none, some, string_eq, suc, true, zero, ℕ, ◌&&◌, ◌==◌, ◌||◌, ◌∷◌,
}
use ckdb_aws.Domain.{
  Datetime, Float, IncidentSignal, MemoryCandidate, OutcomeCommand, OutcomeResult, RecallBundle,
  RemediationCommand, aware, double, end, episodic, field, rollback, str, success, text, text_eq,
}
use ckdb_aws.Guardrails.Unicode.{Unicode}
use ckdb_aws.Store.{Store, init, seed}
use ckdb_aws.Store.Remediate.{Ids, remediate_and_record}

abbrev pub now : Datetime
now = aware 1000

abbrev pub plain : Unicode
plain = record {
  nfkc = λ t. t;
  is_format = λ c. c == 0x200b;
  is_alnum = λ c. (leb 48 c && leb c 57) || (leb 97 c && leb c 122);
  lower = λ t. t;
}

abbrev zeros : ℕ → List Float
zeros zero = []
zeros (suc n) = double 0 ∷ zeros n

abbrev pub vector : List Float
vector = zeros 1024

abbrev pub command : RemediationCommand
command = record {
  org_id = 1;
  agent_id = 2;
  incident_id = 3;
  session_id = 4;
  service_id = 5;
  action = rollback;
  target_version = text "v1";
  cited_memory_id = 6;
  runbook_id = some 7;
  rationale = text "as before";
  outcome_stub = text "recovers";
  requires_human_approval = false;
  approved = true;
  idempotency_key = none;
}

abbrev pub ids : Ids
ids = record { deploy_id = 10; event_id = 11; action_id = 12; transaction_id = 13; now = now }

abbrev pub seeded : Store
seeded = seed 5 3 6 1 (init false)

abbrev pub remediated : Store
remediated = (remediate_and_record ids command vector seeded).1

abbrev pub outcome : OutcomeCommand
outcome = record {
  org_id = 1;
  agent_id = 2;
  incident_id = 3;
  service_id = 5;
  action_id = 12;
  outcome = success;
  summary = text "recovered";
  error_signature = none;
  observed_at = now;
}

-- What recording the outcome answers.
abbrev pub resolved : OutcomeResult
resolved = record {
  action_id = 12;
  transaction_id = 13;
  event_id = 20;
  incident_id = 3;
  outcome = success;
  incident_status = text "resolved";
  recorded_at = now;
  idempotent_replay = false;
}

abbrev pub signal : IncidentSignal
signal = record {
  incident_id = 3;
  session_id = 4;
  org_id = 1;
  agent_id = 2;
  service_id = 5;
  severity = text "high";
  summary = text "slow";
  error_signature = some (text "timeout");
  service_tags = text "search" ∷ [];
  observed_at = now;
  metadata = end;
}

abbrev pub memory : MemoryCandidate
memory = record {
  memory_id = 6;
  kind = episodic;
  content = text "rolled back";
  similarity = double 0;
  success_rate = double 0;
  occurred_at = none;
  service_id = some 5;
  runbook_id = some 7;
  steps = str (text "roll back") ∷ [];
  metadata = field (text "note") (str (text "ok")) end;
  org_id = some 1;
  agent_id = some 2;
  confidence = double 0;
  valid_from = none;
  valid_to = none;
  recorded_at = none;
  provenance_ids = [];
  ranking_score = double 0;
}

abbrev pub bundle : RecallBundle
bundle = record {
  episodes = memory ∷ [];
  facts = [];
  runbooks = [];
  cold_start = false;
  diagnostics = end;
}
