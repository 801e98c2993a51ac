-- ===== src/Store/Remediate.antt =====
-- `FakeAtomicRemediationStore.remediate_and_record` and `_validate`
-- (backend/src/postmortem_backend/adapters/fakes.py).
use ckdb_aws.Base.{
  List, Option, Result, elem, err, guard, if◌then◌else◌, length, nat_eq, none, not, ok, required,
  some, string_eq, ℕ, ◌&&◌, ◌++◌, ◌+◌, ◌==◌, ◌>>=◌, ◌>>◌,
}
use ckdb_aws.Base.Dict.{Dict, get, put, set_default}
use ckdb_aws.Domain.{
  ActionKind, Datetime, Error, Float, RemediationCommand, RemediationResult, Text, Uuid,
  action_value, approval_required_error, atomic_remediation_error, double,
  effective_idempotency_key, memory_text, provenance_error, rollback, text, text_eq,
  unsupported_action, uuid_text,
}
use ckdb_aws.Store.{
  IncidentRow, ServiceRow, Store, Tables, action_episode, add, after_operational_write,
  degraded_service, during_audit_write, during_memory_write, fails_at, open_incident, supported,
}

-- The ids that `uuid4` draws and the clock that is read, in one call.
pub record Ids : Type 0 where
  pub deploy_id : Uuid
  pub event_id : Uuid
  pub action_id : Uuid
  pub transaction_id : Uuid
  pub now : Datetime

unfoldable pub validate : RemediationCommand → List Float → Result Error (Unit {0})
unfolding supported
validate c embedding = do
  guard (supported c.action) unsupported_action
  guard (not (c.requires_human_approval && not c.approved)) approval_required_error
  guard (length embedding == 1024) atomic_remediation_error

-- The `auto_seed` block, which is outside the transaction.
unfoldable pub seed_missing : RemediationCommand → Store → Store
unfolding set_default
seed_missing c s =
    if s.auto_seed
    then record s {
      tables = record (s.tables) {
        services = set_default c.service_id (degraded_service c.org_id) s.tables.services;
        incidents =
            set_default c.incident_id (open_incident c.org_id c.service_id) s.tables.incidents;
      };
      provenance = add c.cited_memory_id s.provenance;
    }
    else s

-- The guards of the transaction: the target rows, inside the org, and the citation.
unfoldable pub check_target :
    RemediationCommand → List Uuid → Tables → Result Error (ServiceRow × IncidentRow)
unfolding get
check_target c provenance t = do
  service ← required (get c.service_id t.services) atomic_remediation_error
  guard (service.org_id == c.org_id) atomic_remediation_error
  incident ← required (get c.incident_id t.incidents) atomic_remediation_error
  guard (incident.org_id == c.org_id && incident.service_id == c.service_id)
      atomic_remediation_error
  guard (elem c.cited_memory_id provenance) provenance_error
  ok (service, incident)

abbrev pub agent_name : Uuid → Text
agent_name a = text "agent:" ++ uuid_text a

unfoldable pub operational_write :
    Ids → RemediationCommand → ServiceRow → IncidentRow → Tables → Tables
unfolding put
operational_write ids c service incident t = record t {
  deploys =
      put ids.deploy_id
        (record {
          org_id = c.org_id;
          service_id = c.service_id;
          version = c.target_version;
          action = action_value c.action;
          deployed_by = agent_name c.agent_id;
          status = text "completed";
        })
        t.deploys;
  services =
      put c.service_id
        (record service { status = text "recovering"; current_deploy_id = some ids.deploy_id })
        t.services;
  incidents =
      put c.incident_id (record incident { status = text "mitigating"; runbook_id = c.runbook_id })
        t.incidents;
}

unfoldable pub memory_write : Ids → RemediationCommand → List Float → Tables → Tables
unfolding put
memory_write ids c embedding t = record t {
  episodes =
      put ids.event_id
        (action_episode c.org_id c.agent_id c.incident_id c.session_id c.service_id (memory_text c)
          ids.deploy_id c.cited_memory_id c.outcome_stub c.runbook_id (double 0x3feccccccccccccd)
          embedding)
        t.episodes;
}

abbrev pub action_type : ActionKind → Text
action_type rollback = action_value rollback ++ text "_deploy"
action_type _ = text "restart_service"

unfoldable pub audit_write : Ids → RemediationCommand → Tables → Tables
unfolding put
audit_write ids c t = record t {
  remediation_actions =
      put ids.action_id
        (record {
          org_id = c.org_id;
          incident_id = c.incident_id;
          action_type = action_type c.action;
          target_id = c.service_id;
          target_version = c.target_version;
          applied_by = agent_name c.agent_id;
          outcome = text "success";
          memory_ref = ids.event_id;
          transaction_id = ids.transaction_id;
          idempotency_key = effective_idempotency_key c;
        })
        t.remediation_actions;
}

abbrev pub or_zero : Option ℕ → ℕ
or_zero none = 0
or_zero (some n) = n

unfoldable pub bump : Option Uuid → Dict Uuid ℕ → Dict Uuid ℕ
unfolding get put
bump none usage = usage
bump (some r) usage = put r (or_zero (get r usage) + 1) usage

unfoldable pub count_usage : Option Uuid → Tables → Tables
count_usage r t = record t { runbook_usage = bump r t.runbook_usage }

-- The body of the `try` block, on the staged tables.
unfoldable pub stage_remediation :
    Ids → RemediationCommand → List Float → Store → Result Error Tables
stage_remediation ids c embedding s = do
  (service, incident) ← check_target c s.provenance s.tables
  let t₁ = operational_write ids c service incident s.tables
  guard (not (fails_at s.fail_at after_operational_write)) atomic_remediation_error
  let t₂ = memory_write ids c embedding t₁
  guard (not (fails_at s.fail_at during_memory_write)) atomic_remediation_error
  let t₃ = audit_write ids c t₂
  guard (not (fails_at s.fail_at during_audit_write)) atomic_remediation_error
  ok (count_usage c.runbook_id t₃)

abbrev pub remediation_result : Ids → RemediationResult
remediation_result ids = record {
  action_id = ids.action_id;
  transaction_id = ids.transaction_id;
  event_id = ids.event_id;
  deploy_id = ids.deploy_id;
  committed_at = ids.now;
  incident_status = text "mitigating";
  service_status = text "recovering";
}

-- Commit the staged tables, or count a rollback and raise again.
unfoldable pub settle : Ids → Result Error Tables → Store → Result Error RemediationResult × Store
settle ids (ok t) s =
    (ok (remediation_result ids), record s { tables = t; commit_count = s.commit_count + 1 })
settle ids (err e) s = (err e, record s { rollback_count = s.rollback_count + 1 })

unfoldable pub transact :
    Ids → RemediationCommand → List Float → Store → Result Error RemediationResult × Store
transact ids c embedding s = settle ids (stage_remediation ids c embedding s) s

unfoldable pub remediate_and_record :
    Ids → RemediationCommand → List Float → Store → Result Error RemediationResult × Store
remediate_and_record ids c embedding s = elim (validate c embedding) [
  | err e ↦ (err e, s)
  | ok _ ↦ transact ids c embedding (seed_missing c s)
]
