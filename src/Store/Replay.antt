-- ===== src/Store/Replay.antt =====
-- What `record_outcome` writes and answers
-- (backend/src/postmortem_backend/adapters/fakes.py).
use ckdb_aws.Base.{
  Bool-cases, List, Result-cases, arith, err, find?, inl, inr, length, nat_eq, none, ok, some, ◌==◌,
  ◌↔◌, ◌≡◌, ◌≢◌, ◌⊎◌,
}
use ckdb_aws.Base.Dict.{get, put}
use ckdb_aws.Domain.{Error, Float, OutcomeCommand, Uuid, outcome_value}
use ckdb_aws.Store.{ActionRow, IncidentRow, Store, Tables}
use ckdb_aws.Store.Outcome.{
  check_action, is_outcome_of, outcome_body, outcome_row, record_outcome, resolve, settle_new,
  settle_replay, stage_outcome,
}

-- The tables after a new outcome of the given incident and action.
abbrev pub outcome_tables :
    Uuid → OutcomeCommand → List Float → IncidentRow → ActionRow → Tables → Tables
outcome_tables event_id c embedding incident action t =
    let incident' = resolve c.outcome c.observed_at incident in
    let action' = record action { outcome = outcome_value c.outcome } in
    record t {
      incidents = put c.incident_id incident' t.incidents;
      remediation_actions = put c.action_id action' t.remediation_actions;
      episodes = put event_id (outcome_row c embedding incident' action') t.episodes;
    }

-- The rows that an outcome belongs to, and that no outcome stands yet.
pub record IsNew (c : OutcomeCommand) (incident : IncidentRow) (action : ActionRow) (t : Tables)
    : Type 0 where
  pub incident_at : get c.incident_id t.incidents ≡ some incident
  pub incident_org : incident.org_id ≡ c.org_id
  pub incident_service : incident.service_id ≡ c.service_id
  pub action_at : get c.action_id t.remediation_actions ≡ some action
  pub action_org : action.org_id ≡ c.org_id
  pub action_incident : action.incident_id ≡ c.incident_id
  pub action_service : action.target_id ≡ c.service_id
  pub unrecorded : find? (is_outcome_of c.action_id) t.episodes ≡ none

module _ (c : OutcomeCommand) (t : Tables) (incident : IncidentRow) (action : ActionRow) where
  pub check_action_iff : (check_action c t ≡ ok (incident, action)) ↔ (
      (get c.incident_id t.incidents ≡ some incident)
      × (incident.org_id ≡ c.org_id)
      × (incident.service_id ≡ c.service_id)
      × (get c.action_id t.remediation_actions ≡ some action)
      × (action.org_id ≡ c.org_id)
      × (action.incident_id ≡ c.incident_id)
      × (action.target_id ≡ c.service_id))
  unfolding check_action
  check_action_iff = ground arith

  pub check-IsNew :
      check_action c t ≡ ok (incident, action)
      → find? (is_outcome_of c.action_id) t.episodes ≡ none
      → IsNew c incident action t
  check-IsNew e unrecorded =
      let (hi, io, ii, ha, ao, ai, at) = check_action_iff.0 e in
      record {
        incident_at = hi;
        incident_org = io;
        incident_service = ii;
        action_at = ha;
        action_org = ao;
        action_incident = ai;
        action_service = at;
        unrecorded = unrecorded;
      }

module _ (event_id : Uuid) (c : OutcomeCommand) (embedding : List Float) where
  body_cases :
      (s : Store) (incident : IncidentRow) (action : ActionRow)
      → let s' = (outcome_body event_id c embedding incident action s).1 in
        (s'.tables ≡ s.tables)
        ⊎ (find? (is_outcome_of c.action_id) s.tables.episodes ≡ none)
          × (s'.tables ≡ outcome_tables event_id c embedding incident action s.tables)
  unfolding outcome_body settle_new settle_replay stage_outcome
  body_cases s incident action = ground arith

  pub record_body :
      (s : Store) (incident : IncidentRow) (action : ActionRow)
      → length embedding ≡ 1024
      → check_action c s.tables ≡ ok (incident, action)
      → record_outcome event_id c embedding s ≡ outcome_body event_id c embedding incident action s
  unfolding record_outcome
  record_body s incident action d e = ground arith

  record_refused :
      (s : Store)
      → (length embedding ≢ 1024) ⊎ ((x : Error) × (check_action c s.tables ≡ err x))
      → (record_outcome event_id c embedding s).1.tables ≡ s.tables
  unfolding record_outcome
  record_refused s (inl d) = ground arith
  record_refused s (inr (x, e)) = ground arith

  -- The tables after a call are those before it, or those of one new outcome.
  pub outcome_cases :
      (s : Store)
      → let s' = (record_outcome event_id c embedding s).1 in
        (s'.tables ≡ s.tables)
        ⊎ ((incident : IncidentRow) × (action : ActionRow) × IsNew c incident action s.tables
            × (s'.tables ≡ outcome_tables event_id c embedding incident action s.tables))
  outcome_cases s = elim (Bool-cases (length embedding == 1024)) [
    | inr d ↦ inl (record_refused s (inl (ground arith)))
    | inl d ↦ elim (Result-cases (check_action c s.tables)) [
      | inr (x, e) ↦ inl (record_refused s (inr (x, e)))
      | inl ((incident, action), e) ↦
          rw (record_body s incident action (ground arith) e) (found s incident action e)
    ]
  ]
    where
      found :
          (s : Store) (incident : IncidentRow) (action : ActionRow)
          → check_action c s.tables ≡ ok (incident, action)
          → let s' = (outcome_body event_id c embedding incident action s).1 in
            (s'.tables ≡ s.tables)
            ⊎ ((incident : IncidentRow) × (action : ActionRow) × IsNew c incident action s.tables
                × (s'.tables ≡ outcome_tables event_id c embedding incident action s.tables))
      found s incident action e = elim (body_cases s incident action) [
        | inl same ↦ inl same
        | inr (none_yet, new) ↦
            inr (incident, action, check-IsNew c s.tables incident action e none_yet, new)
      ]
