-- ===== src/Store/Outcome.antt =====
-- `FakeAtomicRemediationStore.record_outcome`
-- (backend/src/postmortem_backend/adapters/fakes.py).
use ckdb_aws.Base.{
  Bool, List, Result, err, false, find?, guard, if◌then◌else◌, length, nat_eq, none, not, ok,
  required, some, string_eq, true, ◌&&◌, ◌+◌, ◌==◌, ◌>>=◌, ◌>>◌,
}
use ckdb_aws.Base.Dict.{get, put}
use ckdb_aws.Domain.{
  Datetime, Error, Float, OutcomeCommand, OutcomeKind, OutcomeResult, Text, Uuid, double, failed,
  no_effect, outcome_conflict, outcome_recording_error, outcome_text, outcome_value,
  provenance_error, success, text, text_eq, value_error,
}
use ckdb_aws.Store.{
  ActionRow, EpisodeRow, IncidentRow, Store, Tables, action_episode, fails_at,
  outcome_after_action_update, outcome_during_event_write, outcome_episode,
}

-- `OutcomeKind(value)`
unfoldable pub parse_outcome : Text → Result Error OutcomeKind
parse_outcome t =
    if t == text "success"
    then ok success
    else if t == text "failed"
    then ok failed
    else if t == text "no_effect"
    then ok no_effect
    else err value_error

abbrev pub outcome_kind_eq : OutcomeKind → OutcomeKind → Bool
outcome_kind_eq success success = true
outcome_kind_eq failed failed = true
outcome_kind_eq no_effect no_effect = true
outcome_kind_eq _ _ = false

-- An episode of type "outcome" whose metadata names the action.
abbrev pub is_outcome_of : Uuid → Uuid × EpisodeRow → Bool
is_outcome_of action (_, action_episode _ _ _ _ _ _ _ _ _ _ _ _) = false
is_outcome_of action (_, outcome_episode _ _ _ _ _ _ a _ _ _ _ _ _ _ _ _) = a == action

-- The first guard: both rows are there, and belong to the org, the incident and the service.
unfoldable pub check_action : OutcomeCommand → Tables → Result Error (IncidentRow × ActionRow)
unfolding get
check_action c t = do
  incident ← required (get c.incident_id t.incidents) provenance_error
  guard (incident.org_id == c.org_id && incident.service_id == c.service_id) provenance_error
  action ← required (get c.action_id t.remediation_actions) provenance_error
  guard
      (action.org_id == c.org_id
        && (action.incident_id == c.incident_id && action.target_id == c.service_id))
      provenance_error
  ok (incident, action)

-- An outcome that stands already: the same one is answered again, another is a conflict.
unfoldable pub replay :
    OutcomeCommand → IncidentRow → ActionRow → Uuid × EpisodeRow → Result Error OutcomeResult
unfolding parse_outcome
replay c incident action (_, action_episode _ _ _ _ _ _ _ _ _ _ _ _) = err value_error
replay c incident action
      (event_id, outcome_episode _ _ _ _ _ outcome _ _ _ _ _ _ _ _ _ created_at) =
    do
      recorded ← parse_outcome outcome
      guard (outcome_kind_eq recorded c.outcome) outcome_conflict
      ok (record {
        action_id = c.action_id;
        transaction_id = action.transaction_id;
        event_id = event_id;
        incident_id = c.incident_id;
        outcome = recorded;
        incident_status = incident.status;
        recorded_at = created_at;
        idempotent_replay = true;
      })

unfoldable pub resolve : OutcomeKind → Datetime → IncidentRow → IncidentRow
resolve success at incident = record incident { status = text "resolved"; resolved_at = some at }
resolve failed at incident = incident
resolve no_effect at incident = incident

unfoldable pub outcome_row : OutcomeCommand → List Float → IncidentRow → ActionRow → EpisodeRow
outcome_row c embedding incident action =
    outcome_episode c.org_id c.agent_id c.incident_id c.service_id (outcome_text c)
      (outcome_value c.outcome) c.action_id action.transaction_id action.action_type
      action.target_version c.error_signature incident.runbook_id (double 0x3fee666666666666)
      embedding c.observed_at c.observed_at

-- The writes of a new outcome, on the staged tables.
unfoldable pub stage_outcome :
    Uuid → OutcomeCommand → List Float → IncidentRow → ActionRow → Store → Result Error Tables
unfolding put
stage_outcome event_id c embedding incident action s = do
  let action' = record action { outcome = outcome_value c.outcome }
  guard (not (fails_at s.fail_at outcome_after_action_update)) outcome_recording_error
  let incident' = resolve c.outcome c.observed_at incident
  guard (not (fails_at s.fail_at outcome_during_event_write)) outcome_recording_error
  ok (record (s.tables) {
    incidents = put c.incident_id incident' s.tables.incidents;
    remediation_actions = put c.action_id action' s.tables.remediation_actions;
    episodes = put event_id (outcome_row c embedding incident' action') s.tables.episodes;
  })

abbrev pub new_result : Uuid → OutcomeCommand → IncidentRow → ActionRow → OutcomeResult
new_result event_id c incident action = record {
  action_id = c.action_id;
  transaction_id = action.transaction_id;
  event_id = event_id;
  incident_id = c.incident_id;
  outcome = c.outcome;
  incident_status = (resolve c.outcome c.observed_at incident).status;
  recorded_at = c.observed_at;
  idempotent_replay = false;
}

abbrev pub count_rollback : Store → Store
count_rollback s = record s { outcome_rollback_count = s.outcome_rollback_count + 1 }

-- The commit of a new outcome, or its rollback.
unfoldable pub settle_new :
    Result Error Tables → OutcomeResult → Store → Result Error OutcomeResult × Store
settle_new (ok t) r s =
    (ok r, record s { tables = t; outcome_commit_count = s.outcome_commit_count + 1 })
settle_new (err e) r s = (err e, count_rollback s)

-- A replay returns from inside the `try` block: nothing is committed, and nothing counted.
unfoldable pub settle_replay :
    Result Error OutcomeResult → Store → Result Error OutcomeResult × Store
settle_replay (ok r) s = (ok r, s)
settle_replay (err e) s = (err e, count_rollback s)

unfoldable pub outcome_body :
    Uuid
    → OutcomeCommand
    → List Float
    → IncidentRow
    → ActionRow
    → Store
    → Result Error OutcomeResult × Store
outcome_body event_id c embedding incident action s =
    elim (find? (is_outcome_of c.action_id) s.tables.episodes) [
      | some existing ↦ settle_replay (replay c incident action existing) s
      | none ↦
          settle_new (stage_outcome event_id c embedding incident action s)
            (new_result event_id c incident action) s
    ]

-- `event_id` is the id that `uuid4` draws for the new episode.
unfoldable pub record_outcome :
    Uuid → OutcomeCommand → List Float → Store → Result Error OutcomeResult × Store
record_outcome event_id c embedding s =
    if length embedding == 1024
    then (elim (check_action c s.tables) [
      | err e ↦ (err e, count_rollback s)
      | ok (incident, action) ↦ outcome_body event_id c embedding incident action s
    ])
    else (err outcome_recording_error, s)
