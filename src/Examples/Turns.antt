-- ===== src/Examples/Turns.antt =====
-- The theorems on a turn at concrete inputs.
use ckdb_aws.Examples.Recalls.{plain_builtins}
use ckdb_aws.Action.{◌>>=◌}
use ckdb_aws.Base.{
  All, List, Result, [], err, false, if◌then◌else◌, nat_eq, none, ok, refl, some, string_eq, true,
  ◌∷◌, ◌≡◌, ◌⊎◌,
}
use ckdb_aws.Base.Dict.{get, put}
use ckdb_aws.Domain.{
  AgentDecision, Error, Float, IncidentSignal, RecallBundle, RecallQuery, RemediationCommand,
  ResponseResult, Text, all_candidates, double, naive, outcome_conflict, outcome_text,
  outcome_value, reasoning_error, remediate, success, text, text_beq, text_eq, type_error,
}
use ckdb_aws.Examples.Data.{
  bundle, command, ids, now, outcome, plain, remediated, resolved, seeded, signal, vector,
}
use ckdb_aws.Examples.Stores.{recorded_ok}
use ckdb_aws.Guardrails.Injection.{sanitize_signal}
use ckdb_aws.Guardrails.Patterns.{contains_tool_call_injection}
use ckdb_aws.Guardrails.Screened.{CleanCandidate, CleanSignal}
use ckdb_aws.Service.Ends.{Ends, handle_events}
use ckdb_aws.Service.Handle.{handle}
use ckdb_aws.Service.Outcomes.{
  announce, freshness_ms, outcome_event, record_once, record_result, stored_outcomes,
}
use ckdb_aws.Service.Safe.{Executed, Idle, handle_acts}
use ckdb_aws.Service.Screens.{handle_screens}
use ckdb_aws.Service.Stored.{stored, turn_all_or_nothing}
use ckdb_aws.Service.Turn.{Ports, Turn}
use ckdb_aws.Store.{Store, init, seed, supported}
use ckdb_aws.Store.Committed.{Committed}
use ckdb_aws.Store.Outcome.{
  check_action, outcome_body, outcome_kind_eq, outcome_row, parse_outcome, record_outcome, replay,
  resolve, settle_new, settle_replay, stage_outcome,
}
use ckdb_aws.Store.Remediate.{
  audit_write, bump, check_target, count_usage, memory_write, operational_write,
  remediate_and_record, remediation_result, seed_missing, settle, stage_remediation, transact,
  validate,
}

abbrev embed : Text → Unit {0} → Result Error (List Float) × Unit {0}
embed t e = (ok vector, e)

abbrev recall : RecallQuery → Unit {0} → Result Error RecallBundle × Unit {0}
recall q e = (ok bundle, e)

abbrev decide : IncidentSignal → RecallBundle → Unit {0} → Result Error AgentDecision × Unit {0}
decide s m e = (
  ok (record {
    kind = remediate;
    explanation = text "as before";
    cited_memory_id = some 6;
    command = some command;
    confidence = double 0;
  }),
  e,
)

-- A reasoner that raises on a summary with a tool call in it.
abbrev careful : IncidentSignal → RecallBundle → Unit {0} → Result Error AgentDecision × Unit {0}
careful s m e =
    if contains_tool_call_injection plain s.summary then (err reasoning_error, e) else decide s m e

abbrev before : Turn (Unit {0}) Store
before = record {
  env = tt;
  backend = seeded;
  registry = record { signals = []; results = [] };
  published = [];
  transaction_started = false;
}

abbrev pub ports : Ports (Unit {0}) Store
ports = stored ids plain_builtins embed recall decide

abbrev after : Result Error ResponseResult × Turn (Unit {0}) Store
after = handle ports plain now signal true none before

turn_all_or_nothing_example :
    ((after.1.backend.tables ≡ seeded.tables)
      × ((x : ResponseResult) → after.0 ≡ ok x → x.remediation ≡ none))
    ⊎ ((c : RemediationCommand) × (embedding : List Float) × (x : ResponseResult) × (after.0 ≡ ok x)
        × (x.remediation ≡ some (remediation_result ids))
        × Committed ids c embedding seeded.tables after.1.backend.tables)
unfolding seed init
turn_all_or_nothing_example =
    turn_all_or_nothing ids plain_builtins embed recall decide plain now signal true none before
      refl

handle_acts_example :
    Idle seeded after.0 after.1.backend
    ⊎ Executed ports plain now signal true none seeded after.0 after.1.backend
handle_acts_example = handle_acts ports plain now signal true none before

handle_events_example :
    ((e : Error) × (sanitize_signal plain signal ≡ err e)
      × (after ≡ (err e, record before { transaction_started = false })))
    ⊎ ((s : IncidentSignal) × (sanitize_signal plain signal ≡ ok s)
        × Ends s [] after.0 after.1.published)
handle_events_example = handle_events ports plain now signal true none before

agree :
    (s : IncidentSignal) (m : RecallBundle) (e : Unit {0})
    → CleanSignal plain s
    → All (CleanCandidate plain) (all_candidates m)
    → decide s m e ≡ careful s m e
agree s m e clean _ = rw (clean.summary.harmless) refl

handle_screens_example :
    after ≡ handle (record ports { decide = careful }) plain now signal true none before
handle_screens_example = handle_screens ports plain now careful agree signal true none before

abbrev recording : Turn (Unit {0}) Store
recording = record before { backend = remediated }

record_once_example :
    let first = record_result (stored_outcomes embed 20) 5 outcome recording in
    let second = record_result (stored_outcomes embed 21) 9 outcome first.1 in
    (second.1.published ≡ outcome_event outcome resolved 5 ∷ [])
    × (second.0 ≡ (
        if outcome_kind_eq success success
        then ok (record resolved { idempotent_replay = true })
        else err outcome_conflict))
unfolding remediate_and_record validate supported transact settle stage_remediation check_target
    seed init put get seed_missing operational_write memory_write audit_write count_usage bump
record_once_example =
    record_once embed 20 21 5 9 outcome outcome recording vector vector resolved 1000 refl
      recorded_ok refl refl refl
      (record { org_id = refl; incident_id = refl; service_id = refl; action_id = refl }) refl refl

-- An outcome without a time zone is committed, and then the call raises and publishes nothing.
naive_raises :
    let after =
      record_result
        (stored_outcomes embed 20)
        5
        (record outcome { observed_at = naive 5 })
        recording in
    (after.0 ≡ err type_error)
    × (after.1.published ≡ [])
    × (after.1.backend.outcome_commit_count ≡ 1)
unfolding remediate_and_record validate supported transact settle stage_remediation check_target
    seed init put get seed_missing operational_write memory_write audit_write count_usage bump
    record_outcome check_action outcome_body settle_new stage_outcome outcome_row resolve text_beq
    outcome_value parse_outcome replay settle_replay record_result freshness_ms announce
    outcome_text ◌>>=◌
naive_raises = (refl, refl, refl)
