-- ===== src/Examples/Stores.antt =====
-- The store's theorems at concrete inputs.
use ckdb_aws.Base.{
  err, false, if◌then◌else◌, length, nat_eq, ok, refl, some, string_eq, true, ◌+◌, ◌↔◌, ◌≡◌, ◌≢◌,
  ◌⊎◌,
}
use ckdb_aws.Base.Dict.{get, put}
use ckdb_aws.Domain.{
  OutcomeCommand, atomic_remediation_error, failed, outcome_conflict, outcome_value,
  provenance_error, success, text_beq, text_eq,
}
use ckdb_aws.Examples.Data.{command, ids, outcome, remediated, resolved, seeded, vector}
use ckdb_aws.Store.{Store, during_memory_write, init, seed, supported}
use ckdb_aws.Store.Accepts.{Accepts, remediate_ok_iff}
use ckdb_aws.Store.Atomic.{outcome_error, remediate_error}
use ckdb_aws.Store.Committed.{Committed, remediate_commits}
use ckdb_aws.Store.History.{Reach-Consistent, records, remediates, seeds, start, then_step}
use ckdb_aws.Store.Idempotent.{record_again}
use ckdb_aws.Store.Linked.{Consistent}
use ckdb_aws.Store.Outcome.{
  check_action, count_rollback, outcome_body, outcome_kind_eq, outcome_row, parse_outcome,
  record_outcome, replay, resolve, settle_new, settle_replay, stage_outcome,
}
use ckdb_aws.Store.Remediate.{
  audit_write, bump, check_target, count_usage, memory_write, operational_write,
  remediate_and_record, remediation_result, seed_missing, settle, stage_remediation, transact,
  validate,
}

outcome_ok : (remediate_and_record ids command vector seeded).0 ≡ ok (remediation_result ids)
unfolding remediate_and_record validate supported transact settle stage_remediation check_target
    seed init put get seed_missing operational_write memory_write audit_write count_usage bump
outcome_ok = refl

pub recorded_ok : (record_outcome 20 outcome vector remediated).0 ≡ ok resolved
unfolding remediate_and_record validate supported transact settle stage_remediation check_target
    seed init put get seed_missing operational_write memory_write audit_write count_usage bump
    record_outcome check_action outcome_body settle_new stage_outcome outcome_row resolve text_beq
    outcome_value parse_outcome replay settle_replay
recorded_ok = refl

Reach-Consistent_example : Consistent (record_outcome 20 outcome vector remediated).1.tables
unfolding remediate_and_record validate supported transact settle stage_remediation check_target
    seed init put get seed_missing operational_write memory_write audit_write count_usage bump
Reach-Consistent_example = Reach-Consistent false (record_outcome 20 outcome vector remediated).1 (
    then_step
      (then_step (then_step start (seeds (init false) 5 3 6 1))
        (remediates seeded ids command vector (record { event = refl; action = refl })))
      (records remediated 20 outcome vector refl))

remediate_commits_example :
    (remediation_result ids ≡ remediation_result ids)
    × Committed ids command vector (seed_missing command seeded).tables remediated.tables
    × (remediated.commit_count ≡ seeded.commit_count + 1)
    × (remediated.rollback_count ≡ seeded.rollback_count)
remediate_commits_example =
    remediate_commits ids command vector seeded (remediation_result ids) outcome_ok

remediate_ok_iff_example :
    ((remediate_and_record ids command vector seeded).0 ≡ ok (remediation_result ids))
    ↔ Accepts command vector seeded
remediate_ok_iff_example = remediate_ok_iff ids command vector seeded

abbrev faulty : Store
faulty = record seeded { fail_at = some during_memory_write }

remediate_error_example :
    (validate command vector ≡ err atomic_remediation_error)
      × ((remediate_and_record ids command vector faulty).1 ≡ faulty)
    ⊎ (validate command vector ≡ ok tt)
      × ((remediate_and_record ids command vector faulty).1 ≡ record (seed_missing command faulty) {
        rollback_count = (seed_missing command faulty).rollback_count + 1;
      })
unfolding remediate_and_record validate supported transact settle stage_remediation check_target
    seed init put get seed_missing operational_write memory_write audit_write count_usage bump
remediate_error_example = remediate_error ids command vector faulty atomic_remediation_error refl

outcome_error_example :
    let s' = (record_outcome 20 outcome vector seeded).1 in
    (length vector ≢ 1024) × (s' ≡ seeded) ⊎ (length vector ≡ 1024) × (s' ≡ count_rollback seeded)
unfolding remediate_and_record validate supported transact settle stage_remediation check_target
    seed init put get seed_missing operational_write memory_write audit_write count_usage bump
    record_outcome check_action outcome_body settle_new stage_outcome outcome_row resolve text_beq
    outcome_value parse_outcome replay settle_replay
outcome_error_example = outcome_error 20 outcome vector seeded provenance_error refl

abbrev other_outcome : OutcomeCommand
other_outcome = record outcome { outcome = failed }

record_again_example :
    let s' = (record_outcome 20 outcome vector remediated).1 in
    record_outcome 21 other_outcome vector s' ≡ (
      if outcome_kind_eq success failed
      then (ok (record resolved { idempotent_replay = true }), s')
      else (err outcome_conflict, count_rollback s'))
unfolding remediate_and_record validate supported transact settle stage_remediation check_target
    seed init put get seed_missing operational_write memory_write audit_write count_usage bump
record_again_example =
    record_again 20 21 outcome other_outcome vector vector remediated resolved recorded_ok refl refl
      (record { org_id = refl; incident_id = refl; service_id = refl; action_id = refl }) refl
