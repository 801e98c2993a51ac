-- ===== src/Store/Atomic.antt =====
-- What an error leaves behind in the two transactions of
-- backend/src/postmortem_backend/adapters/fakes.py.
use ckdb_aws.Base.{
  Bool-cases, List, Result-cases, arith, err, inl, inr, length, nat_eq, ok, ◌+◌, ◌==◌, ◌≡◌, ◌≢◌,
  ◌⊎◌,
}
use ckdb_aws.Domain.{Error, Float, OutcomeCommand, RemediationCommand, Uuid}
use ckdb_aws.Store.{Store}
use ckdb_aws.Store.Outcome.{count_rollback, outcome_body, record_outcome, settle_new, settle_replay}
use ckdb_aws.Store.Remediate.{Ids, remediate_and_record, seed_missing, settle, transact, validate}

transact_error :
    (ids : Ids) (c : RemediationCommand) (embedding : List Float) (s : Store) (e : Error)
    → (transact ids c embedding s).0 ≡ err e
    → (transact ids c embedding s).1 ≡ record s { rollback_count = s.rollback_count + 1 }
unfolding transact settle
transact_error ids c embedding s e h = ground arith

-- A remediation that raises has written no table: the store is the one before the call, or, past
-- validation, the store with the rows that `auto_seed` adds before the transaction and one more
-- rollback counted.
pub remediate_error :
    (ids : Ids) (c : RemediationCommand) (embedding : List Float) (s : Store) (e : Error)
    → (remediate_and_record ids c embedding s).0 ≡ err e
    → let s' = (remediate_and_record ids c embedding s).1 in
      (validate c embedding ≡ err e) × (s' ≡ s)
      ⊎ (validate c embedding ≡ ok tt)
        × (s'
            ≡ record (seed_missing c s) { rollback_count = (seed_missing c s).rollback_count + 1 })
unfolding remediate_and_record
remediate_error ids c embedding s e h = elim (Result-cases (validate c embedding)) [
  | inl (a, v) ↦ inr (v, ground (arith, transact_error ids c embedding (seed_missing c s) e))
  | inr (x, v) ↦ inl (ground arith, ground arith)
]

-- An outcome that raises has written nothing, and counts at most one rollback.
pub outcome_error :
    (event_id : Uuid) (c : OutcomeCommand) (embedding : List Float) (s : Store) (e : Error)
    → (record_outcome event_id c embedding s).0 ≡ err e
    → let s' = (record_outcome event_id c embedding s).1 in
      (length embedding ≢ 1024) × (s' ≡ s) ⊎ (length embedding ≡ 1024) × (s' ≡ count_rollback s)
unfolding record_outcome outcome_body settle_new settle_replay
outcome_error event_id c embedding s e h = elim (Bool-cases (length embedding == 1024)) [
  | inl d ↦ inr (ground arith, ground arith)
  | inr d ↦ inl (ground arith, ground arith)
]
