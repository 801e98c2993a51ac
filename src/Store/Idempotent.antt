-- ===== src/Store/Idempotent.antt =====
-- Recording an outcome twice
-- (backend/src/postmortem_backend/adapters/fakes.py, `record_outcome`).
use ckdb_aws.Base.{
  Bool, List, Option-cases, Result-cases, ap, arith, err, false, find?, if◌then◌else◌, inl, inr,
  length, nat_eq, none, ok, refl, some, sym, true, ◌∙◌, ◌≡◌,
}
use ckdb_aws.Base.Dict.{find?-put, get, get-put_self}
use ckdb_aws.Domain.{
  Datetime, Float, OutcomeCommand, OutcomeKind, OutcomeResult, Uuid, failed, no_effect,
  outcome_conflict, outcome_value, success, text_beq,
}
use ckdb_aws.Store.{
  ActionRow, EpisodeRow, IncidentRow, Store, Tables, action_episode, outcome_episode,
}
use ckdb_aws.Store.Outcome.{
  check_action, count_rollback, is_outcome_of, new_result, outcome_body, outcome_kind_eq,
  outcome_row, parse_outcome, record_outcome, replay, resolve, settle_new, settle_replay,
  stage_outcome,
}
use ckdb_aws.Store.Replay.{IsNew, check-IsNew, check_action_iff, outcome_tables, record_body}

pub parse-outcome_value : (o : OutcomeKind) → parse_outcome (outcome_value o) ≡ ok o
unfolding parse_outcome outcome_value text_beq
parse-outcome_value success = refl
parse-outcome_value failed = refl
parse-outcome_value no_effect = refl

replay_marks :
    (c : OutcomeCommand) (incident : IncidentRow) (action : ActionRow) (x : Uuid × EpisodeRow)
    (r : OutcomeResult)
    → replay c incident action x ≡ ok r
    → r.idempotent_replay ≡ true
unfolding replay
replay_marks c incident action (i, action_episode _ _ _ _ _ _ _ _ _ _ _ _) r h = cc
replay_marks c incident action (i, outcome_episode _ _ _ _ _ o _ _ _ _ _ _ _ _ _ _) r h =
    ground arith

module _ (event_id : Uuid) (c : OutcomeCommand) (embedding : List Float) where
  body_new :
      (s : Store) (incident : IncidentRow) (action : ActionRow) (r : OutcomeResult)
      → (outcome_body event_id c embedding incident action s).0 ≡ ok r
      → r.idempotent_replay ≡ false
      → let s' = (outcome_body event_id c embedding incident action s).1 in
        (find? (is_outcome_of c.action_id) s.tables.episodes ≡ none)
        × (r ≡ new_result event_id c incident action)
        × (s'.tables ≡ outcome_tables event_id c embedding incident action s.tables)
  unfolding outcome_body settle_new settle_replay stage_outcome
  body_new s incident action r h n =
      elim (Option-cases (find? (is_outcome_of c.action_id) s.tables.episodes)) [
        | inl e ↦ ground arith
        | inr (x, e) ↦ ground (arith, replay_marks c incident action x r)
      ]

  record_ok :
      (s : Store) (r : OutcomeResult)
      → (record_outcome event_id c embedding s).0 ≡ ok r
      → (incident : IncidentRow) × (action : ActionRow) × (check_action c s.tables
          ≡ ok (incident, action))
        × (record_outcome event_id c embedding s
            ≡ outcome_body event_id c embedding incident action s)
  unfolding record_outcome
  record_ok s r h = elim (Result-cases (check_action c s.tables)) [
    | inl ((incident, action), e) ↦ (incident, action, e, ground arith)
    | inr (x, e) ↦ absurd (ground arith)
  ]

  -- The result of a new outcome, and the tables after it.
  pub record-IsNew :
      (s : Store) (r : OutcomeResult)
      → (record_outcome event_id c embedding s).0 ≡ ok r
      → r.idempotent_replay ≡ false
      → let s' = (record_outcome event_id c embedding s).1 in
        (incident : IncidentRow) × (action : ActionRow) × IsNew c incident action s.tables
        × (r ≡ new_result event_id c incident action)
        × (s'.tables ≡ outcome_tables event_id c embedding incident action s.tables)
  record-IsNew s r h n =
      let (incident, action, e, b) = record_ok s r h in
      let (unrecorded, res, new) = body_new s incident action r (rw b at h) n in
      (incident, action, check-IsNew c s.tables incident action e unrecorded, res, rw b new)

-- Two commands on the same action.
pub record SameAction (c d : OutcomeCommand) : Type 0 where
  pub org_id : d.org_id ≡ c.org_id
  pub incident_id : d.incident_id ≡ c.incident_id
  pub service_id : d.service_id ≡ c.service_id
  pub action_id : d.action_id ≡ c.action_id

resolve_keeps :
    (o : OutcomeKind) (at : Datetime) (i : IncidentRow)
    → ((resolve o at i).org_id ≡ i.org_id) × ((resolve o at i).service_id ≡ i.service_id)
unfolding resolve
resolve_keeps success at i = (refl, refl)
resolve_keeps failed at i = (refl, refl)
resolve_keeps no_effect at i = (refl, refl)

module _ (event_id : Uuid) (c d : OutcomeCommand) (embedding : List Float) (incident : IncidentRow)
    (action : ActionRow) (t : Tables) (new : IsNew c incident action t)
    (same : SameAction c d) where
  check_again :
      check_action d (outcome_tables event_id c embedding incident action t)
      ≡ ok (
        resolve c.outcome c.observed_at incident,
        record action { outcome = outcome_value c.outcome },
      )
  check_again =
      let (ro, rs) = resolve_keeps c.outcome c.observed_at incident in
      let incidents' = (outcome_tables event_id c embedding incident action t).incidents in
      let actions' = (outcome_tables event_id c embedding incident action t).remediation_actions in
      (check_action_iff d _ _ _).1 (
        ap (λ k. get k incidents') same.incident_id ∙ get-put_self _ _ _,
        ro ∙ new.incident_org ∙ sym same.org_id,
        rs ∙ new.incident_service ∙ sym same.service_id,
        ap (λ k. get k actions') same.action_id ∙ get-put_self _ _ _,
        new.action_org ∙ sym same.org_id,
        new.action_incident ∙ sym same.incident_id,
        new.action_service ∙ sym same.service_id,
      )

  found_again :
      get event_id t.episodes ≡ none
      → find?
          (is_outcome_of d.action_id)
          (outcome_tables event_id c embedding incident action t).episodes
        ≡ some (
          event_id,
          outcome_row c embedding
              (resolve c.outcome c.observed_at incident)
              (record action { outcome = outcome_value c.outcome }),
        )
  unfolding outcome_row
  found_again fresh = rw same.action_id (
      find?-put (is_outcome_of c.action_id) t.episodes event_id _ new.unrecorded fresh
        (ground arith))

  replay_again :
      replay d
        (resolve c.outcome c.observed_at incident)
        (record action { outcome = outcome_value c.outcome })
        (
          event_id,
          outcome_row c embedding
              (resolve c.outcome c.observed_at incident)
              (record action { outcome = outcome_value c.outcome }),
        )
      ≡ (if outcome_kind_eq c.outcome d.outcome
          then ok (record (new_result event_id c incident action) { idempotent_replay = true })
          else err outcome_conflict)
  unfolding replay outcome_row
  replay_again =
      rw (parse-outcome_value c.outcome) (ground (arith, same.incident_id, same.action_id))

body_found :
    (event_id : Uuid) (d : OutcomeCommand) (embedding : List Float) (s : Store)
    (incident : IncidentRow) (action : ActionRow) (x : Uuid × EpisodeRow)
    → find? (is_outcome_of d.action_id) s.tables.episodes ≡ some x
    → outcome_body event_id d embedding incident action s
      ≡ settle_replay (replay d incident action x) s
unfolding outcome_body
body_found event_id d embedding s incident action x e = rw (e, outcome_body)

settle_test :
    (b : Bool) (r : OutcomeResult) (s : Store)
    → settle_replay (if b then ok r else err outcome_conflict) s
      ≡ (if b then (ok r, s) else (err outcome_conflict, count_rollback s))
unfolding settle_replay
settle_test true r s = refl
settle_test false r s = refl

module _ (event_id again_id : Uuid) (c d : OutcomeCommand) (embedding embedding' : List Float)
    (s : Store) (r : OutcomeResult) where
  -- Once an outcome is recorded under a fresh id, a second call on the same action, with an
  -- embedding of 1024 dimensions, writes no table: the same outcome is answered as before, with the same ids and time and marked as a
  -- replay, and leaves the store as it is; another outcome is a conflict, and counts a rollback.
  pub record_again :
      (record_outcome event_id c embedding s).0 ≡ ok r
      → r.idempotent_replay ≡ false
      → get event_id s.tables.episodes ≡ none
      → SameAction c d
      → length embedding' ≡ 1024
      → let s' = (record_outcome event_id c embedding s).1 in
        record_outcome again_id d embedding' s' ≡ (
          if outcome_kind_eq c.outcome d.outcome
          then (ok (record r { idempotent_replay = true }), s')
          else (err outcome_conflict, count_rollback s'))
  record_again h n fresh same dims =
      let s' = (record_outcome event_id c embedding s).1 in
      let (incident, action, new, res, tables) = record-IsNew event_id c embedding s r h n in
      let incident' = resolve c.outcome c.observed_at incident in
      let action' = record action { outcome = outcome_value c.outcome } in
      let checked : check_action d s'.tables ≡ ok (incident', action') =
        rw tables (check_again event_id c d embedding incident action s.tables new same) in
      record_body again_id d embedding' s' incident' action' dims checked
      ∙ body_found again_id d embedding' s' incident' action' _
          (rw tables (found_again event_id c d embedding incident action s.tables new same fresh))
      ∙ ap (λ x. settle_replay x s')
          (replay_again event_id c d embedding incident action s.tables new same)
      ∙ settle_test (outcome_kind_eq c.outcome d.outcome) _ s'
      ∙ ap
          (λ (q : OutcomeResult).
            (if outcome_kind_eq c.outcome d.outcome
              then (ok (record q { idempotent_replay = true }), s')
              else (err outcome_conflict, count_rollback s')))
          (sym res)
