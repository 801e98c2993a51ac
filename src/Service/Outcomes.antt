-- ===== src/Service/Outcomes.antt =====
-- `OutcomeService.record` of backend/src/postmortem_backend/service.py. The two calls act on the
-- state behind the ports; the clock reads `elapsed_ms` milliseconds since the recorded time, and 0
-- where that time lies ahead. The subtraction raises where the recorded time has no time zone.
use ckdb_aws.Action.{Action, ◌>>=◌}
use ckdb_aws.Base.{
  Bool-cases, List, Result, Result-cases, [], ap, err, false, if◌then◌else◌, inl, inr, length,
  nat_eq, none, ok, refl, string_eq, true, ℕ, ◌++◌, ◌∙◌, ◌∷◌, ◌≡◌, ◌⊎◌,
}
use ckdb_aws.Base.Dict.{get}
use ckdb_aws.Domain.{
  Datetime, Error, Float, OutcomeCommand, OutcomeResult, Text, Uuid, aware, naive, outcome_conflict,
  outcome_recorded, outcome_text, outcome_value, text, text_eq, type_error, uuid_text,
}
use ckdb_aws.Events.{AgentEvent, outcome_data}
use ckdb_aws.Service.Turn.{Turn, on_backend, on_env}
use ckdb_aws.Store.{Store}
use ckdb_aws.Store.Idempotent.{SameAction, record_again}
use ckdb_aws.Store.Outcome.{outcome_kind_eq, record_outcome}

pub record OutcomePorts (E S : Type 0) : Type 0 where
  pub embed : Text → E → Result Error (List Float) × E
  pub record_outcome : OutcomeCommand → List Float → S → Result Error OutcomeResult × S

abbrev pub outcome_event : OutcomeCommand → OutcomeResult → (elapsed_ms : ℕ) → AgentEvent
outcome_event command result elapsed_ms = record {
  incident_id = command.incident_id;
  event_type = outcome_recorded;
  stage = "record";
  message =
      text "Recorded "
      ++ (outcome_value command.outcome
          ++ (text " outcome for action " ++ (uuid_text command.action_id ++ text ".")));
  payload =
      outcome_data result.event_id command.summary elapsed_ms command.action_id
        result.transaction_id (outcome_value command.outcome) result.incident_status
        result.idempotent_replay;
}

unfoldable pub announce :
    {E S : Type 0} → OutcomeCommand → OutcomeResult → (elapsed_ms : ℕ) → Turn E S → Turn E S
announce command result elapsed_ms w = record w {
  published =
      if result.idempotent_replay
      then w.published
      else w.published ++ outcome_event command result elapsed_ms ∷ [];
}

-- `datetime.now(UTC) - recorded_at`, in milliseconds.
unfoldable pub freshness_ms : (recorded_at : Datetime) (elapsed_ms : ℕ) → Result Error ℕ
freshness_ms (naive t) elapsed_ms = err type_error
freshness_ms (aware t) elapsed_ms = ok elapsed_ms

unfoldable pub record_result :
    {E S : Type 0}
    → OutcomePorts E S
    → (elapsed_ms : ℕ) → OutcomeCommand
    → Action (Turn E S) OutcomeResult
unfolding ◌>>=◌ announce outcome_text freshness_ms
record_result ports elapsed_ms command =
    on_env (ports.embed (outcome_text command)) >>= λ embedding.
    on_backend (ports.record_outcome command embedding) >>= λ result.
    (λ w. (freshness_ms result.recorded_at elapsed_ms, w)) >>= λ freshness w.
    (ok result, announce command result freshness w)

-- The ports over the store, with the id that it will draw for the episode.
abbrev pub stored_outcomes :
    {E : Type 0}
    → (Text → E → Result Error (List Float) × E)
    → (event_id : Uuid) → OutcomePorts E Store
stored_outcomes embed event_id = record { embed = embed; record_outcome = record_outcome event_id }

Datetime-cases : (d : Datetime) → ((t : ℕ) × (d ≡ aware t)) ⊎ ((t : ℕ) × (d ≡ naive t))
Datetime-cases (aware t) = inl (t, refl)
Datetime-cases (naive t) = inr (t, refl)

module _ {E : Type 0} (embed : Text → E → Result Error (List Float) × E) (event_id : Uuid)
    (elapsed_ms : ℕ) (c : OutcomeCommand) (w : Turn E Store) (embedding : List Float)
    (embedded : (embed (outcome_text c) w.env).0 ≡ ok embedding) where
  recorded : Result Error OutcomeResult × Turn E Store
  recorded = record_result (stored_outcomes embed event_id) elapsed_ms c w

  recorded_backend : recorded.1.backend ≡ (record_outcome event_id c embedding w.backend).1
  unfolding recorded record_result announce freshness_ms ◌>>=◌
  recorded_backend = elim (Result-cases (record_outcome event_id c embedding w.backend).0) [
    | inl (r, p) ↦ elim (Datetime-cases r.recorded_at) [
      | inl (t, q) ↦ rw (embedded, p, q) refl
      | inr (t, q) ↦ rw (embedded, p, q) refl
    ]
    | inr (e, p) ↦ rw (embedded, p) refl
  ]

  recorded_ok :
      (r : OutcomeResult) (t : ℕ)
      → (record_outcome event_id c embedding w.backend).0 ≡ ok r
      → r.recorded_at ≡ aware t
      → (recorded.0 ≡ ok r)
        × (recorded.1.published ≡ (
            if r.idempotent_replay
            then w.published
            else w.published ++ outcome_event c r elapsed_ms ∷ []))
  unfolding recorded record_result announce freshness_ms ◌>>=◌
  recorded_ok r t p q = rw (embedded, p, q) (refl, refl)

  recorded_err :
      (e : Error)
      → (record_outcome event_id c embedding w.backend).0 ≡ err e
      → (recorded.0 ≡ err e) × (recorded.1.published ≡ w.published)
  unfolding recorded record_result announce freshness_ms ◌>>=◌
  recorded_err e p = rw (embedded, p) (refl, refl)

-- When an outcome has been recorded for the first time, at a time with a time zone and under an id
-- that was not in use, and
-- an outcome of the same action is recorded again, with an embedding of the right dimension, the
-- two calls publish one event, of the first. The second call answers as the first did, marked as
-- a replay, if the outcome is the same, and raises a conflict if it is not.
pub record_once :
    {E : Type 0} (embed : Text → E → Result Error (List Float) × E) (event_id again_id : Uuid)
    (elapsed_ms elapsed_ms' : ℕ) (c d : OutcomeCommand) (w : Turn E Store)
    (embedding embedding' : List Float) (r : OutcomeResult) (t : ℕ)
    → (embed (outcome_text c) w.env).0 ≡ ok embedding
    → (record_outcome event_id c embedding w.backend).0 ≡ ok r
    → r.recorded_at ≡ aware t
    → r.idempotent_replay ≡ false
    → get event_id w.backend.tables.episodes ≡ none
    → SameAction c d
    → let first = record_result (stored_outcomes embed event_id) elapsed_ms c w in
      (embed (outcome_text d) first.1.env).0 ≡ ok embedding'
      → length embedding' ≡ 1024
      → let second = record_result (stored_outcomes embed again_id) elapsed_ms' d first.1 in
        (second.1.published ≡ w.published ++ outcome_event c r elapsed_ms ∷ [])
        × (second.0 ≡ (
            if outcome_kind_eq c.outcome d.outcome
            then ok (record r { idempotent_replay = true })
            else err outcome_conflict))
unfolding recorded
record_once embed event_id again_id elapsed_ms elapsed_ms' c d w embedding embedding' r t embedded
      done zoned new fresh same embedded' dims =
    let first = record_result (stored_outcomes embed event_id) elapsed_ms c w in
    let kept = recorded_backend embed event_id elapsed_ms c w embedding embedded in
    let told : first.1.published ≡ w.published ++ outcome_event c r elapsed_ms ∷ [] =
      (recorded_ok embed event_id elapsed_ms c w embedding embedded r t done zoned).1
      ∙ ap (λ b. if b then w.published else w.published ++ outcome_event c r elapsed_ms ∷ []) new in
    let again =
      ap (record_outcome again_id d embedding') kept
      ∙ record_again event_id again_id c d embedding embedding' w.backend r done new fresh same
          dims in
    elim (Bool-cases (outcome_kind_eq c.outcome d.outcome)) [
      | inl p ↦
          let replay : OutcomeResult = record r { idempotent_replay = true } in
          let answer : (record_outcome again_id d embedding' first.1.backend).0 ≡ ok replay =
            ap (λ x. x.0) (rw p at again) in
          let (answers, published) =
            recorded_ok embed again_id elapsed_ms' d first.1 embedding' embedded' replay t answer
              zoned in
          rw p (published ∙ told, answers)
      | inr p ↦
          let answer : (record_outcome again_id d embedding' first.1.backend).0
              ≡ err outcome_conflict =
            ap (λ x. x.0) (rw p at again) in
          let (raises, published) =
            recorded_err embed again_id elapsed_ms' d first.1 embedding' embedded' outcome_conflict
              answer in
          rw p (published ∙ told, raises)
    ]
