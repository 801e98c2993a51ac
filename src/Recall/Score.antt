-- ===== src/Recall/Score.antt =====
-- The scores of candidates (`_score_*`, `_recency`, `_runbook_scope_score` and `_ranked` of
-- backend/src/postmortem_backend/recall.py). A candidate keeps its score and what it is made of.
use ckdb_aws.Base.{
  Bool, Option, Result, err, false, if◌then◌else◌, length, ltb, min, nat_eq, none, not, ok, some,
  string_eq, true, ℕ, ◌&&◌, ◌-◌, ◌==◌, ◌>>=◌, ◌||◌,
}
use ckdb_aws.Domain.{
  Datetime, Error, Fields, Float, MemoryCandidate, RecallQuery, Text, Uuid, Value, bool, datetime,
  dict, end, field, float, lookup, str, text, text_eq, truthy, with_field, zero_division_error,
}
use ckdb_aws.Floats.{
  Builtins, FloatOps, float_one, float_two, float_zero, minus_ln_two, point_05, point_10, point_20,
  point_25, point_50, point_55, point_60, point_65, str_of,
}
use ckdb_aws.Recall.Eligible.{
  applicable_error_signatures, applicable_service_tags, aware_instant, count_of, meets,
  positive_provenance_count, signed_by, texts_of,
}
use ckdb_aws.Recall.Policy.{RecallPolicy}

-- `total_seconds()` of a time span
abbrev pub total_seconds : FloatOps → (micros : ℕ) → Float
total_seconds f micros = f.ratio micros 1000000

-- `a == b` of an optional id
abbrev is_same : Option Uuid → Uuid → Bool
is_same none b = false
is_same (some a) b = a == b

abbrev present : Option Value → Bool
present none = false
present (some v) = truthy v

-- `metadata.get(key) == text`
abbrev reads : Option Value → Text → Bool
reads (some (str s)) t = s == t
reads v t = false

-- `{**old, **new}`
unfoldable pub updated : (old new : Fields) → Fields
unfolding with_field
updated old end = old
updated old (field k v new) = updated (with_field k v old) new

unfoldable pub ranked : MemoryCandidate → (score : Float) → Fields → MemoryCandidate
unfolding updated
ranked candidate score metadata = record candidate {
  ranking_score = score;
  metadata = updated candidate.metadata metadata;
}

-- `_datetime`
unfoldable pub datetime_of : Builtins → Option Value → Result Error (Option Datetime)
unfolding str_of
datetime_of b none = ok none
datetime_of b (some (datetime d)) = ok (some d)
datetime_of b (some v) =
    if truthy v then (b.parse_datetime (str_of b v) >>= λ d. ok (some d)) else ok none

module _ (f : FloatOps) (b : Builtins) (policy : RecallPolicy) where
  -- `exp(-0.69314718056 * age_seconds / half_life_seconds)`
  unfoldable pub recency : RecallQuery → Option Datetime → Result Error Float
  recency query none = ok float_zero
  recency query (some t) =
      let age_seconds = total_seconds f (aware_instant query.as_of - aware_instant t) in
      let half_life_seconds = total_seconds f policy.recency_half_life in
      if policy.recency_half_life == 0
      then err zero_division_error
      else ok (f.exp (f.div (f.mul minus_ln_two age_seconds) half_life_seconds))

  -- `1.0 if the sets meet else (0.5 if there is no restriction else 0)`
  abbrev part_score : (fits unrestricted : Bool) → Float
  part_score fits unrestricted =
      if fits then float_one else if unrestricted then point_50 else float_zero

  unfoldable pub runbook_scope_score : RecallQuery → MemoryCandidate → Result Error Float
  unfolding texts_of
  runbook_scope_score query candidate = do
    tags ← texts_of b applicable_service_tags candidate.metadata
    signatures ← texts_of b applicable_error_signatures candidate.metadata
    ok (
        f.div
          (f.add (part_score (meets tags query.service_tags) (not (ltb 0 (length tags)))) (
            part_score (signed_by query.error_signature signatures)
              (not (ltb 0 (length signatures)))))
          float_two)

  -- Whether a candidate recalls an action that can be taken again.
  abbrev actionable : (successful : Bool) → MemoryCandidate → Bool
  actionable successful candidate =
      successful
      && ((elim candidate.runbook_id [ none ↦ false | some r ↦ true ])
          || (present (lookup (text "action_id") candidate.metadata)
              || present (lookup (text "successful_action") candidate.metadata)))

  unfoldable pub score_episode : RecallQuery → MemoryCandidate → Result Error MemoryCandidate
  unfolding recency ranked lookup
  score_episode query candidate = do
    recent ← recency query candidate.occurred_at
    let success = reads (lookup (text "outcome") candidate.metadata) (text "success")
    let successful = if success then float_one else float_zero
    let scope = if is_same candidate.service_id query.service_id then float_one else point_50
    ok (
        ranked candidate
          (f.add
            (f.add (f.add (f.mul point_65 candidate.similarity) (f.mul point_20 recent))
              (f.mul point_10 successful))
            (f.mul point_05 scope))
          (field (text "actionable") (bool (actionable success candidate)) (
            field (text "rank_components")
              (dict (
                field (text "similarity") (float candidate.similarity) (
                  field (text "recency") (float recent) (
                    field (text "successful_outcome") (float successful)
                      (field (text "scope") (float scope) end)))))
              end)))

  unfoldable pub score_fact : RecallQuery → MemoryCandidate → Result Error MemoryCandidate
  unfolding recency ranked
  score_fact query candidate = do
    recent ← recency query candidate.recorded_at
    let provenance = f.ratio (min (length candidate.provenance_ids) 3) 3
    ok (
        ranked candidate
          (f.add
            (f.add
              (f.add (f.mul point_60 candidate.similarity) (f.mul point_25 candidate.confidence))
              (f.mul point_10 recent))
            (f.mul point_05 provenance))
          (field (text "actionable") (bool false) (
            field (text "rank_components")
              (dict (
                field (text "similarity") (float candidate.similarity) (
                  field (text "confidence") (float candidate.confidence) (
                    field (text "recency") (float recent)
                      (field (text "provenance") (float provenance) end)))))
              end)))

  unfoldable pub score_runbook : RecallQuery → MemoryCandidate → Result Error MemoryCandidate
  unfolding recency ranked datetime_of count_of runbook_scope_score lookup
  score_runbook query candidate = do
    used ← datetime_of b (lookup (text "last_used_at") candidate.metadata)
    recent ← recency query (elim used [ none ↦ candidate.recorded_at | some t ↦ some t ])
    positive ← count_of b positive_provenance_count candidate.metadata
    let provenance = f.ratio (min positive 3) 3
    scope ← runbook_scope_score query candidate
    ok (
        ranked candidate
          (f.add
            (f.add
              (f.add
                (f.add (f.mul point_55 candidate.similarity)
                  (f.mul point_25 candidate.success_rate))
                (f.mul point_10 recent))
              (f.mul point_05 provenance))
            (f.mul point_05 scope))
          (field (text "actionable") (bool true) (
            field (text "provenance_verified") (bool true) (
              field (text "rank_components")
                (dict (
                  field (text "similarity") (float candidate.similarity) (
                    field (text "success_rate") (float candidate.success_rate) (
                      field (text "recency") (float recent) (
                        field (text "provenance") (float provenance)
                          (field (text "scope") (float scope) end))))))
                end))))
