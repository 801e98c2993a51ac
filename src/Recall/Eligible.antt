-- ===== src/Recall/Eligible.antt =====
-- The gates a candidate passes before it is ranked (`_scope_valid`, `_temporally_valid` and the
-- three `_*_eligible` of backend/src/postmortem_backend/recall.py). A set of texts is the list it
-- was made of.
use ckdb_aws.Base.{
  Bool, List, Option, Result, [], any, elem, err, false, if◌then◌else◌, leb, length, ltb, map, max,
  nat_eq, none, not, ok, some, string_eq, true, ℕ, ◌&&◌, ◌+◌, ◌-◌, ◌==◌, ◌>>=◌, ◌||◌, ◌∷◌,
}
use ckdb_aws.Domain.{
  Datetime, Error, Fields, Items, MemoryCandidate, MemoryKind, RecallQuery, Text, Uuid, Value,
  aware, dict, end, episodic, field, item, list, lookup, naive, nil, procedural, semantic, str,
  text, text_eq, truthy, tuple, type_error,
}
use ckdb_aws.Floats.{Builtins, FloatOps, str_of, int_of}
use ckdb_aws.Recall.Policy.{RecallPolicy}

-- `_aware`: a time without a zone is taken as UTC.
abbrev pub aware_instant : Datetime → ℕ
aware_instant (naive t) = t
aware_instant (aware t) = t

-- `t is not None and test(_aware(t))`
abbrev pub when : Option Datetime → (ℕ → Bool) → Bool
when none test = false
when (some t) test = test (aware_instant t)

-- `a is not None and a != b`
abbrev pub differs : Option Uuid → Uuid → Bool
differs none b = false
differs (some a) b = not (a == b)

unfoldable pub scope_valid : RecallQuery → MemoryCandidate → Bool
scope_valid query candidate =
    if differs candidate.org_id query.org_id
    then false
    else if differs candidate.agent_id query.agent_id
    then false
    else not (differs candidate.service_id query.service_id)

unfoldable pub temporally_valid : RecallQuery → MemoryCandidate → Bool
temporally_valid query candidate =
    let as_of = aware_instant query.as_of in
    if when candidate.valid_from (λ t. ltb as_of t)
    then false
    else if when candidate.valid_to (λ t. leb t as_of)
    then false
    else if when candidate.recorded_at (λ t. ltb as_of t)
    then false
    else not (when candidate.occurred_at (λ t. ltb as_of t))

-- `value is kind`
abbrev pub kind_is : MemoryKind → MemoryKind → Bool
kind_is episodic episodic = true
kind_is semantic semantic = true
kind_is procedural procedural = true
kind_is a b = false

-- `int(metadata.get(key) or 0)`
unfoldable pub count_of : Builtins → (key : Text) → Fields → Result Error ℕ
unfolding lookup int_of
count_of b key metadata = elim (lookup key metadata) [
  | none ↦ ok 0
  | some v ↦ if truthy v then int_of b v else ok 0
]

abbrev items_list : Items → List Value
items_list nil = []
items_list (item v xs) = v ∷ items_list xs

abbrev keys_list : Fields → List Value
keys_list end = []
keys_list (field k v d) = str k ∷ keys_list d

-- `iter(value)`
abbrev iterated : Value → Result Error (List Value)
iterated (tuple xs) = ok (items_list xs)
iterated (list xs) = ok (items_list xs)
iterated (str t) = ok (map (λ c. str (c ∷ [])) t)
iterated (dict d) = ok (keys_list d)
iterated v = err type_error

-- `{str(value) for value in metadata.get(key) or ()}`
unfoldable pub texts_of : Builtins → (key : Text) → Fields → Result Error (List Text)
unfolding lookup str_of
texts_of b key metadata = elim (lookup key metadata) [
  | none ↦ ok []
  | some v ↦ if truthy v then (iterated v >>= λ vs. ok (map (str_of b) vs)) else ok []
]

abbrev pub usage_count : Text
usage_count = text "usage_count"

abbrev pub positive_provenance_count : Text
positive_provenance_count = text "positive_provenance_count"

abbrev pub counterexample_count : Text
counterexample_count = text "counterexample_count"

abbrev pub applicable_service_tags : Text
applicable_service_tags = text "applicable_service_tags"

abbrev pub applicable_error_signatures : Text
applicable_error_signatures = text "applicable_error_signatures"

-- `signature in signatures`: `None` is no text.
abbrev pub signed_by : Option Text → List Text → Bool
signed_by none signatures = false
signed_by (some s) signatures = elem s signatures

-- Whether the sets meet.
abbrev pub meets : List Text → List Text → Bool
meets tags service_tags = any (λ t. elem t service_tags) tags

module _ (f : FloatOps) (b : Builtins) (policy : RecallPolicy) where
  unfoldable pub episode_eligible : RecallQuery → MemoryCandidate → Result Error Bool
  unfolding scope_valid temporally_valid
  episode_eligible query candidate =
      if not (kind_is candidate.kind episodic)
      then ok false
      else if not (scope_valid query candidate) || not (temporally_valid query candidate)
      then ok false
      else if f.lt candidate.similarity policy.min_episode_similarity
      then ok false
      else if when candidate.occurred_at
          (λ t. ltb policy.max_episode_age (aware_instant query.as_of - t))
      then ok false
      else ok true

  unfoldable pub fact_eligible : RecallQuery → MemoryCandidate → Result Error Bool
  unfolding scope_valid temporally_valid
  fact_eligible query candidate = ok (
      kind_is candidate.kind semantic
      && (scope_valid query candidate
          && (temporally_valid query candidate
              && (f.le policy.min_fact_similarity candidate.similarity
                  && f.le policy.min_fact_confidence candidate.confidence))))

  -- The first `if` of `_runbook_eligible`
  unfoldable pub runbook_barred : RecallQuery → MemoryCandidate → Bool
  unfolding scope_valid temporally_valid
  runbook_barred query candidate =
      not (kind_is candidate.kind procedural)
      || (not (scope_valid query candidate)
          || (not (temporally_valid query candidate)
              || (f.lt candidate.similarity policy.min_runbook_similarity
                  || f.lt candidate.success_rate policy.min_runbook_success_rate)))

  -- The tests of the three counts
  unfoldable pub well_proven : (usage positive counterexamples : ℕ) → Bool
  well_proven usage positive counterexamples =
      if ltb usage policy.min_runbook_usage_count
      then false
      else if ltb positive policy.min_positive_provenance
      then false
      else not (
          f.lt policy.max_counterexample_ratio
            (f.ratio counterexamples (max (positive + counterexamples) 1)))

  -- The tags and the signatures a runbook applies to; with none it applies to all.
  unfoldable pub applicable : RecallQuery → MemoryCandidate → Result Error Bool
  unfolding texts_of
  applicable query candidate = do
    tags ← texts_of b applicable_service_tags candidate.metadata
    if not (ltb 0 (length tags)) || meets tags query.service_tags
        then (do
          signatures ← texts_of b applicable_error_signatures candidate.metadata
          ok (not (ltb 0 (length signatures)) || signed_by query.error_signature signatures))
        else ok false

  unfoldable pub runbook_eligible : RecallQuery → MemoryCandidate → Result Error Bool
  unfolding runbook_barred count_of well_proven applicable
  runbook_eligible query candidate = if runbook_barred query candidate then ok false else do
    usage ← count_of b usage_count candidate.metadata
    positive ← count_of b positive_provenance_count candidate.metadata
    counterexamples ← count_of b counterexample_count candidate.metadata
    if well_proven usage positive counterexamples then applicable query candidate else ok false
