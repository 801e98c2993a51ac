-- ===== src/Service/Console.antt =====
-- What the console shows of a recall (`_console_score` and `_rejected_count` of
-- backend/src/postmortem_backend/service.py). The metadata and diagnostics that they read are
-- values of any kind, and their conversions may raise. `int` and `float` are of `Builtins`.
use ckdb_aws.Base.{List, Option, Result, [], err, none, ok, some, ℕ, ◌+◌, ◌-◌, ◌>>=◌, ◌∷◌}
use ckdb_aws.Domain.{
  Error, Fields, Float, MemoryCandidate, Text, Value, attribute_error, dict, end, field, lookup,
  text,
}
use ckdb_aws.Events.{ConsoleScore}
use ckdb_aws.Floats.{Builtins, float_zero, int_of}

-- `value.get`, which only a dictionary has.
unfoldable pub mapping_of : Value → Result Error Fields
mapping_of (dict d) = ok d
mapping_of v = err attribute_error

-- `float(components.get(key, default))`
unfoldable pub float_at : Builtins → (key : Text) (default : Float) → Fields → Result Error Float
unfolding lookup
float_at b key default components = elim (lookup key components) [
  | none ↦ ok default
  | some v ↦ b.to_float v
]

unfoldable pub console_score : Builtins → MemoryCandidate → Result Error ConsoleScore
unfolding mapping_of float_at lookup
console_score b item = do
  components ← elim (lookup (text "rank_components") item.metadata) [
    | none ↦ ok end
    | some v ↦ mapping_of v
  ]
  vector ← float_at b (text "similarity") item.similarity components
  scope ← float_at b (text "scope") float_zero components
  freshness ← float_at b (text "recency") float_zero components
  outcome ← elim (lookup (text "success_rate") components) [
    | none ↦ float_at b (text "successful_outcome") float_zero components
    | some v ↦ b.to_float v
  ]
  ok (record {
    vector = vector;
    scope = scope;
    freshness = freshness;
    outcome = outcome;
    composite = item.ranking_score;
  })

unfoldable pub console_scores : Builtins → List MemoryCandidate → Result Error (List ConsoleScore)
console_scores b [] = ok []
console_scores b (item ∷ items) = do
  score ← console_score b item
  scores ← console_scores b items
  ok (score ∷ scores)

-- `sum(int(value) for value in counts.values())`
unfoldable pub total_of : Builtins → Fields → Result Error ℕ
unfolding int_of
total_of b end = ok 0
total_of b (field k v d) = do n ← int_of b v; rest ← total_of b d; ok (n + rest)

-- `value if isinstance(value, dict)`
abbrev counts_of : Option Value → Option Fields
counts_of (some (dict d)) = some d
counts_of o = none

-- The difference of the sums, and 0 where it is negative, which is the subtraction on ℕ.
abbrev difference_of : Builtins → Option Fields → Option Fields → Result Error ℕ
difference_of b (some candidates) (some eligible) = do
  n ← total_of b candidates
  m ← total_of b eligible
  ok (n - m)
difference_of b c e = ok 0

unfoldable pub rejected_count : Builtins → (diagnostics : Fields) → Result Error ℕ
unfolding total_of lookup
rejected_count b diagnostics =
    difference_of b (counts_of (lookup (text "candidate_counts") diagnostics))
      (counts_of (lookup (text "eligible_counts") diagnostics))
