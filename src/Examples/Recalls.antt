-- ===== src/Examples/Recalls.antt =====
-- The theorems on recall at concrete inputs.
use ckdb_aws.Base.{
  All, Among, List, Result, [], arith, err, false, if◌then◌else◌, leb, length, ltb, map, max, min,
  nat_eq, none, ok, refl, some, string_eq, take, true, ℕ, ◌*◌, ◌+◌, ◌==◌, ◌∷◌, ◌≡◌, ◌⊎◌,
}
use ckdb_aws.Domain.{
  Error, Fields, Float, MemoryCandidate, MemoryKind, RecallBundle, RecallQuery, Text, Uuid, aware,
  double, end, episodic, field, int, item, list, naive, nil, procedural, semantic, str, text,
  text_beq, text_eq, value_error, type_error,
}
use ckdb_aws.Floats.{Builtins, FloatOps, float_one, float_zero}
use ckdb_aws.Recall.Best.{diverse_best}
use ckdb_aws.Recall.Diverse.{diverse-firsts, firsts}
use ckdb_aws.Recall.Eligible.{episode_eligible}
use ckdb_aws.Recall.Gates.{EpisodeFit, FactFit, RunbookFit}
use ckdb_aws.Recall.Order.{FloatOrder}
use ckdb_aws.Recall.Policy.{default_policy}
use ckdb_aws.Recall.Rank.{
  accepted, below, diverse, episode_key, fact_key, pair_eq, rank, runbook_key, sorted_down,
}
use ckdb_aws.Recall.Results.{Ranked, fit_episodes, fit_facts, fit_runbooks, rank_safe, rank_varied}
use ckdb_aws.Recall.Score.{score_episode, score_fact, score_runbook}
use ckdb_aws.Recall.Varied.{Represented}

-- Positive numbers, which are ordered as their bits are. The sums and products are not those of
-- doubles.
abbrev bits : Float → ℕ
bits (double n) = n

abbrev pub plain_floats : FloatOps
plain_floats = record {
  add = λ x y. double (bits x + bits y);
  mul = λ x y. double (bits x * bits y);
  div = λ x y. x;
  exp = λ x. float_one;
  sqrt = λ x. x;
  ratio = λ n d. if n == 0 then float_zero else float_one;
  sum = λ xs. float_one;
  fixed3 = λ x. [];
  lt = λ x y. ltb (bits x) (bits y);
  le = λ x y. leb (bits x) (bits y);
  same = λ x y. bits x == bits y;
}

abbrev plain_order : FloatOrder plain_floats
plain_order = record {
  IsNumber = λ x. Unit;
  asym = λ x y _ _ h. ground arith;
  trans = λ x y z _ _ _ h k. ground arith;
  same_iff = λ x y _ _. ground arith;
}

abbrev pub plain_builtins : Builtins
plain_builtins = record {
  parse_int = λ t. err value_error;
  truncate = λ x. ok 0;
  parse_datetime = λ t. err value_error;
  repr_of = λ v. [];
  to_float = λ v. err type_error;
}

abbrev query : RecallQuery
query = record {
  org_id = 1;
  agent_id = 2;
  service_id = 5;
  query_text = text "timeouts";
  embedding = [];
  k = 8;
  service_tags = text "web" ∷ [];
  error_signature = none;
  as_of = aware 1000;
  cold_start = false;
  current_incident_id = none;
}

abbrev candidate : MemoryKind → Uuid → (similarity : ℕ) → (metadata : Fields) → MemoryCandidate
candidate kind id similarity metadata = record {
  memory_id = id;
  kind = kind;
  content = text "restarted";
  similarity = double similarity;
  success_rate = float_one;
  occurred_at = some (aware 900);
  service_id = none;
  runbook_id = none;
  steps = [];
  metadata = metadata;
  org_id = some 1;
  agent_id = none;
  confidence = float_one;
  valid_from = none;
  valid_to = none;
  recorded_at = some (naive 900);
  provenance_ids = [];
  ranking_score = float_zero;
}

abbrev named : Text → Text → Fields
named key value = field key (str value) end

-- Two of one case and one of another; a fourth that is of the future.
abbrev pub episodes : List MemoryCandidate
episodes =
    candidate episodic 10 4607182418800017408 (named (text "incident_id") (text "a"))
    ∷ candidate episodic 11 4607182418800017409 (named (text "incident_id") (text "a"))
    ∷ candidate episodic 12 4607182418800017407 (named (text "incident_id") (text "b"))
    ∷ (record (candidate episodic 13 4607182418800017408 (named (text "incident_id") (text "c"))) {
      occurred_at = some (aware 1001);
    })
    ∷ []

abbrev pub facts : List MemoryCandidate
facts = candidate semantic 20 4607182418800017408 (named (text "subject") (text "cache")) ∷ []

-- One that has been tried, and one that has not.
abbrev pub runbooks : List MemoryCandidate
runbooks =
    candidate procedural 30 4607182418800017408 (
      field (text "usage_count") (int 2) (
        field (text "positive_provenance_count") (int 1) (
          field (text "applicable_service_tags") (list (item (str (text "web")) nil))
            (named (text "name") (text "restart")))))
    ∷ candidate procedural 31 4607182418800017408 (named (text "name") (text "scale"))
    ∷ []

abbrev value_of : Result Error RecallBundle → RecallBundle
value_of (ok x) = x
value_of (err e) = record {
  episodes = [];
  facts = [];
  runbooks = [];
  cold_start = true;
  diagnostics = end;
}

recalled : RecallBundle
recalled = value_of (rank plain_floats plain_builtins default_policy query episodes facts runbooks)

recalled_lem :
    rank plain_floats plain_builtins default_policy query episodes facts runbooks ≡ ok recalled
unfolding recalled rank accepted episode_eligible score_episode default_policy text_beq
recalled_lem = refl

abbrev ids_of : List MemoryCandidate → List Uuid
ids_of xs = map (λ x. x.memory_id) xs

test_recalled :
    ids_of recalled.episodes ∷ ids_of recalled.facts ∷ ids_of recalled.runbooks ∷ []
    ≡ (11 ∷ 12 ∷ []) ∷ (20 ∷ []) ∷ (30 ∷ []) ∷ []
unfolding recalled rank accepted episode_eligible score_episode default_policy text_beq
test_recalled = refl

rank_safe_example :
    All
      (Ranked
        (EpisodeFit plain_floats plain_builtins default_policy query)
        (score_episode plain_floats plain_builtins default_policy query)
        episodes)
      recalled.episodes
    × All
        (Ranked
          (FactFit plain_floats plain_builtins default_policy query)
          (score_fact plain_floats plain_builtins default_policy query)
          facts)
        recalled.facts
    × All
        (Ranked
          (RunbookFit plain_floats plain_builtins default_policy query)
          (score_runbook plain_floats plain_builtins default_policy query)
          runbooks)
        recalled.runbooks
rank_safe_example =
    rank_safe plain_floats plain_builtins default_policy query episodes facts runbooks recalled refl
      recalled_lem

rank_varied_example :
    (ae : List MemoryCandidate) × (af : List MemoryCandidate) × (ar : List MemoryCandidate)
    × (fit_episodes plain_floats plain_builtins default_policy query episodes ≡ ok ae)
    × (fit_facts plain_floats plain_builtins default_policy query facts ≡ ok af)
    × (fit_runbooks plain_floats plain_builtins default_policy query runbooks ≡ ok ar)
    × Represented
        (episode_key plain_builtins)
        (min query.k default_policy.max_episodes)
        ae
        recalled.episodes
    × Represented (fact_key plain_builtins) default_policy.max_facts af recalled.facts
    × Represented (runbook_key plain_builtins) default_policy.max_runbooks ar recalled.runbooks
rank_varied_example =
    rank_varied plain_floats plain_builtins default_policy query episodes facts runbooks recalled
      refl recalled_lem

diverse-firsts_example :
    diverse plain_floats episodes 1 (episode_key plain_builtins)
    ≡ take (max 1 1) (firsts (episode_key plain_builtins) (sorted_down plain_floats episodes))
diverse-firsts_example = diverse-firsts (episode_key plain_builtins) plain_floats episodes 1

diverse_best_example :
    All
      (λ y.
        ((z : MemoryCandidate) × Among z
            (diverse plain_floats episodes 1 (episode_key plain_builtins))
          × (episode_key plain_builtins z ≡ episode_key plain_builtins y)
          × (below plain_floats z y ≡ false))
        ⊎ ((length (diverse plain_floats episodes 1 (episode_key plain_builtins)) ≡ max 1 1)
            × All
                (λ w. below plain_floats w y ≡ false)
                (diverse plain_floats episodes 1 (episode_key plain_builtins))))
      episodes
diverse_best_example =
    diverse_best plain_floats plain_order (episode_key plain_builtins) episodes 1
      ((tt, tt), ((tt, tt), ((tt, tt), ((tt, tt), tt))))
