-- ===== src/Recall/Rank.antt =====
-- `RecallRanker.rank` with `_diverse`, and `ColdStartRecallAdapter`, of
-- backend/src/postmortem_backend/recall.py.
use ckdb_aws.Base.{
  Bool, Eq, List, Option, Result, [], arith, elem, false, if◌then◌else◌, leb, length, min, nat_eq,
  none, not, ok, select, some, string_eq, true, ℕ, ◌&&◌, ◌+◌, ◌>>=◌, ◌↔◌, ◌∷◌, ◌≡◌,
}
use ckdb_aws.Base.Sort.{sort}
use ckdb_aws.Domain.{
  Error, Fields, MemoryCandidate, RecallBundle, RecallQuery, Text, Value, bool, dict, end, field,
  float, int, lookup, null, str, text, text_beq, text_beq_iff, text_eq, text_leb, uuid, uuid_text,
  or_value,
}
use ckdb_aws.Floats.{Builtins, FloatOps, str_of}
use ckdb_aws.Recall.Eligible.{episode_eligible, fact_eligible, runbook_eligible}
use ckdb_aws.Recall.Policy.{RecallPolicy}
use ckdb_aws.Recall.Score.{score_episode, score_fact, score_runbook}

-- `[score(x) for x in candidates if eligible(x)]`
unfoldable pub accepted :
    (eligible : MemoryCandidate → Result Error Bool)
    → (score : MemoryCandidate → Result Error MemoryCandidate) → List MemoryCandidate
    → Result Error (List MemoryCandidate)
accepted eligible score [] = ok []
accepted eligible score (x ∷ xs) = eligible x >>= λ fits.
    if fits
    then (score x >>= λ y. accepted eligible score xs >>= λ ys. ok (y ∷ ys))
    else accepted eligible score xs

-- The loop of `_diverse`: the first of each key, until `limit` are selected. The limit is tested
-- after an item is added.
module _ {K : Type 0} ⦃e : Eq K⦄ (key : MemoryCandidate → K) (limit : ℕ) where
  unfoldable pub select_diverse :
      (seen : List K) (selected : ℕ) → List MemoryCandidate → List MemoryCandidate
  select_diverse seen selected [] = []
  select_diverse seen selected (x ∷ xs) =
      let skipped = select_diverse seen selected xs in
      let more = select_diverse (key x ∷ seen) (selected + 1) xs in
      if elem (key x) seen then skipped else if leb limit (selected + 1) then x ∷ [] else x ∷ more

-- A pair of keys.
pub pair_iff : (a b : Text × Text) → ((text_beq a.0 b.0 && text_beq a.1 b.1) ≡ true) ↔ (a ≡ b)
pair_iff a b = ground (arith, text_beq_iff a.0 b.0, text_beq_iff a.1 b.1)

instance abbrev pub pair_eq : Eq (Text × Text)
pair_eq = record { equal = λ a b. text_beq a.0 b.0 && text_beq a.1 b.1; equal_iff = pair_iff }

-- `metadata.get(key, default)`
abbrev get_or : Option Value → Value → Value
get_or none d = d
get_or (some v) d = v

module _ (f : FloatOps) where
  -- The order of the tuples `(ranking_score, similarity, str(memory_id))`
  unfoldable pub below : MemoryCandidate → MemoryCandidate → Bool
  unfolding uuid_text text_leb
  below x y =
      if not (f.same x.ranking_score y.ranking_score)
      then f.lt x.ranking_score y.ranking_score
      else if not (f.same x.similarity y.similarity)
      then f.lt x.similarity y.similarity
      else not (text_leb (uuid_text y.memory_id) (uuid_text x.memory_id))

  -- `sorted(items, key=..., reverse=True)`: the greatest first, equal ones in their order.
  unfoldable pub sorted_down : List MemoryCandidate → List MemoryCandidate
  unfolding below sort
  sorted_down = sort (λ x y. not (below x y))

  unfoldable pub diverse :
      {K : Type 0} ⦃e : Eq K⦄
      → List MemoryCandidate
      → (limit : ℕ) → (key : MemoryCandidate → K) → List MemoryCandidate
  unfolding sorted_down select_diverse
  diverse candidates limit key = select_diverse key limit [] 0 (sorted_down candidates)

module _ (b : Builtins) where
  unfoldable pub episode_key : MemoryCandidate → Text
  unfolding str_of lookup
  episode_key x = str_of b (
      or_value (lookup (text "source_case_id") x.metadata)
        (or_value (lookup (text "incident_id") x.metadata) (uuid x.memory_id)))

  unfoldable pub fact_key : MemoryCandidate → Text × Text
  unfolding str_of lookup
  fact_key x = (
    str_of b (get_or (lookup (text "subject") x.metadata) (str [])),
    str_of b (get_or (lookup (text "predicate") x.metadata) (str [])),
  )

  unfoldable pub runbook_key : MemoryCandidate → Text
  unfolding str_of lookup
  runbook_key x = str_of b (or_value (lookup (text "name") x.metadata) (uuid x.memory_id))

-- `metadata.get(key) is not None`
abbrev not_none : Option Value → Bool
not_none none = false
not_none (some null) = false
not_none (some v) = true

abbrev counting : (key : Text) → List MemoryCandidate → Value
counting key xs = int (length (select (λ x. not_none (lookup key x.metadata)) xs))

abbrev counts : (episodes facts runbooks : List MemoryCandidate) → Value
counts es fs rs = dict (
    field (text "episodic") (int (length es))
      (field (text "semantic") (int (length fs)) (field (text "procedural") (int (length rs)) end)))

thresholds : RecallPolicy → Value
thresholds policy = dict (
    field (text "episode_similarity") (float policy.min_episode_similarity) (
      field (text "fact_similarity") (float policy.min_fact_similarity) (
        field (text "runbook_similarity") (float policy.min_runbook_similarity) (
          field (text "fact_confidence") (float policy.min_fact_confidence) (
            field (text "runbook_success_rate") (float policy.min_runbook_success_rate)
              (field (text "positive_provenance") (int policy.min_positive_provenance) end))))))

unfoldable pub cold_bundle : Fields → RecallBundle
cold_bundle more = record {
  episodes = [];
  facts = [];
  runbooks = [];
  cold_start = true;
  diagnostics =
      field (text "mode") (str (text "cold_start")) (field (text "database_queries") (int 0) more);
}

-- `ColdStartRecallAdapter.recall`
unfoldable pub cold_start_recall : (delegate_configured : Bool) → RecallQuery → RecallBundle
unfolding cold_bundle
cold_start_recall delegate_configured query =
    cold_bundle (field (text "delegate_configured") (bool delegate_configured) end)

module _ (f : FloatOps) (b : Builtins) (policy : RecallPolicy) where
  -- What is returned of the accepted candidates.
  unfoldable pub bundle_of :
      RecallQuery
      → (episodes facts runbooks : List MemoryCandidate)
      → (fit_episodes fit_facts fit_runbooks : List MemoryCandidate) → RecallBundle
  unfolding diverse episode_key fact_key runbook_key lookup thresholds
  bundle_of query episodes facts runbooks fit_episodes fit_facts fit_runbooks =
      let ranked_facts = diverse f fit_facts policy.max_facts (fact_key b) in
      record {
        episodes = diverse f fit_episodes (min query.k policy.max_episodes) (episode_key b);
        facts = ranked_facts;
        runbooks = diverse f fit_runbooks policy.max_runbooks (runbook_key b);
        cold_start = false;
        diagnostics = field (text "mode") (str (text "memory")) (
            field (text "candidate_counts") (counts episodes facts runbooks) (
              field (text "eligible_counts") (counts fit_episodes fit_facts fit_runbooks) (
                field (text "thresholds") (thresholds policy) (
                  field (text "bitemporal")
                    (dict (
                      field (text "facts_with_predecessor")
                        (counting (text "superseded_predecessor") ranked_facts)
                        (field (text "stale_facts_returned")
                          (counting (text "superseded_by") ranked_facts) end)))
                    end))));
      }

  unfoldable pub rank :
      RecallQuery → (episodes facts runbooks : List MemoryCandidate) → Result Error RecallBundle
  unfolding cold_bundle accepted bundle_of episode_eligible fact_eligible runbook_eligible
      score_episode score_fact score_runbook
  rank query episodes facts runbooks = if query.cold_start then ok (cold_bundle end) else do
    fit_episodes ←
        accepted (episode_eligible f b policy query) (score_episode f b policy query) episodes
    fit_facts ← accepted (fact_eligible f b policy query) (score_fact f b policy query) facts
    fit_runbooks ←
        accepted (runbook_eligible f b policy query) (score_runbook f b policy query) runbooks
    ok (bundle_of query episodes facts runbooks fit_episodes fit_facts fit_runbooks)
