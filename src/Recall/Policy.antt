-- ===== src/Recall/Policy.antt =====
-- The tunable policy of recall (`RecallPolicy` of backend/src/postmortem_backend/recall.py). A
-- `timedelta` is its microseconds.
use ckdb_aws.Base.{max, min, ℕ, ◌*◌}
use ckdb_aws.Domain.{Float}
use ckdb_aws.Floats.{point_50, point_60, point_65, point_72}

pub record RecallPolicy : Type 0 where
  pub candidate_multiplier : ℕ
  pub max_candidate_limit : ℕ
  pub max_episodes : ℕ
  pub max_facts : ℕ
  pub max_runbooks : ℕ
  pub min_episode_similarity : Float
  pub min_fact_similarity : Float
  pub min_runbook_similarity : Float
  pub min_fact_confidence : Float
  pub min_runbook_success_rate : Float
  pub min_runbook_usage_count : ℕ
  pub min_positive_provenance : ℕ
  pub max_counterexample_ratio : Float
  pub max_episode_age : ℕ
  pub recency_half_life : ℕ

-- The microseconds of a day.
abbrev day : ℕ
day = 86400000000

unfoldable pub default_policy : RecallPolicy
default_policy = record {
  candidate_multiplier = 4;
  max_candidate_limit = 40;
  max_episodes = 3;
  max_facts = 10;
  max_runbooks = 3;
  min_episode_similarity = point_65;
  min_fact_similarity = point_60;
  min_runbook_similarity = point_72;
  min_fact_confidence = point_65;
  min_runbook_success_rate = point_60;
  min_runbook_usage_count = 1;
  min_positive_provenance = 1;
  max_counterexample_ratio = point_50;
  max_episode_age = 365 * day;
  recency_half_life = 90 * day;
}

unfoldable pub candidate_limit : RecallPolicy → (requested_k : ℕ) → ℕ
candidate_limit policy requested_k =
    min (max (max requested_k 1 * policy.candidate_multiplier) 20) policy.max_candidate_limit
