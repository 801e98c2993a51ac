-- ===== src/Recall/Results.antt =====
-- What `RecallRanker.rank` of backend/src/postmortem_backend/recall.py returns.
use ckdb_aws.Base.{
  >>=-eq-ok, All, All-map, Among, Bool, Bool-cases, Eq, List, Result, [], ap, false, inl, inr, min,
  ok, ok-injective, refl, subst, sym, true, ℕ, ◌∙◌, ◌∷◌, ◌≡◌,
}
use ckdb_aws.Base.Sort.{All-sort}
use ckdb_aws.Domain.{Error, MemoryCandidate, RecallBundle, RecallQuery, text_eq}
use ckdb_aws.Floats.{Builtins, FloatOps}
use ckdb_aws.Recall.Diverse.{diverse-firsts}
use ckdb_aws.Recall.Eligible.{episode_eligible, fact_eligible, runbook_eligible}
use ckdb_aws.Recall.Gates.{
  EpisodeFit, FactFit, RunbookFit, episode_eligible-Fit, fact_eligible-Fit, runbook_eligible-Fit,
}
use ckdb_aws.Recall.Policy.{RecallPolicy}
use ckdb_aws.Recall.Rank.{
  accepted, bundle_of, diverse, episode_key, fact_key, pair_eq, rank, runbook_key, sorted_down,
}
use ckdb_aws.Recall.Score.{score_episode, score_fact, score_runbook}
use ckdb_aws.Recall.Varied.{All-firsts, All-take, Represented, diverse-Represented}

-- The candidates that pass a gate, scored.
module _ (eligible : MemoryCandidate → Result Error Bool)
    (score : MemoryCandidate → Result Error MemoryCandidate) where
  -- It is the score of a candidate that passed.
  pub Scored : List MemoryCandidate → MemoryCandidate → Type 0
  Scored xs y = (x : MemoryCandidate) × Among x xs × (eligible x ≡ ok true) × (score x ≡ ok y)

  Scored-cons :
      (x : MemoryCandidate) (xs : List MemoryCandidate) (y : MemoryCandidate)
      → Scored xs y
      → Scored (x ∷ xs) y
  unfolding Scored
  Scored-cons x xs y (z, among, fits, scored) = (z, inr among, fits, scored)

  accepted-Scored :
      (xs ys : List MemoryCandidate) → accepted eligible score xs ≡ ok ys → All (Scored xs) ys
  unfolding accepted Scored
  accepted-Scored [] ys h = subst (All (Scored [])) (ok-injective h) tt
  accepted-Scored (x ∷ xs) ys h =
      let (fits, e, k) = >>=-eq-ok (eligible x) _ h in
      elim (Bool-cases fits) [
        | inl p ↦
            let (y, e₁, k₁) = >>=-eq-ok (score x) _ (rw p at k) in
            let (zs, e₂, k₂) = >>=-eq-ok (accepted eligible score xs) _ k₁ in
            subst (All (Scored (x ∷ xs))) (ok-injective k₂) (
              (x, inl refl, e ∙ ap ok p, e₁),
              All-map zs (Scored-cons x xs) (accepted-Scored xs zs e₂),
            )
        | inr p ↦ All-map ys (Scored-cons x xs) (accepted-Scored xs ys (rw p at k))
      ]

module _ {K : Type 0} ⦃e : Eq K⦄ (key : MemoryCandidate → K) (P : MemoryCandidate → Type 0) where
  All-diverse :
      (f : FloatOps) (xs : List MemoryCandidate) (limit : ℕ)
      → All P xs
      → All P (diverse f xs limit key)
  unfolding sorted_down
  All-diverse f xs limit h =
      rw (diverse-firsts key f xs limit) (All-take P _ _ (All-firsts key P _ (All-sort _ P xs h)))

-- Returned of the candidates `xs`: it is one of them with its score, and it is fit.
pub Ranked :
    (Fit : MemoryCandidate → Type 0)
    → (score : MemoryCandidate → Result Error MemoryCandidate) → List MemoryCandidate
    → MemoryCandidate
    → Type 0
Ranked Fit score xs y = (x : MemoryCandidate) × Among x xs × Fit x × (score x ≡ ok y)

module _ (f : FloatOps) (b : Builtins) (policy : RecallPolicy) where
  -- What the ranker accepts of the episodes, the facts and the runbooks.
  abbrev pub fit_episodes : RecallQuery → List MemoryCandidate → Result Error (List MemoryCandidate)
  fit_episodes q = accepted (episode_eligible f b policy q) (score_episode f b policy q)

  abbrev pub fit_facts : RecallQuery → List MemoryCandidate → Result Error (List MemoryCandidate)
  fit_facts q = accepted (fact_eligible f b policy q) (score_fact f b policy q)

  abbrev pub fit_runbooks : RecallQuery → List MemoryCandidate → Result Error (List MemoryCandidate)
  fit_runbooks q = accepted (runbook_eligible f b policy q) (score_runbook f b policy q)

  rank-accepted :
      (q : RecallQuery) (es fs rs : List MemoryCandidate) (bundle : RecallBundle)
      → q.cold_start ≡ false
      → rank f b policy q es fs rs ≡ ok bundle
      → (ae : List MemoryCandidate) × (af : List MemoryCandidate) × (ar : List MemoryCandidate)
        × (fit_episodes q es ≡ ok ae)
        × (fit_facts q fs ≡ ok af)
        × (fit_runbooks q rs ≡ ok ar)
        × (bundle_of f b policy q es fs rs ae af ar ≡ bundle)
  unfolding rank
  rank-accepted q es fs rs bundle warm h =
      let (ae, e, k) = >>=-eq-ok (fit_episodes q es) _ (rw warm at h) in
      let (af, e₁, k₁) = >>=-eq-ok (fit_facts q fs) _ k in
      let (ar, e₂, k₂) = >>=-eq-ok (fit_runbooks q rs) _ k₁ in
      (ae, af, ar, e, e₁, e₂, ok-injective k₂)

  Scored-Ranked :
      (eligible : MemoryCandidate → Result Error Bool) (Fit : MemoryCandidate → Type 0)
      (score : MemoryCandidate → Result Error MemoryCandidate) (xs : List MemoryCandidate)
      → ((x : MemoryCandidate) → eligible x ≡ ok true → Fit x)
      → (y : MemoryCandidate) → Scored eligible score xs y
      → Ranked Fit score xs y
  unfolding Scored Ranked
  Scored-Ranked eligible Fit score xs sound y (x, among, fits, scored) =
      (x, among, sound x fits, scored)

  diverse-Ranked :
      {K : Type 0} ⦃e : Eq K⦄ (key : MemoryCandidate → K) (limit : ℕ)
      (eligible : MemoryCandidate → Result Error Bool) (Fit : MemoryCandidate → Type 0)
      (score : MemoryCandidate → Result Error MemoryCandidate) (xs ys : List MemoryCandidate)
      → ((x : MemoryCandidate) → eligible x ≡ ok true → Fit x)
      → accepted eligible score xs ≡ ok ys
      → All (Ranked Fit score xs) (diverse f ys limit key)
  diverse-Ranked key limit eligible Fit score xs ys sound h = All-diverse key _ f ys limit (
      All-map ys (Scored-Ranked eligible Fit score xs sound)
        (accepted-Scored eligible score xs ys h))

  -- What is recalled without a cold start is safe to be shown: each episode, fact and runbook
  -- returned is one of the candidates with its score, in scope, in time and within the thresholds
  -- of the policy. A runbook has moreover been used, is supported by positive provenance and not
  -- refuted too often, and applies to the service and to the error.
  pub rank_safe :
      (q : RecallQuery) (es fs rs : List MemoryCandidate) (bundle : RecallBundle)
      → q.cold_start ≡ false
      → rank f b policy q es fs rs ≡ ok bundle
      → All (Ranked (EpisodeFit f b policy q) (score_episode f b policy q) es) bundle.episodes
        × All (Ranked (FactFit f b policy q) (score_fact f b policy q) fs) bundle.facts
        × All (Ranked (RunbookFit f b policy q) (score_runbook f b policy q) rs) bundle.runbooks
  unfolding bundle_of
  rank_safe q es fs rs bundle warm h =
      let (ae, af, ar, he, hf, hr, eq) = rank-accepted q es fs rs bundle warm h in
      rw (sym eq) (
        diverse-Ranked (episode_key b) _ _ _ _ es ae (episode_eligible-Fit f b policy q) he,
        diverse-Ranked (fact_key b) _ _ _ _ fs af (fact_eligible-Fit f b policy q) hf,
        diverse-Ranked (runbook_key b) _ _ _ _ rs ar (runbook_eligible-Fit f b policy q) hr,
      )

  -- What is recalled without a cold start is varied. Of the candidates that pass a gate, at most
  -- the limit of their kind is returned (one at least), no two with the same case, subject and
  -- predicate, or name. With fewer than that, every candidate that passed is itself returned or
  -- has one with the same key that is.
  pub rank_varied :
      (q : RecallQuery) (es fs rs : List MemoryCandidate) (bundle : RecallBundle)
      → q.cold_start ≡ false
      → rank f b policy q es fs rs ≡ ok bundle
      → (ae : List MemoryCandidate) × (af : List MemoryCandidate) × (ar : List MemoryCandidate)
        × (fit_episodes q es ≡ ok ae)
        × (fit_facts q fs ≡ ok af)
        × (fit_runbooks q rs ≡ ok ar)
        × Represented (episode_key b) (min q.k policy.max_episodes) ae bundle.episodes
        × Represented (fact_key b) policy.max_facts af bundle.facts
        × Represented (runbook_key b) policy.max_runbooks ar bundle.runbooks
  unfolding bundle_of
  rank_varied q es fs rs bundle warm h =
      let (ae, af, ar, he, hf, hr, eq) = rank-accepted q es fs rs bundle warm h in
      rw (sym eq) (
        ae,
        af,
        ar,
        he,
        hf,
        hr,
        diverse-Represented (episode_key b) f ae _,
        diverse-Represented (fact_key b) f af _,
        diverse-Represented (runbook_key b) f ar _,
      )
