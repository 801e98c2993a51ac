-- ===== src/Recall/Gates.antt =====
-- What the gates of recall let through (backend/src/postmortem_backend/recall.py).
use ckdb_aws.Base.{
  >>=-eq-ok, Bool, Bool-cases, List, Option, Result, [], arith, elem, false, if◌then◌else◌, inl,
  inr, leb, length, ltb, max, nat_eq, none, not, ok, ok-injective, refl, some, string_eq, true, ℕ,
  ◌+◌, ◌-◌, ◌<◌, ◌||◌, ◌∷◌, ◌≡◌, ◌≤◌, ◌⊎◌,
}
use ckdb_aws.Domain.{
  Datetime, Error, MemoryCandidate, MemoryKind, RecallQuery, Text, Uuid, episodic, procedural,
  semantic, text_beq_iff, text_eq,
}
use ckdb_aws.Floats.{Builtins, FloatOps}
use ckdb_aws.Recall.Eligible.{
  applicable, applicable_error_signatures, applicable_service_tags, aware_instant, count_of,
  counterexample_count, differs, episode_eligible, fact_eligible, kind_is, meets,
  positive_provenance_count, runbook_barred, runbook_eligible, scope_valid, signed_by,
  temporally_valid, texts_of, usage_count, well_proven, when,
}
use ckdb_aws.Recall.Policy.{RecallPolicy}

-- An id is left open, or it is the one asked for.
Within : Option Uuid → Uuid → Type 0
Within o i = (o ≡ none) ⊎ (o ≡ some i)

-- A time is unknown, or it has the property.
Timed : Option Datetime → (ℕ → Type 0) → Type 0
Timed o P = (o ≡ none) ⊎ ((d : Datetime) × (o ≡ some d) × P (aware_instant d))

-- No other tenant's, agent's or service's, and neither of the future nor outdated.
pub InScope : RecallQuery → MemoryCandidate → Type 0
InScope q c =
    Within c.org_id q.org_id × Within c.agent_id q.agent_id × Within c.service_id q.service_id

pub InTime : RecallQuery → MemoryCandidate → Type 0
InTime q c =
    let now = aware_instant q.as_of in
    Timed c.valid_from (λ t. t ≤ now)
    × Timed c.valid_to (λ t. now < t)
    × Timed c.recorded_at (λ t. t ≤ now)
    × Timed c.occurred_at (λ t. t ≤ now)

differs_no : (o : Option Uuid) (i : Uuid) → differs o i ≡ false → Within o i
unfolding Within
differs_no none i h = inl refl
differs_no (some a) i h = inr (ground arith)

not_after :
    (o : Option Datetime) (now : ℕ) → when o (λ t. ltb now t) ≡ false → Timed o (λ t. t ≤ now)
unfolding Timed
not_after none now h = inl refl
not_after (some d) now h = inr (d, refl, ground arith)

still : (o : Option Datetime) (now : ℕ) → when o (λ t. leb t now) ≡ false → Timed o (λ t. now < t)
unfolding Timed
still none now h = inl refl
still (some d) now h = inr (d, refl, ground arith)

not_old :
    (o : Option Datetime) (now age : ℕ)
    → when o (λ t. ltb age (now - t)) ≡ false
    → Timed o (λ t. now ≤ t + age)
unfolding Timed
not_old none now age h = inl refl
not_old (some d) now age h = inr (d, refl, ground arith)

scope_valid-InScope : (q : RecallQuery) (c : MemoryCandidate) → scope_valid q c ≡ true → InScope q c
unfolding scope_valid InScope
scope_valid-InScope q c h = (
  differs_no c.org_id q.org_id (ground arith),
  differs_no c.agent_id q.agent_id (ground arith),
  differs_no c.service_id q.service_id (ground arith),
)

temporally_valid-InTime :
    (q : RecallQuery) (c : MemoryCandidate) → temporally_valid q c ≡ true → InTime q c
unfolding temporally_valid InTime
temporally_valid-InTime q c h = (
  not_after c.valid_from _ (ground arith),
  still c.valid_to _ (ground arith),
  not_after c.recorded_at _ (ground arith),
  not_after c.occurred_at _ (ground arith),
)

kind_is-eq : (a b : MemoryKind) → kind_is a b ≡ true → a ≡ b
kind_is-eq a b h = ground arith

-- A gate that lets through has passed its test.
chosen :
    (test : Bool) (x : Result Error Bool)
    → (if test then x else ok false) ≡ ok true
    → (test ≡ true) × (x ≡ ok true)
chosen true x h = (refl, h)
chosen false x h = absurd (ground arith)

spared :
    (test : Bool) (x : Result Error Bool)
    → (if test then ok false else x) ≡ ok true
    → (test ≡ false) × (x ≡ ok true)
spared true x h = absurd (ground arith)
spared false x h = (refl, h)

any-meets :
    (tags service_tags : List Text)
    → meets tags service_tags ≡ true
    → (t : Text) × (elem t tags ≡ true) × (elem t service_tags ≡ true)
any-meets [] service_tags h = ground arith
any-meets (t ∷ tags) service_tags h = elim (Bool-cases (elem t service_tags)) [
  | inl e ↦ (t, ground (arith, text_beq_iff t t), e)
  | inr e ↦ let (u, k, k') = any-meets tags service_tags (ground arith) in (u, ground arith, k')
]

module _ (f : FloatOps) (b : Builtins) (policy : RecallPolicy) where
  -- An episode in scope and in time, similar enough and not too old.
  pub EpisodeFit : RecallQuery → MemoryCandidate → Type 0
  EpisodeFit q c =
      (c.kind ≡ episodic)
      × InScope q c
      × InTime q c
      × (f.lt c.similarity policy.min_episode_similarity ≡ false)
      × Timed c.occurred_at (λ t. aware_instant q.as_of ≤ t + policy.max_episode_age)

  -- A fact in scope and in time, similar and certain enough.
  pub FactFit : RecallQuery → MemoryCandidate → Type 0
  FactFit q c =
      (c.kind ≡ semantic)
      × InScope q c
      × InTime q c
      × (f.le policy.min_fact_similarity c.similarity ≡ true)
      × (f.le policy.min_fact_confidence c.confidence ≡ true)

  -- Used, supported by positive provenance, and not refuted too often.
  pub Proven : MemoryCandidate → Type 0
  Proven c =
      (usage : ℕ) × (positive : ℕ) × (counterexamples : ℕ) × (count_of b usage_count c.metadata
        ≡ ok usage)
      × (count_of b positive_provenance_count c.metadata ≡ ok positive)
      × (count_of b counterexample_count c.metadata ≡ ok counterexamples)
      × (policy.min_runbook_usage_count ≤ usage)
      × (policy.min_positive_provenance ≤ positive)
      × (f.lt policy.max_counterexample_ratio
            (f.ratio counterexamples (max (positive + counterexamples) 1))
          ≡ false)

  -- A tag of the service is among the tags of the runbook, and the error's signature among its
  -- signatures, where it has any.
  pub Applies : RecallQuery → MemoryCandidate → Type 0
  Applies q c =
      (tags : List Text) × (signatures : List Text) × (texts_of b applicable_service_tags c.metadata
        ≡ ok tags)
      × (texts_of b applicable_error_signatures c.metadata ≡ ok signatures)
      × ((length tags ≡ 0) ⊎ ((t : Text) × (elem t tags ≡ true) × (elem t q.service_tags ≡ true)))
      × ((length signatures ≡ 0)
          ⊎ ((s : Text) × (q.error_signature ≡ some s) × (elem s signatures ≡ true)))

  pub RunbookFit : RecallQuery → MemoryCandidate → Type 0
  RunbookFit q c =
      (c.kind ≡ procedural)
      × InScope q c
      × InTime q c
      × (f.lt c.similarity policy.min_runbook_similarity ≡ false)
      × (f.lt c.success_rate policy.min_runbook_success_rate ≡ false)
      × Proven c
      × Applies q c

  pub episode_eligible-Fit :
      (q : RecallQuery) (c : MemoryCandidate)
      → episode_eligible f b policy q c ≡ ok true
      → EpisodeFit q c
  unfolding episode_eligible EpisodeFit
  episode_eligible-Fit q c h = (
    kind_is-eq c.kind episodic (ground arith),
    scope_valid-InScope q c (ground arith),
    temporally_valid-InTime q c (ground arith),
    ground arith,
    not_old c.occurred_at _ _ (ground arith),
  )

  pub fact_eligible-Fit :
      (q : RecallQuery) (c : MemoryCandidate) → fact_eligible f b policy q c ≡ ok true → FactFit q c
  unfolding fact_eligible FactFit
  fact_eligible-Fit q c h = (
    kind_is-eq c.kind semantic (ground arith),
    scope_valid-InScope q c (ground arith),
    temporally_valid-InTime q c (ground arith),
    ground arith,
    ground arith,
  )

  signed-Applies :
      (o : Option Text) (signatures : List Text)
      → signed_by o signatures ≡ true
      → (s : Text) × (o ≡ some s) × (elem s signatures ≡ true)
  signed-Applies none signatures h = ground arith
  signed-Applies (some s) signatures h = (s, refl, h)

  -- A restriction that is empty, or met.
  open_or :
      {P : Type 0} (xs : List Text) (test : Bool)
      → (test ≡ true → P)
      → (not (ltb 0 (length xs)) || test) ≡ true
      → (length xs ≡ 0) ⊎ P
  open_or [] test k h = inl refl
  open_or (x ∷ xs) test k h = inr (k (ground arith))

  applicable-Applies :
      (q : RecallQuery) (c : MemoryCandidate) → applicable f b policy q c ≡ ok true → Applies q c
  unfolding applicable Applies
  applicable-Applies q c h =
      let (tags, e, k) = >>=-eq-ok (texts_of b applicable_service_tags c.metadata) _ h in
      let (fit, k₁) = chosen _ _ k in
      let (signatures, e', k₂) =
        >>=-eq-ok (texts_of b applicable_error_signatures c.metadata) _ k₁ in
      (
        tags,
        signatures,
        e,
        e',
        open_or tags _ (any-meets tags q.service_tags) fit,
        open_or signatures _ (signed-Applies q.error_signature signatures) (ok-injective k₂),
      )

  well_proven-lem :
      (c : MemoryCandidate) (usage positive counterexamples : ℕ)
      → count_of b usage_count c.metadata ≡ ok usage
      → count_of b positive_provenance_count c.metadata ≡ ok positive
      → count_of b counterexample_count c.metadata ≡ ok counterexamples
      → well_proven f b policy usage positive counterexamples ≡ true
      → Proven c
  unfolding well_proven Proven
  well_proven-lem c u p n hu hp hn h =
      (u, p, n, hu, hp, hn, ground arith, ground arith, ground arith)

  runbook_barred-lem :
      (q : RecallQuery) (c : MemoryCandidate)
      → runbook_barred f b policy q c ≡ false
      → (c.kind ≡ procedural)
        × InScope q c
        × InTime q c
        × (f.lt c.similarity policy.min_runbook_similarity ≡ false)
        × (f.lt c.success_rate policy.min_runbook_success_rate ≡ false)
  unfolding runbook_barred
  runbook_barred-lem q c h = (
    kind_is-eq c.kind procedural (ground arith),
    scope_valid-InScope q c (ground arith),
    temporally_valid-InTime q c (ground arith),
    ground arith,
    ground arith,
  )

  pub runbook_eligible-Fit :
      (q : RecallQuery) (c : MemoryCandidate)
      → runbook_eligible f b policy q c ≡ ok true
      → RunbookFit q c
  unfolding runbook_eligible RunbookFit
  runbook_eligible-Fit q c h =
      let (free, k) = spared (runbook_barred f b policy q c) _ h in
      let (u, eu, k₁) = >>=-eq-ok (count_of b usage_count c.metadata) _ k in
      let (p, ep, k₂) = >>=-eq-ok (count_of b positive_provenance_count c.metadata) _ k₁ in
      let (n, en, k₃) = >>=-eq-ok (count_of b counterexample_count c.metadata) _ k₂ in
      let (proven, k₄) = chosen _ _ k₃ in
      let (kind, scope, time, alike, rate) = runbook_barred-lem q c free in
      (
        kind,
        scope,
        time,
        alike,
        rate,
        well_proven-lem c u p n eu ep en proven,
        applicable-Applies q c k₄,
      )
