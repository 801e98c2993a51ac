-- ===== src/Recall/Order.antt =====
-- The order of ranked candidates (the key of `sorted` in `_diverse` of
-- backend/src/postmortem_backend/recall.py), where the scores are numbers.
use ckdb_aws.Base.{Bool, [], arith, false, if◌then◌else◌, not, refl, true, ◌↔◌, ◌∷◌, ◌≡◌}
use ckdb_aws.Domain.{Float, MemoryCandidate, Text, text_leb, uuid_text}
use ckdb_aws.Floats.{FloatOps}
use ckdb_aws.Recall.Rank.{below}

-- What the comparison of IEEE doubles promises of all of them but NaN.
pub record FloatOrder (f : FloatOps) : Type 1 where
  pub IsNumber : Float → Type 0
  pub asym : (x y : Float) → IsNumber x → IsNumber y → f.lt x y ≡ true → f.lt y x ≡ false
  pub trans :
      (x y z : Float)
      → IsNumber x
      → IsNumber y
      → IsNumber z
      → f.lt x y ≡ false
      → f.lt y z ≡ false
      → f.lt x z ≡ false
  pub same_iff :
      (x y : Float)
      → IsNumber x
      → IsNumber y
      → (f.same x y ≡ true) ↔ ((f.lt x y ≡ false) × (f.lt y x ≡ false))

-- A strict order in which the incomparable are alike.
module _ {A : Type 0} (P : A → Type 0) where
  abbrev pub IsAsym : (A → A → Bool) → Type 0
  IsAsym lt = (x y : A) → P x → P y → lt x y ≡ true → lt y x ≡ false

  abbrev pub IsTrans : (A → A → Bool) → Type 0
  IsTrans lt = (x y z : A) → P x → P y → P z → lt x y ≡ false → lt y z ≡ false → lt x z ≡ false

text_leb_total : (a c : Text) → text_leb a c ≡ false → text_leb c a ≡ true
unfolding text_leb
text_leb_total [] c h = ground arith
text_leb_total (x ∷ a) [] h = refl
text_leb_total (x ∷ a) (y ∷ c) h = ground (arith, text_leb_total a c)

text_leb_trans : (a c d : Text) → text_leb a c ≡ true → text_leb c d ≡ true → text_leb a d ≡ true
unfolding text_leb
text_leb_trans [] c d h k = refl
text_leb_trans (x ∷ a) [] d h k = ground arith
text_leb_trans (x ∷ a) (y ∷ c) [] h k = ground arith
text_leb_trans (x ∷ a) (y ∷ c) (z ∷ d) h k = ground (arith, text_leb_trans a c d)

-- Compared by a first order, and by a second one where the first calls them the same.
module _ {A : Type 0} (P : A → Type 0) (first same second : A → A → Bool)
    (same_iff : (x y : A)
      → P x
      → P y
      → (same x y ≡ true) ↔ ((first x y ≡ false) × (first y x ≡ false))) where
  abbrev lexicographic : A → A → Bool
  lexicographic x y = if not (same x y) then first x y else second x y

  lexicographic-IsAsym : IsAsym P first → IsAsym P second → IsAsym P lexicographic
  lexicographic-IsAsym a₁ a₂ x y px py h =
      ground (arith, same_iff x y px py, same_iff y x py px, a₁ x y px py, a₂ x y px py)

  lexicographic-IsTrans :
      IsAsym P first → IsTrans P first → IsTrans P second → IsTrans P lexicographic
  lexicographic-IsTrans a₁ t₁ t₂ x y z px py pz h k = ground (
    arith,
    same_iff x y px py,
    same_iff y z py pz,
    same_iff x z px pz,
    a₁ x y px py,
    a₁ y z py pz,
    a₁ x z px pz,
    t₁ x y z px py pz,
    t₁ z y x pz py px,
    t₁ y z x py pz px,
    t₁ z x y pz px py,
    t₁ y x z py px pz,
    t₁ x z y px pz py,
    t₂ x y z px py pz,
  )

module _ (f : FloatOps) (o : FloatOrder f) where
  -- The scores by which a candidate is ranked are numbers.
  abbrev pub IsScored : MemoryCandidate → Type 0
  IsScored x = o.IsNumber x.ranking_score × o.IsNumber x.similarity

  abbrev by_score : MemoryCandidate → MemoryCandidate → Bool
  by_score x y = f.lt x.ranking_score y.ranking_score

  abbrev by_similarity : MemoryCandidate → MemoryCandidate → Bool
  by_similarity x y = f.lt x.similarity y.similarity

  abbrev by_id : MemoryCandidate → MemoryCandidate → Bool
  by_id x y = not (text_leb (uuid_text y.memory_id) (uuid_text x.memory_id))

  by_id-IsAsym : IsAsym IsScored by_id
  by_id-IsAsym x y px py h =
      ground (arith, text_leb_total (uuid_text y.memory_id) (uuid_text x.memory_id))

  by_id-IsTrans : IsTrans IsScored by_id
  by_id-IsTrans x y z px py pz h k = ground (
    arith,
    text_leb_trans (uuid_text z.memory_id) (uuid_text y.memory_id) (uuid_text x.memory_id),
  )

  score_same :
      (x y : MemoryCandidate)
      → IsScored x
      → IsScored y
      → (f.same x.ranking_score y.ranking_score ≡ true)
        ↔ ((by_score x y ≡ false) × (by_score y x ≡ false))
  score_same x y px py = o.same_iff x.ranking_score y.ranking_score px.0 py.0

  similarity_same :
      (x y : MemoryCandidate)
      → IsScored x
      → IsScored y
      → (f.same x.similarity y.similarity ≡ true)
        ↔ ((by_similarity x y ≡ false) × (by_similarity y x ≡ false))
  similarity_same x y px py = o.same_iff x.similarity y.similarity px.1 py.1

  score-IsAsym : IsAsym IsScored by_score
  score-IsAsym x y px py = o.asym x.ranking_score y.ranking_score px.0 py.0

  similarity-IsAsym : IsAsym IsScored by_similarity
  similarity-IsAsym x y px py = o.asym x.similarity y.similarity px.1 py.1

  pub below-IsAsym : IsAsym IsScored (below f)
  unfolding below
  below-IsAsym =
      lexicographic-IsAsym IsScored by_score (λ x y. f.same x.ranking_score y.ranking_score) _
        score_same score-IsAsym
        (lexicographic-IsAsym IsScored by_similarity (λ x y. f.same x.similarity y.similarity) by_id
          similarity_same similarity-IsAsym by_id-IsAsym)

  pub below-IsTrans : IsTrans IsScored (below f)
  unfolding below
  below-IsTrans =
      lexicographic-IsTrans IsScored by_score (λ x y. f.same x.ranking_score y.ranking_score) _
        score_same score-IsAsym
        (λ x y z px py pz. o.trans x.ranking_score y.ranking_score z.ranking_score px.0 py.0 pz.0)
        (lexicographic-IsTrans IsScored by_similarity (λ x y. f.same x.similarity y.similarity)
          by_id similarity_same similarity-IsAsym
          (λ x y z px py pz. o.trans x.similarity y.similarity z.similarity px.1 py.1 pz.1)
          by_id-IsTrans)
