-- ===== src/Recall/Best.antt =====
-- The ranking keeps the best (`_diverse` of backend/src/postmortem_backend/recall.py).
use ckdb_aws.Base.{
  All, All-Among, All-both, All-map, All-select_of, Among, Among-select, Bool, Bool-cases, Eq, List,
  [], ap, arith, false, inl, inr, length, max, not, refl, select, suc, sym, take, zero, ℕ, ◌∙◌, ◌∷◌,
  ◌≡◌, ◌⊎◌,
}
use ckdb_aws.Base.Sort.{All-insert, All-sort, insert, sort}
use ckdb_aws.Domain.{MemoryCandidate, text_eq}
use ckdb_aws.Floats.{FloatOps}
use ckdb_aws.Recall.Diverse.{diverse-firsts, firsts}
use ckdb_aws.Recall.Order.{FloatOrder, IsAsym, IsScored, IsTrans, below-IsAsym, below-IsTrans}
use ckdb_aws.Recall.Rank.{below, diverse, pair_eq, sorted_down}
use ckdb_aws.Recall.Varied.{All-firsts, All-of_sort, All-take}

module _ (lt : MemoryCandidate → MemoryCandidate → Bool) (P : MemoryCandidate → Type 0)
    (asym : IsAsym P lt) (trans : IsTrans P lt) where
  -- None is below one that comes after it.
  Descending : List MemoryCandidate → Type 0
  Descending [] = Unit
  Descending (x ∷ xs) = All (λ y. lt x y ≡ false) xs × Descending xs

  above_every :
      (x y : MemoryCandidate) (ys : List MemoryCandidate)
      → P x
      → P y
      → All P ys
      → lt x y ≡ false
      → All (λ z. lt y z ≡ false) ys
      → All (λ z. lt x z ≡ false) ys
  above_every x y [] px py ps h hs = tt
  above_every x y (z ∷ ys) px py (pz, ps) h (k, hs) =
      (trans x y z px py pz h k, above_every x y ys px py ps h hs)

  Descending-insert :
      (x : MemoryCandidate) (xs : List MemoryCandidate)
      → P x
      → All P xs
      → Descending xs
      → Descending (insert (λ x y. not (lt x y)) x xs)
  unfolding insert Descending
  Descending-insert x [] px ps h = (tt, tt)
  Descending-insert x (y ∷ ys) px (py, ps) (hy, hs) = elim (Bool-cases (lt x y)) [
    | inl e ↦ rw e (
      All-insert (λ x y. not (lt x y)) (λ z. lt y z ≡ false) x ys (asym x y px py e) hy,
      Descending-insert x ys px ps hs,
    )
    | inr e ↦ rw e ((e, above_every x y ys px py ps e hy), (hy, hs))
  ]

  Descending-sort :
      (xs : List MemoryCandidate) → All P xs → Descending (sort (λ x y. not (lt x y)) xs)
  unfolding sort Descending
  Descending-sort [] ps = tt
  Descending-sort (x ∷ xs) (px, ps) =
      Descending-insert x _ px (All-sort _ P xs ps) (Descending-sort xs ps)

  Descending-select :
      (test : MemoryCandidate → Bool) (xs : List MemoryCandidate)
      → Descending xs
      → Descending (select test xs)
  unfolding Descending
  Descending-select test [] h = tt
  Descending-select test (x ∷ xs) h = elim (Bool-cases (test x)) [
    | inl e ↦ rw e (All-select_of _ test xs h.0, Descending-select test xs h.1)
    | inr e ↦ rw e (Descending-select test xs h.1)
  ]

  irreflexive : (x : MemoryCandidate) → P x → lt x x ≡ false
  irreflexive x px = ground (arith, asym x x px px)

  -- One that is taken, or all that are taken are above it.
  taken_or_above :
      (n : ℕ) (z : MemoryCandidate) (xs : List MemoryCandidate)
      → Descending xs
      → Among z xs
      → Among z (take n xs) ⊎ ((length (take n xs) ≡ n) × All (λ w. lt w z ≡ false) (take n xs))
  unfolding Descending
  taken_or_above zero z xs h m = inr (refl, tt)
  taken_or_above (suc n) z [] h m = elim m [ ]
  taken_or_above (suc n) z (x ∷ xs) h (inl e) = inl (inl e)
  taken_or_above (suc n) z (x ∷ xs) h (inr m) = elim (taken_or_above n z xs h.1 m) [
    | inl taken ↦ inl (inr taken)
    | inr (l, above) ↦ inr (ap suc l, (All-Among _ z xs h.0 m, above))
  ]

  above_lower :
      (z y : MemoryCandidate) (ws : List MemoryCandidate)
      → P z
      → P y
      → All P ws
      → lt z y ≡ false
      → All (λ w. lt w z ≡ false) ws
      → All (λ w. lt w y ≡ false) ws
  above_lower z y [] pz py ps h hs = tt
  above_lower z y (w ∷ ws) pz py (pw, ps) h (k, hs) =
      (trans w z y pw pz py k h, above_lower z y ws pz py ps h hs)

  module _ {K : Type 0} ⦃e : Eq K⦄ (key : MemoryCandidate → K) where
    -- One of the same key, and not below it.
    Better : List MemoryCandidate → MemoryCandidate → Type 0
    Better xs y = (z : MemoryCandidate) × Among z xs × (key z ≡ key y) × (lt z y ≡ false)

    Descending-firsts : (xs : List MemoryCandidate) → Descending xs → Descending (firsts key xs)
    unfolding firsts Descending
    Descending-firsts [] h = tt
    Descending-firsts (x ∷ xs) h = (
      All-select_of _ _ _ (All-firsts key _ xs h.0),
      Descending-select _ _ (Descending-firsts xs h.1),
    )

    Better-cons :
        (x : MemoryCandidate) (xs : List MemoryCandidate) (y : MemoryCandidate)
        → lt x y ≡ false
        → Better (firsts key xs) y
        → Better (firsts key (x ∷ xs)) y
    unfolding firsts Better
    Better-cons x xs y h (z, m, k, l) = elim (Bool-cases (e.equal (key z) (key x))) [
      | inl p ↦ (x, inl refl, sym ((e.equal_iff (key z) (key x)).0 p) ∙ k, h)
      | inr p ↦ (z, inr (Among-select _ z (firsts key xs) (ground arith) m), k, l)
    ]

    Better-firsts :
        (xs : List MemoryCandidate) → All P xs → Descending xs → All (Better (firsts key xs)) xs
    unfolding firsts Descending Better
    Better-firsts [] ps h = tt
    Better-firsts (x ∷ xs) (px, ps) h = (
      (x, inl refl, refl, irreflexive x px),
      All-map xs (λ y k. Better-cons x xs y k.0 k.1)
          (All-both _ _ xs h.0 (Better-firsts xs ps h.1)),
    )

    -- What the best of each key come to when only some are taken.
    Kept : (n : ℕ) (out : List MemoryCandidate) → MemoryCandidate → Type 0
    Kept n out y = Better out y ⊎ ((length out ≡ n) × All (λ w. lt w y ≡ false) out)

    take-Kept :
        (n : ℕ) (xs : List MemoryCandidate) (y : MemoryCandidate)
        → Descending xs
        → All P xs
        → P y
        → Better xs y
        → Kept n (take n xs) y
    unfolding Kept Better
    take-Kept n xs y d ps py (z, m, k, l) = elim (taken_or_above n z xs d m) [
      | inl taken ↦ inl (z, taken, k, l)
      | inr (full, above) ↦
          inr (full, above_lower z y _ (All-Among P z xs ps m) py (All-take P n xs ps) l above)
    ]

    firsts-Kept :
        (n : ℕ) (xs : List MemoryCandidate)
        → All P xs
        → All (Kept n (take n (firsts key (sort (λ x y. not (lt x y)) xs)))) xs
    firsts-Kept n xs ps =
        let sorted = sort (λ x y. not (lt x y)) xs in
        let ps' = All-sort _ P xs ps in
        let d = Descending-sort xs ps in
        All-of_sort _ _ xs (
          All-map sorted
            (λ y k.
              take-Kept n (firsts key sorted) y (Descending-firsts sorted d)
                (All-firsts key P sorted ps') k.0 k.1)
            (All-both P _ sorted ps' (Better-firsts sorted ps' d)))

module _ (f : FloatOps) (o : FloatOrder f) {K : Type 0} ⦃e : Eq K⦄ (key : MemoryCandidate → K) where
  -- Where the scores are numbers, the best are selected: for each candidate, either one of the same
  -- key is selected that does not rank below it, or as many are selected as the limit allows and
  -- none of them ranks below it.
  pub diverse_best :
      (fit : List MemoryCandidate) (limit : ℕ)
      → All (IsScored f o) fit
      → All
          (λ y.
            ((z : MemoryCandidate) × Among z (diverse f fit limit key)
              × (key z ≡ key y)
              × (below f z y ≡ false))
            ⊎ ((length (diverse f fit limit key) ≡ max limit 1)
                × All (λ w. below f w y ≡ false) (diverse f fit limit key)))
          fit
  unfolding sorted_down Kept Better
  diverse_best fit limit ps = rw (diverse-firsts key f fit limit) (
      firsts-Kept (below f) (IsScored f o) (below-IsAsym f o) (below-IsTrans f o) key (max limit 1)
        fit ps)
