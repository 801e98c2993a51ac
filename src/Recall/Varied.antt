-- ===== src/Recall/Varied.antt =====
-- The first items of the different keys: no key twice, and each key there is
-- (`_diverse` of backend/src/postmortem_backend/recall.py).
use ckdb_aws.Base.{
  All, All-map, All-select, All-select_of, Bool, Bool-cases, Eq, List, [], arith, elem, false, inl,
  inr, leb, leb→le, length, map, max, min, nat_eq, not, refl, select, string_eq, subst, suc, sym,
  take, take-short, true, zero, ℕ, ◌∷◌, ◌≡◌, ◌≤◌, ◌⊎◌,
}
use ckdb_aws.Base.Sort.{insert, sort}
use ckdb_aws.Domain.{MemoryCandidate, text_eq}
use ckdb_aws.Floats.{FloatOps}
use ckdb_aws.Recall.Diverse.{diverse-firsts, firsts}
use ckdb_aws.Recall.Rank.{diverse, sorted_down}

module _ {A : Type 0} (P : A → Type 0) where
  pub All-take : (n : ℕ) (xs : List A) → All P xs → All P (take n xs)
  All-take zero xs h = tt
  All-take (suc n) [] h = tt
  All-take (suc n) (x ∷ xs) h = (h.0, All-take n xs h.1)

  module _ (le : A → A → Bool) where
    All-of_insert : (x : A) (xs : List A) → All P (insert le x xs) → P x × All P xs
    unfolding insert
    All-of_insert x [] h = h
    All-of_insert x (y ∷ ys) h = elim (Bool-cases (le x y)) [
      | inl e ↦ rw e at h
      | inr e ↦
          let (hy, hs) : P y × All P (insert le x ys) = rw e at h in
          let (hx, rest) = All-of_insert x ys hs in (hx, (hy, rest))
    ]

    pub All-of_sort : (xs : List A) → All P (sort le xs) → All P xs
    unfolding sort
    All-of_sort [] h = tt
    All-of_sort (x ∷ xs) h =
        let (hx, hs) = All-of_insert x (sort le xs) h in (hx, All-of_sort xs hs)

length-take : {A : Type 0} (n : ℕ) (xs : List A) → length (take n xs) ≡ min n (length xs)
length-take zero xs = omega arith
length-take (suc n) [] = omega arith
length-take (suc n) (x ∷ xs) = omega (arith, length-take n xs)

module _ {K : Type 0} ⦃e : Eq K⦄ (key : MemoryCandidate → K) where
  -- No two items have the same key.
  pub Distinct : List MemoryCandidate → Type 0
  Distinct [] = Unit
  Distinct (x ∷ xs) = All (λ y. e.equal (key y) (key x) ≡ false) xs × Distinct xs

  Distinct-select :
      (test : MemoryCandidate → Bool) (xs : List MemoryCandidate)
      → Distinct xs
      → Distinct (select test xs)
  unfolding Distinct
  Distinct-select test [] h = tt
  Distinct-select test (x ∷ xs) h = elim (Bool-cases (test x)) [
    | inl p ↦ rw p (All-select_of _ test xs h.0, Distinct-select test xs h.1)
    | inr p ↦ rw p (Distinct-select test xs h.1)
  ]

  Distinct-take : (n : ℕ) (xs : List MemoryCandidate) → Distinct xs → Distinct (take n xs)
  unfolding Distinct
  Distinct-take zero xs h = tt
  Distinct-take (suc n) [] h = tt
  Distinct-take (suc n) (x ∷ xs) h = (All-take _ n xs h.0, Distinct-take n xs h.1)

  firsts-Distinct : (xs : List MemoryCandidate) → Distinct (firsts key xs)
  unfolding firsts Distinct
  firsts-Distinct [] = tt
  firsts-Distinct (x ∷ xs) = (
    All-select (λ y. e.equal (key y) (key x) ≡ false) _ (firsts key xs) (λ y p. ground arith),
    Distinct-select _ (firsts key xs) (firsts-Distinct xs),
  )

  -- An item with that key is there.
  abbrev pub Has : List MemoryCandidate → MemoryCandidate → Type 0
  Has xs y = elem (key y) (map key xs) ≡ true

  equal_trans : (a c d : K) → e.equal a c ≡ true → e.equal c d ≡ true → e.equal a d ≡ true
  equal_trans a c d h k = subst (λ x. e.equal x d ≡ true) (sym ((e.equal_iff a c).0 h)) k

  Has-select :
      (c : K) (y : MemoryCandidate) (xs : List MemoryCandidate)
      → e.equal (key y) c ≡ false
      → Has xs y
      → Has (select (λ z. not (e.equal (key z) c)) xs) y
  Has-select c y [] h k = k
  Has-select c y (x ∷ xs) h k = elim (Bool-cases (e.equal (key x) c)) [
    | inl p ↦ rw p (Has-select c y xs h (ground (arith, equal_trans (key y) (key x) c)))
    | inr p ↦ elim (Bool-cases (e.equal (key y) (key x))) [
      | inl r ↦ rw (p, r) refl
      | inr r ↦ rw (p, r) (Has-select c y xs h (rw r at k))
    ]
  ]

  firsts-Has :
      (y : MemoryCandidate) (x : MemoryCandidate) (xs : List MemoryCandidate)
      → Has (firsts key xs) y
      → Has (firsts key (x ∷ xs)) y
  unfolding firsts
  firsts-Has y x xs h = elim (Bool-cases (e.equal (key y) (key x))) [
    | inl p ↦ rw p refl
    | inr p ↦ rw p (Has-select (key x) y (firsts key xs) p h)
  ]

  All-Has : (xs : List MemoryCandidate) → All (Has (firsts key xs)) xs
  unfolding firsts
  All-Has [] = tt
  All-Has (x ∷ xs) = (
    ground (arith, e.equal_iff (key x) (key x)),
    All-map xs (λ y. firsts-Has y x xs) (All-Has xs),
  )

  -- The items of different keys, one for each key of the others unless the limit is reached.
  pub Represented : (limit : ℕ) (fit out : List MemoryCandidate) → Type 0
  Represented limit fit out =
      Distinct out × (length out ≤ max limit 1) × ((length out ≡ max limit 1) ⊎ All (Has out) fit)

  take-Has :
      (n : ℕ) (xs ys : List MemoryCandidate)
      → All (Has xs) ys
      → (length (take n xs) ≡ n) ⊎ All (Has (take n xs)) ys
  take-Has n xs ys h = elim (Bool-cases (leb (length xs) n)) [
    | inl p ↦ inr (rw (take-short n xs (leb→le (length xs) n p)) h)
    | inr p ↦ inl (ground (arith, length-take n xs))
  ]

  pub diverse-Represented :
      (f : FloatOps) (fit : List MemoryCandidate) (limit : ℕ)
      → Represented limit fit (diverse f fit limit key)
  unfolding Represented sorted_down
  diverse-Represented f fit limit = rw (diverse-firsts key f fit limit) (
    Distinct-take _ _ (firsts-Distinct _),
    omega (arith, length-take (max limit 1) (firsts key (sorted_down f fit))),
    take-Has _ _ fit (All-of_sort _ _ fit (All-Has (sorted_down f fit))),
  )

module _ {K : Type 0} ⦃e : Eq K⦄ (key : MemoryCandidate → K) (P : MemoryCandidate → Type 0) where
  pub All-firsts : (xs : List MemoryCandidate) → All P xs → All P (firsts key xs)
  unfolding firsts
  All-firsts [] h = tt
  All-firsts (x ∷ xs) h = (h.0, All-select_of P _ (firsts key xs) (All-firsts xs h.1))
