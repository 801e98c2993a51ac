-- ===== src/Recall/Diverse.antt =====
-- What `_diverse` of backend/src/postmortem_backend/recall.py selects.
use ckdb_aws.Base.{
  Bool, Bool-cases, Eq, List, [], ap, arith, elem, false, inl, inr, leb, max, nat_eq, not, refl,
  select, string_eq, subst, suc, sym, take, true, zero, ℕ, ◌&&◌, ◌+◌, ◌-◌, ◌<◌, ◌∙◌, ◌∷◌, ◌≡◌,
}
use ckdb_aws.Domain.{MemoryCandidate, text_eq}
use ckdb_aws.Floats.{FloatOps}
use ckdb_aws.Recall.Rank.{diverse, select_diverse, sorted_down}

module _ {A : Type 0} where
  select-select :
      (p q r : A → Bool) (xs : List A)
      → ((x : A) → r x ≡ (p x && q x))
      → select p (select q xs) ≡ select r xs
  select-select p q r [] h = refl
  select-select p q r (x ∷ xs) h = elim (Bool-cases (q x)) [
    | inl e ↦ elim (Bool-cases (p x)) [
      | inl e' ↦
          let both : r x ≡ true = ground (arith, h x) in
          rw (e, both, e') (ap (λ ys. x ∷ ys) (select-select p q r xs h))
      | inr e' ↦
          let both : r x ≡ false = ground (arith, h x) in
          rw (e, both, e') (select-select p q r xs h)
    ]
    | inr e ↦
        let both : r x ≡ false = ground (arith, h x) in rw (e, both) (select-select p q r xs h)
  ]

  select-all : (p : A → Bool) (xs : List A) → ((x : A) → p x ≡ true) → select p xs ≡ xs
  select-all p [] h = refl
  select-all p (x ∷ xs) h = rw (h x) (ap (λ ys. x ∷ ys) (select-all p xs h))

  take-nil : (n : ℕ) → ◌≡◌ {A = List A} (take n []) []
  take-nil zero = refl
  take-nil (suc n) = refl

module _ {K : Type 0} ⦃e : Eq K⦄ (key : MemoryCandidate → K) where
  -- The first item of each key.
  unfoldable pub firsts : List MemoryCandidate → List MemoryCandidate
  firsts [] = []
  firsts (x ∷ xs) = x ∷ select (λ y. not (e.equal (key y) (key x))) (firsts xs)

  -- Its key is not among those seen.
  abbrev fresh : List K → MemoryCandidate → Bool
  fresh seen y = not (elem (key y) seen)

  elem_of_equal :
      (a c : K) (seen : List K) → e.equal a c ≡ true → elem c seen ≡ true → elem a seen ≡ true
  elem_of_equal a c seen h k = subst (λ x. elem x seen ≡ true) (sym ((e.equal_iff a c).0 h)) k

  -- An item whose key has been seen leaves nothing out that is fresh.
  fresh-other :
      (seen : List K) (c : K) (y : MemoryCandidate)
      → elem c seen ≡ true
      → fresh seen y ≡ (fresh seen y && not (e.equal (key y) c))
  fresh-other seen c y h = ground (arith, elem_of_equal (key y) c seen)

  pub select_diverse-firsts :
      (limit : ℕ) (seen : List K) (n : ℕ) (xs : List MemoryCandidate)
      → n < max limit 1
      → select_diverse key limit seen n xs
        ≡ take (max limit 1 - n) (select (fresh seen) (firsts xs))
  unfolding select_diverse firsts
  select_diverse-firsts limit seen n [] h = sym (take-nil _)
  select_diverse-firsts limit seen n (x ∷ xs) h = elim (Bool-cases (elem (key x) seen)) [
    | inl p ↦
        rw
          (
            p,
            select-select (fresh seen) (λ y. not (e.equal (key y) (key x))) (fresh seen) (firsts xs)
                (λ y. fresh-other seen (key x) y p),
          )
          (select_diverse-firsts limit seen n xs h)
    | inr p ↦ elim (Bool-cases (leb limit (n + 1))) [
      | inl q ↦ let last : max limit 1 - n ≡ 1 = ground arith in rw (p, q, last) refl
      | inr q ↦
          let rest : max limit 1 - n ≡ suc (max limit 1 - (n + 1)) = ground arith in
          rw (p, q, rest)
            (ap (λ ys. x ∷ ys)
              (select_diverse-firsts limit (key x ∷ seen) (n + 1) xs (ground arith)
                ∙ ap (take _) (
                    sym (
                      select-select (fresh seen) (λ y. not (e.equal (key y) (key x)))
                        (fresh (key x ∷ seen)) (firsts xs) (λ y. ground arith)))))
    ]
  ]

  -- `_diverse` takes the first items, in the order of the ranking, of the different keys, up to the
  -- limit, and one where the limit is 0.
  pub diverse-firsts :
      (f : FloatOps) (xs : List MemoryCandidate) (limit : ℕ)
      → diverse f xs limit key ≡ take (max limit 1) (firsts (sorted_down f xs))
  unfolding diverse
  diverse-firsts f xs limit =
      select_diverse-firsts limit [] 0 (sorted_down f xs) (ground arith)
      ∙ ap (take _) (select-all (fresh []) _ (λ y. refl))
      ∙ ap (λ n. take n (firsts (sorted_down f xs))) (omega arith)
