-- ===== src/Base/Lists.antt =====
-- Lists measured by native numbers, predicates on their items, and first matches.
use Prim.Native.Nat.{ℕ, zero, suc, ◌+◌, ◌≤◌, ◌<◌}
use mathlib.Core.Path.{◌≡◌, ap, refl, subst, sym}
use mathlib.Core.Bool.{Bool, true, false, ◌||◌}
use mathlib.Core.Option.{Option, none, some}
use mathlib.Core.List.{List, [], ◌∷◌, ◌++◌}
use native.Mathlib.Omega.{arith}
use mathlib.Core.Logic.{◌⊎◌, inl, inr}
use ckdb_aws.Base.Tests.{if◌then◌else◌, Bool-cases}

module _ {ℓ} {A : Type ℓ} where
  abbrev pub length : List A → ℕ
  length [] = 0
  length (x ∷ xs) = suc (length xs)

  abbrev pub get_elem? : List A → ℕ → Option A
  get_elem? [] i = none
  get_elem? (x ∷ xs) zero = some x
  get_elem? (x ∷ xs) (suc i) = get_elem? xs i

  abbrev pub get_last? : List A → Option A
  get_last? [] = none
  get_last? (x ∷ []) = some x
  get_last? (x ∷ y ∷ xs) = get_last? (y ∷ xs)

  abbrev pub drop : ℕ → List A → List A
  drop zero xs = xs
  drop (suc n) [] = []
  drop (suc n) (x ∷ xs) = drop n xs

  -- `[x for x in xs if test(x)]`
  abbrev pub select : (A → Bool) → List A → List A
  select test [] = []
  select test (x ∷ xs) = if test x then x ∷ select test xs else select test xs

  -- `next((x for x in xs if test(x)), None)`
  abbrev pub find? : (A → Bool) → List A → Option A
  find? test [] = none
  find? test (x ∷ xs) = if test x then some x else find? test xs

  abbrev pub any : (A → Bool) → List A → Bool
  any test [] = false
  any test (x ∷ xs) = test x || any test xs

  abbrev pub All {κ} : (A → Type κ) → List A → Type κ
  All P [] = Unit
  All P (x ∷ xs) = P x × All P xs

  pub get_elem?-lt_length : (xs : List A) (n : ℕ) (x : A) → get_elem? xs n ≡ some x → n < length xs
  get_elem?-lt_length [] n x h = ground arith
  get_elem?-lt_length (y ∷ xs) zero x h = omega arith
  get_elem?-lt_length (y ∷ xs) (suc n) x h = omega (arith, get_elem?-lt_length xs n x h)

  pub length-le_of_get_elem? : (xs : List A) (n : ℕ) → get_elem? xs n ≡ none → length xs ≤ n
  length-le_of_get_elem? [] n h = omega arith
  length-le_of_get_elem? (y ∷ xs) zero h = ground arith
  length-le_of_get_elem? (y ∷ xs) (suc n) h = omega (arith, length-le_of_get_elem? xs n h)

  pub length-append : (xs ys : List A) → length (xs ++ ys) ≡ length xs + length ys
  length-append [] ys = omega arith
  length-append (x ∷ xs) ys = omega (arith, length-append xs ys)

  pub length-select-le : (test : A → Bool) (xs : List A) → length (select test xs) ≤ length xs
  length-select-le test [] = omega arith
  length-select-le test (x ∷ xs) = ground (arith, length-select-le test xs)

  pub find?-holds : (test : A → Bool) (xs : List A) (x : A) → find? test xs ≡ some x → test x ≡ true
  find?-holds test [] x h = ground arith
  find?-holds test (y ∷ xs) x h = ground (arith, find?-holds test xs x)

module _ {ℓ κ} {A : Type ℓ} (P : A → Type κ) where
  pub All-append : (xs ys : List A) → All P xs → All P ys → All P (xs ++ ys)
  All-append [] ys h k = k
  All-append (x ∷ xs) ys h k = (h.0, All-append xs ys h.1 k)

  pub All-select :
      (test : A → Bool) (xs : List A) → ((x : A) → test x ≡ true → P x) → All P (select test xs)
  All-select test [] h = tt
  All-select test (x ∷ xs) h = elim (Bool-cases (test x)) [
    | inl e ↦ rw e (h x e, All-select test xs h)
    | inr e ↦ rw e (All-select test xs h)
  ]

  pub All-select_of : (test : A → Bool) (xs : List A) → All P xs → All P (select test xs)
  All-select_of test [] h = tt
  All-select_of test (x ∷ xs) h = elim (Bool-cases (test x)) [
    | inl e ↦ rw e (h.0, All-select_of test xs h.1)
    | inr e ↦ rw e (All-select_of test xs h.1)
  ]

pub All-map {ℓ κ} :
    {A : Type ℓ} {P R : A → Type κ} (xs : List A) → ((x : A) → P x → R x) → All P xs → All R xs
All-map [] f hs = tt
All-map (x ∷ xs) f (h, hs) = (f x h, All-map xs f hs)

-- `x in xs`, as a proposition.
abbrev pub Among : {A : Type 0} → A → List A → Type 0
Among x [] = ⊥
Among x (y ∷ ys) = (x ≡ y) ⊎ Among x ys

module _ {A : Type 0} (P : A → Type 0) where
  pub All-both : (R : A → Type 0) (xs : List A) → All P xs → All R xs → All (λ x. P x × R x) xs
  All-both R [] hs ks = tt
  All-both R (x ∷ xs) (h, hs) (k, ks) = ((h, k), All-both R xs hs ks)

  pub All-Among : (x : A) (xs : List A) → All P xs → Among x xs → P x
  All-Among x [] hs m = elim m [ ]
  All-Among x (y ∷ ys) (h, hs) (inl e) = subst P (sym e) h
  All-Among x (y ∷ ys) (h, hs) (inr m) = All-Among x ys hs m

pub Among-select :
    {A : Type 0} (test : A → Bool) (x : A) (xs : List A)
    → test x ≡ true
    → Among x xs
    → Among x (select test xs)
Among-select test x [] t m = m
Among-select test x (y ∷ ys) t m = elim (Bool-cases (test y)) [
  | inl e ↦ elim m [ inl p ↦ rw e (inl p) | inr n ↦ rw e (inr (Among-select test x ys t n)) ]
  | inr e ↦ elim m [ inl p ↦ absurd (cc (t, e, p)) | inr n ↦ rw e (Among-select test x ys t n) ]
]

abbrev pub take {ℓ} : {A : Type ℓ} → ℕ → List A → List A
take zero xs = []
take (suc n) [] = []
take (suc n) (x ∷ xs) = x ∷ take n xs

pub take-full {ℓ} : {A : Type ℓ} → (n : ℕ) (xs ys : List A) → length xs ≡ n → take n (xs ++ ys) ≡ xs
take-full zero [] ys h = refl
take-full zero (x ∷ xs) ys h = absurd (omega arith)
take-full (suc n) [] ys h = absurd (omega arith)
take-full (suc n) (x ∷ xs) ys h = ap (λ r. x ∷ r) (take-full n xs ys (omega arith))

pub take-short {ℓ} : {A : Type ℓ} → (n : ℕ) (xs : List A) → length xs ≤ n → take n xs ≡ xs
take-short zero [] h = refl
take-short zero (x ∷ xs) h = absurd (omega arith)
take-short (suc n) [] h = refl
take-short (suc n) (x ∷ xs) h = ap (λ r. x ∷ r) (take-short n xs (omega arith))
