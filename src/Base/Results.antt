-- ===== src/Base/Results.antt =====
-- Fallible code, and code that changes a state and may raise. What was written before a raise
-- stays written, so the state comes back beside an error too.
use mathlib.Core.Path.{◌≡◌, refl, sym, ap, subst, ◌∙◌}
use mathlib.Core.List.{List, [], ◌∷◌, map}
use ckdb_aws.Base.Lists.{All}
use mathlib.Core.Logic.{◌⊎◌, inl, inr}
use mathlib.Core.Bool.{Bool, true, false}
use mathlib.Core.Option.{Option, none, some}

pub data Result {ℓ} (E A : Type ℓ) : Type ℓ where
  ok : A → Result E A
  err : E → Result E A

-- `if not test: raise`
abbrev pub guard : {E : Type 0} → Bool → E → Result E (Unit {0})
guard false x = err x
guard true x = ok tt

pub Result-cases {ℓ} :
    {E A : Type ℓ} (r : Result E A) → ((a : A) × (r ≡ ok a)) ⊎ ((x : E) × (r ≡ err x))
Result-cases (ok a) = inl (a, refl)
Result-cases (err x) = inr (x, refl)

pub ok-injective {ℓ} : {E A : Type ℓ} {a b : A} → ◌≡◌ {A = Result E A} (ok a) (ok b) → a ≡ b
ok-injective h = cc

module _ {ℓ} {E A B : Type ℓ} where
  infixl 5 ◌>>=◌
  abbrev pub ◌>>=◌ : Result E A → (A → Result E B) → Result E B
  ok a >>= f = f a
  err x >>= f = err x

  pub >>=-eq-ok :
      (first : Result E A) (next : A → Result E B) {c : B}
      → (first >>= next) ≡ ok c
      → (x : A) × (first ≡ ok x) × (next x ≡ ok c)
  >>=-eq-ok (err e) next h = cc
  >>=-eq-ok (ok x) next h = (x, refl, h)

-- `if value is None: raise`
abbrev pub required : {E A : Type 0} → Option A → E → Result E A
required none x = err x
required (some a) x = ok a

module _ {E B : Type 0} where
  infixl 5 ◌>>◌
  abbrev pub ◌>>◌ : Result E (Unit {0}) → Result E B → Result E B
  m >> k = m >>= λ _. k

-- `[f(x) for x in xs]` where `f` may raise
abbrev pub traverse : {E A B : Type 0} → (A → Result E B) → List A → Result E (List B)
traverse f [] = ok []
traverse f (x ∷ xs) = f x >>= λ y. traverse f xs >>= λ ys. ok (y ∷ ys)

module _ {E A B : Type 0} (f : A → Result E B) where
  pub traverse-cons :
      (x : A) (xs : List A) (zs : List B)
      → traverse f (x ∷ xs) ≡ ok zs
      → (y : B) × (ys : List B) × (f x ≡ ok y) × (traverse f xs ≡ ok ys) × (y ∷ ys ≡ zs)
  traverse-cons x xs zs h =
      let (y, e, k) = >>=-eq-ok (f x) _ h in
      let (ys, e', k') = >>=-eq-ok (traverse f xs) _ k in (y, ys, e, e', cc k')

  pub traverse-All :
      (P : B → Type 0) (xs : List A) (zs : List B)
      → ((x : A) (y : B) → f x ≡ ok y → P y)
      → traverse f xs ≡ ok zs
      → All P zs
  traverse-All P [] zs keep h = let e : [] ≡ zs = cc in subst (All P) e tt
  traverse-All P (x ∷ xs) zs keep h =
      let (y, ys, e, e', q) = traverse-cons x xs zs h in
      subst (All P) q (keep x y e, traverse-All P xs ys keep e')

  pub traverse-map :
      {C : Type 0} (g : A → C) (k : B → C) (xs : List A) (zs : List B)
      → ((x : A) (y : B) → f x ≡ ok y → k y ≡ g x)
      → traverse f xs ≡ ok zs
      → map k zs ≡ map g xs
  traverse-map g k [] zs keep h = let e : zs ≡ [] = cc in ap (map k) e
  traverse-map g k (x ∷ xs) zs keep h =
      let (y, ys, e, e', q) = traverse-cons x xs zs h in
      ap (map k) (sym q) ∙ cc (keep x y e, traverse-map g k xs ys keep e')

  -- What a loop raises, one of its rounds raises.
  pub traverse_error :
      (e : E) (xs : List A)
      → ((x : A) (i : E) → f x ≡ err i → i ≡ e)
      → (i : E) → traverse f xs ≡ err i
      → i ≡ e
  traverse_error e [] only i h = cc
  traverse_error e (x ∷ xs) only i h = elim (Result-cases (f x)) [
    | inr (j, p) ↦ cc (only x j p, p, h)
    | inl (y, p) ↦ elim (Result-cases (traverse f xs)) [
      | inr (j, q) ↦ cc (traverse_error e xs only j q, p, q, h)
      | inl (ys, q) ↦ cc (p, q, h)
    ]
  ]

abbrev pub map_ok {ℓ} : {E A B : Type ℓ} → (A → B) → Result E A → Result E B
map_ok f (ok a) = ok (f a)
map_ok f (err x) = err x

pub map_ok-eq-ok {ℓ} :
    {E A B : Type ℓ} (f : A → B) (r : Result E A) {b : B}
    → map_ok f r ≡ ok b
    → (a : A) × (r ≡ ok a) × (f a ≡ b)
map_ok-eq-ok f (ok a) h = (a, refl, ok-injective h)
map_ok-eq-ok f (err x) h = absurd cc

pub ok-ne-err {ℓ} : {E A : Type ℓ} {a : A} {x : E} → ¬ (◌≡◌ {A = Result E A} (ok a) (err x))
ok-ne-err h = cc
