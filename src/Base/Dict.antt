-- ===== src/Base/Dict.antt =====
-- Dictionaries as association lists in insertion order, as Python's are.
use mathlib.Core.Path.{◌≡◌, refl, sym, ap, subst}
use mathlib.Core.Bool.{Bool, true, false}
use mathlib.Core.Logic.{◌≢◌, inl, inr}
use mathlib.Core.Option.{Option, none, some, none-ne-some, some-injective}
use mathlib.Core.List.{List, [], ◌∷◌}
use native.Mathlib.Omega.{arith}
use ckdb_aws.Base.Tests.{Bool-cases, Eq, if◌then◌else◌}
use ckdb_aws.Base.Lists.{All, find?}

abbrev pub Dict {ℓ} : Type ℓ → Type ℓ → Type ℓ
Dict K V = List (K × V)

module _ {ℓ} {K V : Type ℓ} ⦃e : Eq K⦄ where
  unfoldable pub get : K → Dict K V → Option V
  get k [] = none
  get k ((j, v) ∷ d) = if e.equal j k then some v else get k d

  -- `d[k] = v`: an old key keeps its place
  unfoldable pub put : K → V → Dict K V → Dict K V
  put k v [] = (k, v) ∷ []
  put k v ((j, w) ∷ d) = if e.equal j k then (j, v) ∷ d else (j, w) ∷ put k v d

  -- `d.setdefault(k, v)`
  unfoldable pub set_default : K → V → Dict K V → Dict K V
  unfolding get put
  set_default k v d = elim (get k d) [ none ↦ put k v d | some w ↦ d ]

  pub get-put :
      (k j : K) (v : V) (d : Dict K V)
      → get j (put k v d) ≡ (if e.equal k j then some v else get j d)
  unfolding get put
  get-put k j v [] = refl
  get-put k j v ((i, w) ∷ d) =
      ground (arith, e.equal_iff k j, e.equal_iff i k, e.equal_iff i j, get-put k j v d)

  pub get-put_self : (k : K) (v : V) (d : Dict K V) → get k (put k v d) ≡ some v
  get-put_self k v d = ground (arith, get-put k k v d, e.equal_iff k k)

  pub get-put_ne : (k j : K) (v : V) (d : Dict K V) → k ≢ j → get j (put k v d) ≡ get j d
  get-put_ne k j v d ne = ground (arith, get-put k j v d, e.equal_iff k j)

  pub put-put : (k : K) (v w : V) (d : Dict K V) → put k w (put k v d) ≡ put k w d
  unfolding put
  put-put k v w [] = ground (arith, e.equal_iff k k)
  put-put k v w ((i, x) ∷ d) = ground (arith, e.equal_iff i k, put-put k v w d)

  -- What `next` over `d.items()` does not find is under no key.
  pub find?-none :
      (test : K × V → Bool) (d : Dict K V) (k : K) (v : V)
      → find? test d ≡ none
      → get k d ≡ some v
      → test (k, v) ≡ false
  unfolding get
  find?-none test [] k v h g = cc
  find?-none test ((j, w) ∷ d) k v h g = ground (arith, e.equal_iff j k, find?-none test d k v)

  -- A new key goes last, so `next` finds it if it found nothing before.
  pub find?-put :
      (test : K × V → Bool) (d : Dict K V) (k : K) (v : V)
      → find? test d ≡ none
      → get k d ≡ none
      → test (k, v) ≡ true
      → find? test (put k v d) ≡ some (k, v)
  unfolding get put
  find?-put test [] k v h g t = rw t
  find?-put test ((j, w) ∷ d) k v h g t = ground (arith, find?-put test d k v)

module _ {K V : Type 0} ⦃e : Eq K⦄ (P : K × V → Type 0) where
  pub All-get : (k : K) (v : V) (d : Dict K V) → All P d → get k d ≡ some v → P (k, v)
  unfolding get
  All-get k v [] hs g = absurd (none-ne-some v g)
  All-get k v ((j, w) ∷ d) (h, hs) g = elim (Bool-cases (e.equal j k)) [
    | inl p ↦
        subst P (ap (λ i. (i, v)) ((e.equal_iff j k).0 p))
          (subst (λ x. P (j, x)) (some-injective _ _ (rw p at g)) h)
    | inr p ↦ All-get k v d hs (rw p at g)
  ]

  pub All-put : (k : K) (v : V) (d : Dict K V) → P (k, v) → All P d → All P (put k v d)
  unfolding put
  All-put k v [] h hs = (h, tt)
  All-put k v ((j, w) ∷ d) h (i, is) = elim (Bool-cases (e.equal j k)) [
    | inl p ↦ rw p (subst P (ap (λ i. (i, v)) (sym ((e.equal_iff j k).0 p))) h, is)
    | inr p ↦ rw p (i, All-put k v d h is)
  ]
