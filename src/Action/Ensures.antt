-- ===== src/Action/Ensures.antt =====
-- What a call makes of a state, by whether it returns or raises.
use ckdb_aws.Action.{Action, modify, then_with, ◌>>=◌}
use ckdb_aws.Action.Runs.{Runs}
use ckdb_aws.Base.{Result, err, ok, refl, subst, ◌≡◌}
use ckdb_aws.Domain.{Error}

abbrev pub Post : {W A : Type 0} → (A → W → Type 0) → (W → Type 0) → Result Error A × W → Type 0
Post Q X (ok a, w) = Q a w
Post Q X (err e, w) = X w

-- From a state with `P`, the call returns with `Q` or raises with `X`.
pub record Ensures {W A : Type 0} (P : W → Type 0) (m : Action W A) (Q : A → W → Type 0)
    (X : W → Type 0) : Type 0 where
  pub run : (w : W) → P w → Post Q X (m w)

module _ {W : Type 0} {P X : W → Type 0} where
  pub Ensures->>= :
      {A B : Type 0} {m : Action W A} {f : A → Action W B} {Q : A → W → Type 0} {R : B → W → Type 0}
      → Ensures P m Q X
      → ((a : A) → Ensures (Q a) (f a) R X)
      → Ensures P (m >>= f) R X
  unfolding ◌>>=◌
  Ensures->>= {m = m} {f = f} {Q = Q} {R = R} p q = record { run = λ w h. go (m w) (p.run w h) }
    where
      go : (r : Result Error _ × W) → Post Q X r → Post R X (then_with r f)
      go (ok a, w) h = (q a).run w h
      go (err e, w) h = h

  pub Ensures-kept :
      {A : Type 0} {m : Action W A}
      → Runs (λ w w'. P w → P w') m
      → ((w : W) → P w → X w)
      → Ensures P m (λ _. P) X
  Ensures-kept {A} {m = m} k weaker = record { run = λ w h. go (m w) (k.run w h) }
    where
      go : (r : Result Error A × W) → P r.1 → Post (λ _. P) X r
      go (ok a, w) h = h
      go (err e, w) h = weaker w h

  pub Ensures-modify :
      {Q : W → Type 0} {f : W → W} → ((w : W) → P w → Q (f w)) → Ensures P (modify f) (λ _. Q) X
  Ensures-modify h = record { run = h }

  -- What holds whether the call returns or raises.
  pub Ensures-either :
      {A : Type 0} {m : Action W A} → Ensures P m (λ _. X) X → (w : W) → P w → X (m w).1
  Ensures-either {A} {m = m} e w h = go (m w) (e.run w h)
    where
      go : (r : Result Error A × W) → Post (λ _. X) X r → X r.1
      go (ok a, w') k = k
      go (err x, w') k = k

  pub Ensures-read :
      {A : Type 0} {Q : A → W → Type 0} (f : W → Result Error A)
      → ((w : W) (a : A) → P w → f w ≡ ok a → Q a w)
      → ((w : W) → P w → X w)
      → Ensures P (λ w. (f w, w)) Q X
  Ensures-read {A} {Q = Q} f reads weaker = record { run = λ w h. go w h (f w) refl }
    where
      go : (w : W) → P w → (r : Result Error A) → f w ≡ r → Post Q X (r, w)
      go w h (ok a) e = reads w a h e
      go w h (err e) _ = weaker w h

  pub Ensures-weaken :
      {A : Type 0} {m : Action W A} {Q R : A → W → Type 0}
      → Ensures P m Q X
      → ((a : A) (w : W) → Q a w → R a w)
      → Ensures P m R X
  Ensures-weaken {A} {m = m} {Q = Q} {R = R} e weaker = record { run = λ w h. go (m w) (e.run w h) }
    where
      go : (r : Result Error A × W) → Post Q X r → Post R X r
      go (ok a, w) h = weaker a w h
      go (err x, w) h = h

-- What a call that returned has ensured.
pub Ensures-returned :
    {W A : Type 0} {P X : W → Type 0} {m : Action W A} {Q : A → W → Type 0}
    → Ensures P m Q X
    → (w w' : W) (a : A) → P w
    → m w ≡ (ok a, w')
    → Q a w'
Ensures-returned {X = X} {Q = Q} e w w' a h p = subst (Post Q X) p (e.run w h)
