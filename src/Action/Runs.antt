-- ===== src/Action/Runs.antt =====
-- What holds between the state of a turn before and after a call, whatever the call returns or
-- raises (backend/src/postmortem_backend/service.py).
use ckdb_aws.Base.{Result, err, inl, inr, map_ok, ok, refl, sym, ◌∙◌, ◌≡◌, ◌⊎◌}
use ckdb_aws.Domain.{Error}
use ckdb_aws.Action.{Action, return, then_with, ◌>>=◌}

-- `R` holds between the states before and after `m`.
pub record Runs {W A : Type 0} (R : W → W → Type 0) (m : Action W A) : Type 0 where
  pub run : (w : W) → R w (m w).1

module _ {W : Type 0} {R : W → W → Type 0} (trans : (a b c : W) → R a b → R b c → R a c) where
  pub Runs->>= :
      {A B : Type 0} {m : Action W A} {f : A → Action W B}
      → Runs R m
      → ((a : A) → Runs R (f a))
      → Runs R (m >>= f)
  unfolding ◌>>=◌
  Runs->>= {m = m} {f = f} p q = record { run = λ w. go w (m w) (p.run w) }
    where
      go : (w : W) (r : Result Error _ × W) → R w r.1 → R w (then_with r f).1
      go w (ok a, w') h = trans w w' (f a w').1 h ((q a).run w')
      go w (err e, w') h = h

-- A sequence raises what its first part raises, or goes on from where its first part returned.
pub >>=-cases :
    {W A B : Type 0} (m : Action W A) (f : A → Action W B) (w : W)
    → ((e : Error) × (w' : W) × (m w ≡ (err e, w')) × ((m >>= f) w ≡ (err e, w')))
      ⊎ ((a : A) × (w' : W) × (m w ≡ (ok a, w')) × ((m >>= f) w ≡ f a w'))
unfolding ◌>>=◌
>>=-cases {W = W} m f w = go (m w) refl
  where
    go :
        (r : Result Error _ × _)
        → m w ≡ r
        → ((e : Error) × (w' : W) × (m w ≡ (err e, w')) × (then_with (m w) f ≡ (err e, w')))
          ⊎ ((a : _) × (w' : W) × (m w ≡ (ok a, w')) × (then_with (m w) f ≡ f a w'))
    go (ok a, w') h = inr (a, w', h, rw h refl)
    go (err e, w') h = inl (e, w', h, rw h refl)

-- A sequence whose second part only returns.
pub >>=-return :
    {W A B : Type 0} (m : Action W A) (f : A → B) (w : W)
    → (m >>= λ a. return (f a)) w ≡ (map_ok f (m w).0, (m w).1)
unfolding ◌>>=◌
>>=-return {W = W} m f w = go (m w)
  where
    go : (r : Result Error _ × W) → then_with r (λ a. return {W = W} (f a)) ≡ (map_ok f r.0, r.1)
    go (ok a, w') = refl
    go (err e, w') = refl

pub >>=-returns :
    {W A B : Type 0} (m : Action W A) (f : A → Action W B) {w w' : W} {b : B}
    → (m >>= f) w ≡ (ok b, w')
    → (a : A) × (w₁ : W) × (m w ≡ (ok a, w₁)) × (f a w₁ ≡ (ok b, w'))
>>=-returns m f {w = w} h = elim (>>=-cases m f w) [
  | inl (e, w₁, p, q) ↦ absurd (cc (q, h))
  | inr (a, w₁, p, q) ↦ (a, w₁, p, sym q ∙ h)
]

module _ {W A B : Type 0} (m : Action W A) (g : A → Action W B) (w : W) where
  >>=-raised : {e : Error} {w₁ : W} → m w ≡ (err e, w₁) → (m >>= g) w ≡ (err e, w₁)
  unfolding ◌>>=◌
  >>=-raised p = rw p refl

  >>=-goes_on : {a : A} {w₁ : W} → m w ≡ (ok a, w₁) → (m >>= g) w ≡ g a w₁
  unfolding ◌>>=◌
  >>=-goes_on p = rw p refl

-- Sequences that go on alike after what their first part can return.
pub >>=-alike :
    {W A B : Type 0} (m : Action W A) (f g : A → Action W B) (w : W)
    → ((a : A) (w' : W) → m w ≡ (ok a, w') → f a w' ≡ g a w')
    → (m >>= f) w ≡ (m >>= g) w
>>=-alike m f g w same = elim (>>=-cases m f w) [
  | inl (e, w₁, p, q) ↦ q ∙ sym (>>=-raised m g w p)
  | inr (a, w₁, p, q) ↦ q ∙ (same a w₁ p ∙ sym (>>=-goes_on m g w p))
]
