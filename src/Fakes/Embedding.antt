-- ===== src/Fakes/Embedding.antt =====
-- What the embedder of backend/src/postmortem_backend/adapters/fakes.py gives has the dimensions of
-- the store.
use ckdb_aws.Base.{
  >>=-eq-ok, List, [], ap, if◌then◌else◌, length, ltb, map, ok, ok-injective, refl, subst, suc,
  zero, ℕ, ◌+◌, ◌∙◌, ◌∷◌, ◌≡◌,
}
use ckdb_aws.Domain.{Float, Text}
use ckdb_aws.Fakes.{add_at, embed, repeated, spread, utf8}
use ckdb_aws.Floats.{FloatOps, float_zero}

length-add_at :
    (f : FloatOps) (index : ℕ) (value : Float) (vector : List Float)
    → length (add_at f index value vector) ≡ length vector
unfolding add_at
length-add_at f index value [] = refl
length-add_at f zero value (x ∷ xs) = refl
length-add_at f (suc index) value (x ∷ xs) = ap suc (length-add_at f index value xs)

length-spread :
    (f : FloatOps) (index : ℕ) (bytes : List ℕ) (vector : List Float)
    → length (spread f index bytes vector) ≡ length vector
unfolding spread
length-spread f index [] vector = refl
length-spread f index (value ∷ bytes) vector =
    length-spread f (index + 1) bytes _ ∙ length-add_at f _ _ vector

length-repeated : (x : Float) (n : ℕ) → length (repeated x n) ≡ n
unfolding repeated
length-repeated x zero = refl
length-repeated x (suc n) = ap suc (length-repeated x n)

length-map : {A B : Type 0} (g : A → B) (xs : List A) → length (map g xs) ≡ length xs
length-map g [] = refl
length-map g (x ∷ xs) = ap suc (length-map g xs)

-- An embedding has the 1024 dimensions that the store asks for.
pub length-embed :
    (f : FloatOps) (t : Text) (vector : List Float) → embed f t ≡ ok vector → length vector ≡ 1024
unfolding embed
length-embed f t vector h =
    let (bytes, e, k) = >>=-eq-ok (utf8 t) _ h in
    let encoded : List ℕ = if ltb 0 (length bytes) then bytes else 0 ∷ [] in
    subst (λ v. length v ≡ 1024) (ok-injective k)
      (length-map _ _
        ∙ (length-spread f 0 encoded (repeated float_zero 1024) ∙ length-repeated float_zero 1024))
