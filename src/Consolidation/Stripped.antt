-- ===== src/Consolidation/Stripped.antt =====
-- A text that has been stripped is stripped (`_required_text` of
-- consolidation/postmortem_consolidation/contracts.py).
use ckdb_aws.Base.{
  >>=-eq-ok, Bool-cases, Option, [], ap, arith, false, if◌then◌else◌, inl, inr, length, ltb, ok,
  ok-injective, refl, some, subst, sym, ℕ, ◌∙◌, ◌∷◌, ◌≡◌, ◌⊎◌,
}
use ckdb_aws.Consolidation.Contracts.{any_text, required_text}
use ckdb_aws.Consolidation.Grouping.{incident_eq}
use ckdb_aws.Consolidation.Repository.{key_eq}
use ckdb_aws.Domain.{Text, Value, str}
use ckdb_aws.Guardrails.Unicode.{is_space, lstrip, rstrip, strip}

-- What `rstrip` makes of a character and of what it has made of the rest.
abbrev shown : ℕ → Text → Text
shown c [] = if is_space c then [] else c ∷ []
shown c (d ∷ r) = c ∷ d ∷ r

rstrip-cons : (c : ℕ) (s : Text) → rstrip (c ∷ s) ≡ shown c (rstrip s)
unfolding rstrip
rstrip-cons c s = refl

rstrip-shown : (c : ℕ) (s : Text) → rstrip s ≡ s → rstrip (shown c s) ≡ shown c s
unfolding rstrip
rstrip-shown c [] h = elim (Bool-cases (is_space c)) [ inl e ↦ rw e refl | inr e ↦ rw (e, e) refl ]
rstrip-shown c (d ∷ r) h = ap (shown c) h

rstrip-rstrip : (s : Text) → rstrip (rstrip s) ≡ rstrip s
unfolding rstrip
rstrip-rstrip [] = refl
rstrip-rstrip (c ∷ s) = rw (rstrip-cons c s) (rstrip-shown c (rstrip s) (rstrip-rstrip s))

starts : (c : ℕ) (s : Text) → is_space c ≡ false → (r : Text) × (shown c s ≡ c ∷ r)
starts c [] h = ([], rw h refl)
starts c (d ∷ s) h = (d ∷ s, refl)

lstrip-cases :
    (s : Text)
    → (lstrip s ≡ []) ⊎ ((c : ℕ) × (r : Text) × (lstrip s ≡ c ∷ r) × (is_space c ≡ false))
unfolding lstrip
lstrip-cases [] = inl refl
lstrip-cases (c ∷ s) = elim (Bool-cases (is_space c)) [
  | inl e ↦ rw (e, lstrip) (lstrip-cases s)
  | inr e ↦ inr (c, s, rw (e, lstrip) refl, e)
]

lstrip-cons : (c : ℕ) (s : Text) → is_space c ≡ false → lstrip (c ∷ s) ≡ c ∷ s
unfolding lstrip
lstrip-cons c s h = rw (h, lstrip) refl

strip-strip : (s : Text) → strip (strip s) ≡ strip s
unfolding strip lstrip rstrip
strip-strip s = elim (lstrip-cases s) [
  | inl e ↦ ap (λ t. rstrip (lstrip (rstrip t))) e ∙ sym (ap rstrip e)
  | inr (c, r, e, h) ↦
      let (q, k) = starts c (rstrip r) h in
      let whole : rstrip (lstrip s) ≡ c ∷ q = ap rstrip e ∙ (rstrip-cons c r ∙ k) in
      ap (λ t. rstrip (lstrip t)) whole
      ∙ (ap rstrip (lstrip-cons c q h) ∙ (ap rstrip (sym whole) ∙ rstrip-rstrip (lstrip s)))
]

pub required_text-again :
    (v : Option Value) (t : Text) → required_text v ≡ ok t → required_text (some (str t)) ≡ ok t
unfolding required_text
required_text-again v t h =
    let (raw, e, k) = >>=-eq-ok (any_text v) _ h in
    elim (Bool-cases (ltb 0 (length (strip raw)))) [
      | inl p ↦
          let same : strip raw ≡ t = ok-injective (rw p at k) in
          subst (λ x. required_text (some (str x)) ≡ ok x) same (rw (strip-strip raw, p) refl)
      | inr p ↦ absurd (ground arith)
    ]
