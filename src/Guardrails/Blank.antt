-- ===== src/Guardrails/Blank.antt =====
-- Which approvers `authorize_action` of backend/src/postmortem_backend/guardrails/allowlist.py
-- takes for named: `strip` leaves nothing of a text exactly when it is all white space.
use mathlib.Core.Option.{some-injective}
use ckdb_aws.Base.{
  Bool, Bool-cases, Option, [], any, ap, arith, false, inl, inr, none, not, refl, some, true, ℕ,
  ◌↔◌, ◌∙◌, ◌∷◌, ◌≡◌,
}
use ckdb_aws.Domain.{Text}
use ckdb_aws.Guardrails.Allowlist.{named_approver}
use ckdb_aws.Guardrails.Unicode.{is_space, lstrip, rstrip, strip}

-- A character of the text is not white space.
abbrev pub has_mark : Text → Bool
has_mark s = any (λ (c : ℕ). not (is_space c)) s

has_mark-lstrip : (s : Text) → has_mark (lstrip s) ≡ has_mark s
unfolding lstrip
has_mark-lstrip [] = refl
has_mark-lstrip (c ∷ s) = elim (Bool-cases (is_space c)) [
  | inl p ↦ rw (lstrip, p) (has_mark-lstrip s)
  | inr p ↦ rw (lstrip, p) (rw p refl)
]

has_mark-rstrip : (s : Text) → has_mark (rstrip s) ≡ has_mark s
unfolding rstrip
has_mark-rstrip [] = refl
has_mark-rstrip (c ∷ s) = has_mark-rstrip_cons c s (rstrip s) refl (has_mark-rstrip s)
  where
    has_mark-rstrip_cons :
        (c : ℕ) (s rest : Text)
        → rstrip s ≡ rest
        → has_mark rest ≡ has_mark s
        → has_mark (rstrip (c ∷ s)) ≡ has_mark (c ∷ s)
    has_mark-rstrip_cons c s [] p h = ground arith
    has_mark-rstrip_cons c s (d ∷ r) p h = ground arith

lstrip-blank : (s : Text) → has_mark s ≡ false → lstrip s ≡ []
unfolding lstrip
lstrip-blank [] h = refl
lstrip-blank (c ∷ s) h = elim (Bool-cases (is_space c)) [
  | inl p ↦ rw (lstrip, p) (lstrip-blank s (rw p at h))
  | inr p ↦ absurd (ground arith)
]

pub strip-blank : (s : Text) → has_mark s ≡ false → strip s ≡ []
unfolding strip rstrip
strip-blank s h = ap rstrip (lstrip-blank s h)

pub has_mark-strip : (s : Text) → has_mark (strip s) ≡ has_mark s
unfolding strip
has_mark-strip s = has_mark-rstrip (lstrip s) ∙ has_mark-lstrip s

named_of_mark :
    (s : Text)
    → has_mark s ≡ true
    → (name : Text) × (elim s as (λ _. Option Text) [ [] ↦ none | c ∷ t ↦ some (c ∷ t) ]
        ≡ some name)
named_of_mark [] m = absurd (ground arith)
named_of_mark (c ∷ s) m = (_, refl)

pub named_iff :
    (o : Option Text)
    → ((name : Text) × (named_approver o ≡ some name))
      ↔ ((a : Text) × (o ≡ some a) × (any (λ (ch : ℕ). not (is_space ch)) a ≡ true))
unfolding named_approver
named_iff none = (λ (n, e). absurd (ground arith), λ (n, e, m). absurd (ground arith))
named_iff (some a) = (
  λ (n, e). (
    a,
    refl,
    elim (Bool-cases (has_mark a)) [ inl m ↦ m | inr m ↦ absurd (ground (arith, strip-blank a m)) ],
  ),
  λ (b, e, m).
      let same : a ≡ b = some-injective _ _ e in
      named_of_mark (strip a) (has_mark-strip a ∙ (ap has_mark same ∙ m)),
)
