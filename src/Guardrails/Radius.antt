-- ===== src/Guardrails/Radius.antt =====
-- Which actions `is_high_blast_radius` of backend/src/postmortem_backend/guardrails/allowlist.py
-- finds harmless, written out.
use ckdb_aws.Base.{
  Bool, Bool-cases, List, [], any, arith, elem, false, inl, inr, nat_eq, refl, string_eq, true,
  ◌&&◌, ◌||◌, ◌↔◌, ◌∷◌, ◌≡◌, ◌≢◌, ◌⊎◌,
}
use ckdb_aws.Domain.{
  ActionKind, RemediationCommand, Text, feature_flag, restart, rollback, scale, text, text_beq_iff,
  text_eq,
}
use ckdb_aws.Guardrails.Allowlist.{
  critical_gated_action, critical_service_tags, high_blast_radius_action, is_critical_tier_service,
  is_high_blast_radius,
}
use ckdb_aws.Guardrails.Unicode.{Unicode, strip}

any_of_elem :
    (test : Text → Bool) (x : Text) (xs : List Text)
    → elem x xs ≡ true
    → test x ≡ true
    → any test xs ≡ true
any_of_elem test x [] m t = cc
any_of_elem test x (y ∷ ys) m t = ground (arith, text_beq_iff x y, any_of_elem test x ys)

any-false :
    (test : Text → Bool) (xs : List Text)
    → ((x : Text) → elem x xs ≡ true → test x ≡ false)
    → any test xs ≡ false
any-false test [] h = refl
any-false test (y ∷ ys) h =
    let first : test y ≡ false = h y (ground (arith, text_beq_iff y y)) in
    let rest : any test ys ≡ false = any-false test ys (λ x m. h x (ground (arith, m))) in
    rw (first, rest) refl

-- The tags of the services that the policy singles out.
abbrev critical_tags : List Text
critical_tags =
    text "checkout" ∷ text "payments" ∷ text "payment" ∷ text "billing" ∷ text "invoicing" ∷ []

-- The server's classification, written out.
abbrev pub IsLowRadius : Unicode → RemediationCommand → List Text → Type 0
IsLowRadius u c tags =
    ((c.action ≡ rollback) ⊎ (c.action ≡ restart))
    × (c.requires_human_approval ≡ false)
    × ((tag : Text) → elem tag tags ≡ true → elem (u.lower (strip tag)) critical_tags ≡ false)

radius_iff :
    (a : ActionKind) (critical flag : Bool)
    → ((high_blast_radius_action a || ((critical_gated_action a && critical) || flag)) ≡ false)
      ↔ (((a ≡ rollback) ⊎ (a ≡ restart)) × (flag ≡ false) × (critical ≡ false))
unfolding high_blast_radius_action critical_gated_action
radius_iff rollback critical flag =
    (λ e. (inl refl, ground arith, ground arith), λ (k, f, n). rw (f, n) refl)
radius_iff restart critical flag =
    (λ e. (inr refl, ground arith, ground arith), λ (k, f, n). rw (f, n) refl)
radius_iff scale critical flag = (λ e. absurd (ground arith), λ (k, f, n). absurd (ground arith))
radius_iff feature_flag critical flag =
    (λ e. absurd (ground arith), λ (k, f, n). absurd (ground arith))

pub IsLowRadius-iff :
    (u : Unicode) (c : RemediationCommand) (tags : List Text)
    → (is_high_blast_radius u c tags ≡ false) ↔ IsLowRadius u c tags
unfolding is_high_blast_radius is_critical_tier_service critical_service_tags
IsLowRadius-iff u c tags =
    let test : Text → Bool = λ x. elem (u.lower (strip x)) critical_tags in
    let (to, from) = radius_iff c.action (any test tags) c.requires_human_approval in
    (
      λ e. (
        (to e).0,
        (to e).1,
        λ tag m. elim (Bool-cases (test tag)) [
          | inl t ↦ let critical = any_of_elem test tag tags m t in absurd (cc (critical, (to e).2))
          | inr n ↦ n
        ],
      ),
      λ (k, f, none_of). from (k, f, any-false test tags none_of),
    )

pub critical_high :
    (u : Unicode) (c : RemediationCommand) (tags : List Text) (tag : Text)
    → elem tag tags ≡ true
    → elem (u.lower (strip tag)) critical_service_tags ≡ true
    → is_high_blast_radius u c tags ≡ true
unfolding is_high_blast_radius is_critical_tier_service
critical_high u c tags tag m t =
    let critical = any_of_elem (λ x. elem (u.lower (strip x)) critical_service_tags) tag tags m t in
    ground (arith, critical)

pub flagged_high :
    (u : Unicode) (c : RemediationCommand) (tags : List Text)
    → is_high_blast_radius u (record c { requires_human_approval = true }) tags ≢ false
unfolding is_high_blast_radius
flagged_high u c tags e = ground arith
