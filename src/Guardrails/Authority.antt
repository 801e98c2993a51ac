-- ===== src/Guardrails/Authority.antt =====
-- What the gate of backend/src/postmortem_backend/guardrails/allowlist.py lets through.
use ckdb_aws.Base.{
  Bool, List, Option, Result, [], any, arith, elem, err, false, inl, inr, nat_eq, none, not, ok,
  refl, some, string_eq, true, ℕ, ◌↔◌, ◌∷◌, ◌≡◌, ◌⊎◌,
}
use ckdb_aws.Domain.{
  Datetime, Error, RemediationCommand, Text, action_value, destructive_action_blocked, restart,
  rollback, text, text_eq,
}
use ckdb_aws.Guardrails.Allowlist.{
  ApprovalRecord, approve_named, authorize_action, critical_service_tags, enforce_tool_allowlist,
  is_high_blast_radius, named_approver,
}
use ckdb_aws.Guardrails.Blank.{named_iff}
use ckdb_aws.Guardrails.Radius.{critical_high, flagged_high, IsLowRadius-iff}
use ckdb_aws.Guardrails.Unicode.{Unicode, is_space, strip}

enforce_remediate : enforce_tool_allowlist "remediate_and_record" ≡ ok "remediate_and_record"
unfolding enforce_tool_allowlist
enforce_remediate = refl

gate :
    (now : Datetime) (c : RemediationCommand) (blast human : Bool) (approver : Option Text)
    → Result Error ApprovalRecord
gate now c true true approver = approve_named now "remediate_and_record" c (named_approver approver)
gate now c true false approver = err destructive_action_blocked
gate now c false human approver = ok (record {
  tool = "remediate_and_record";
  action = action_value c.action;
  high_blast_radius = false;
  approved = true;
  approver = approver;
  reason = "Reversible, single-target, auto-approved action.";
  decided_at = now;
})

approve_iff :
    (now : Datetime) (c : RemediationCommand) (o : Option Text)
    → ((r : ApprovalRecord) × (approve_named now "remediate_and_record" c o ≡ ok r))
      ↔ ((name : Text) × (o ≡ some name))
unfolding approve_named
approve_iff now c none = (λ (r, e). absurd (ground arith), λ (n, e). absurd (ground arith))
approve_iff now c (some name) = (λ _. (name, refl), λ _. (_, refl))

gate_ok_iff :
    (now : Datetime) (c : RemediationCommand) (blast human : Bool) (approver : Option Text)
    → ((r : ApprovalRecord) × (gate now c blast human approver ≡ ok r)) ↔ (
        (blast ≡ false)
        ⊎ ((human ≡ true) × ((name : Text) × (named_approver approver ≡ some name))))
unfolding gate
gate_ok_iff now c false human approver = (λ _. inl refl, λ _. (_, refl))
gate_ok_iff now c true false approver = (λ (r, e). absurd (ground arith), ground arith)
gate_ok_iff now c true true approver = (
  λ p. inr (refl, (approve_iff now c (named_approver approver)).0 p),
  λ h. elim h [
    | inl e ↦ absurd (ground arith)
    | inr (_, n) ↦ (approve_iff now c (named_approver approver)).1 n
  ],
)

module _ (u : Unicode) (now : Datetime) (c : RemediationCommand) (human : Bool)
    (approver : Option Text) (tags : List Text) where
  authorize_gate :
      authorize_action u now c human approver tags
      ≡ gate now c (is_high_blast_radius u c tags) human approver
  unfolding authorize_action gate
  authorize_gate = rw enforce_remediate (ground arith)

  authorize_gate_iff :
      ((r : ApprovalRecord) × (authorize_action u now c human approver tags ≡ ok r)) ↔ (
        (is_high_blast_radius u c tags ≡ false)
        ⊎ ((human ≡ true) × ((name : Text) × (named_approver approver ≡ some name))))
  authorize_gate_iff =
      rw authorize_gate (gate_ok_iff now c (is_high_blast_radius u c tags) human approver)

  -- An action is authorized exactly when it is a rollback or a restart that the model has not
  -- flagged for approval, on a service none of whose tags is, trimmed and in lower case, one of
  -- checkout, payments, payment, billing and invoicing, or when a human has approved it and the
  -- approver's name has a character that is not white space.
  pub authorize_ok_iff :
      ((r : ApprovalRecord) × (authorize_action u now c human approver tags ≡ ok r)) ↔ (
        (((c.action ≡ rollback) ⊎ (c.action ≡ restart))
          × (c.requires_human_approval ≡ false)
          × ((tag : Text)
              → elem tag tags ≡ true
              → elem (u.lower (strip tag)) (
                  text "checkout"
                  ∷ text "payments"
                  ∷ text "payment"
                  ∷ text "billing"
                  ∷ text "invoicing"
                  ∷ [])
                ≡ false))
        ⊎ ((human ≡ true)
            × ((a : Text) × (approver ≡ some a) × (any (λ (ch : ℕ). not (is_space ch)) a ≡ true))))
  authorize_ok_iff =
      let (to, from) = authorize_gate_iff in
      let (low, low') = IsLowRadius-iff u c tags in
      let (named, named') = named_iff approver in
      (
        λ r. elim (to r) [ inl l ↦ inl (low l) | inr (h, n) ↦ inr (h, named n) ],
        λ h. from (elim h [ inl l ↦ inl (low' l) | inr (h, n) ↦ inr (h, named' n) ]),
      )

  -- Whatever a command says of itself, an action on a service that carries a critical tag is
  -- blocked while no human has approved it.
  pub critical_blocked :
      (tag : Text)
      → elem tag tags ≡ true
      → elem (u.lower (strip tag)) critical_service_tags ≡ true
      → human ≡ false
      → authorize_action u now c human approver tags ≡ err destructive_action_blocked
  unfolding gate
  critical_blocked tag m t n = rw (authorize_gate, n, critical_high u c tags tag m t)

-- The model's own flag adds caution only: what is authorized with it set is authorized with it
-- cleared.
pub flag_adds_caution :
    (u : Unicode) (now : Datetime) (c : RemediationCommand) (human : Bool) (approver : Option Text)
    (tags : List Text) (r : ApprovalRecord)
    → authorize_action u now (record c { requires_human_approval = true }) human approver tags
      ≡ ok r
    → (r' : ApprovalRecord) × (authorize_action u now
          (record c { requires_human_approval = false })
          human
          approver
          tags
        ≡ ok r')
flag_adds_caution u now c human approver tags r e =
    (authorize_gate_iff u now (record c { requires_human_approval = false }) human approver tags).1
      (elim ((authorize_gate_iff u now (record c { requires_human_approval = true }) human approver
          tags).0
        (r, e)) [ inl low ↦ absurd (flagged_high u c tags low) | inr approval ↦ inr approval ])
