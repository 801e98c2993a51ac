-- ===== src/Guardrails/Allowlist.antt =====
-- backend/src/postmortem_backend/guardrails/allowlist.py: the tool allowlist and the gate of
-- destructive actions. The time of a decision is an argument.
use ckdb_aws.Base.{
  Bool, List, Option, Result, String, [], any, elem, err, false, if◌then◌else◌, nat_eq, none, ok,
  some, string_eq, true, ◌&&◌, ◌>>=◌, ◌||◌, ◌∷◌,
}
use ckdb_aws.Domain.{
  ActionKind, Datetime, DecisionKind, Error, RemediationCommand, Text, action_value, ask_human,
  destructive_action_blocked, escalate, feature_flag, propose, remediate, restart, rollback, scale,
  text, text_beq, text_eq, tool_not_allowed,
}
use ckdb_aws.Guardrails.Unicode.{Unicode, strip}

unfoldable pub allowed_tools : List String
allowed_tools =
    "recall_memory" ∷ "get_operational_state" ∷ "remediate_and_record" ∷ "record_episode"
    ∷ "update_incident_state" ∷ "scale_data_tier" ∷ "propose_action" ∷ "escalate" ∷ "ask_human" ∷ []

unfoldable pub decision_tool : DecisionKind → String
decision_tool remediate = "remediate_and_record"
decision_tool propose = "propose_action"
decision_tool ask_human = "ask_human"
decision_tool escalate = "escalate"

-- `action in HIGH_BLAST_RADIUS_ACTIONS`
unfoldable pub high_blast_radius_action : ActionKind → Bool
high_blast_radius_action rollback = false
high_blast_radius_action restart = false
high_blast_radius_action scale = true
high_blast_radius_action feature_flag = true

-- `action in _CRITICAL_SERVICE_GATED_ACTIONS`
unfoldable pub critical_gated_action : ActionKind → Bool
critical_gated_action rollback = true
critical_gated_action restart = true
critical_gated_action scale = false
critical_gated_action feature_flag = false

unfoldable pub critical_service_tags : List Text
critical_service_tags =
    text "checkout" ∷ text "payments" ∷ text "payment" ∷ text "billing" ∷ text "invoicing" ∷ []

unfoldable pub is_critical_tier_service : Unicode → List Text → Bool
unfolding critical_service_tags strip text_beq
is_critical_tier_service u tags = any (λ tag. elem (u.lower (strip tag)) critical_service_tags) tags

pub record ApprovalRecord : Type 0 where
  pub tool : String
  pub action : Text
  pub high_blast_radius : Bool
  pub approved : Bool
  pub approver : Option Text
  pub reason : String
  pub decided_at : Datetime

unfoldable pub enforce_tool_allowlist : String → Result Error String
unfolding allowed_tools
enforce_tool_allowlist tool = if elem tool allowed_tools then ok tool else err tool_not_allowed

unfoldable pub resolve_decision_tool : DecisionKind → Result Error String
unfolding decision_tool enforce_tool_allowlist
resolve_decision_tool kind = enforce_tool_allowlist (decision_tool kind)

unfoldable pub is_high_blast_radius : Unicode → RemediationCommand → List Text → Bool
unfolding high_blast_radius_action critical_gated_action
is_high_blast_radius u command service_tags =
    high_blast_radius_action command.action
    || ((critical_gated_action command.action && is_critical_tier_service u service_tags)
        || command.requires_human_approval)

-- `str(approver).strip()`, where there is one and it is not blank
unfoldable pub named_approver : Option Text → Option Text
named_approver none = none
named_approver (some a) = elim (strip a) [ [] ↦ none | c ∷ s ↦ some (c ∷ s) ]

unfoldable pub approve_named :
    Datetime → String → RemediationCommand → Option Text → Result Error ApprovalRecord
approve_named now tool command none = err destructive_action_blocked
approve_named now tool command (some name) = ok (record {
  tool = tool;
  action = action_value command.action;
  high_blast_radius = true;
  approved = true;
  approver = some name;
  reason = "High-blast-radius action approved by a named human.";
  decided_at = now;
})

unfoldable pub authorize_action :
    Unicode
    → Datetime
    → RemediationCommand
    → (human_approved : Bool) → (approver : Option Text) → (service_tags : List Text)
    → Result Error ApprovalRecord
unfolding approve_named named_approver
authorize_action u now command human_approved approver service_tags = do
  tool ← enforce_tool_allowlist "remediate_and_record"
  elim (is_high_blast_radius u command service_tags) [
    | true ↦
        if human_approved
        then approve_named now tool command (named_approver approver)
        else err destructive_action_blocked
    | false ↦ ok (record {
      tool = tool;
      action = action_value command.action;
      high_blast_radius = false;
      approved = true;
      approver = approver;
      reason = "Reversible, single-target, auto-approved action.";
      decided_at = now;
    })
  ]
