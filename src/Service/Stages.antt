-- ===== src/Service/Stages.antt =====
-- The stages of `ResponderService.handle` of backend/src/postmortem_backend/service.py, in the
-- order in which the source runs them. Of the data of the event RECALL_COMPLETED the recalled
-- bundle stands for what is copied from it, which includes the texts of its ids, times and
-- metadata; what is computed from it, and may raise, is in Service/Console.
use ckdb_aws.Service.Console.{console_scores, rejected_count}
use ckdb_aws.Action.{Action, lift, return, ◌>>=◌, ◌>>◌}
use ckdb_aws.Base.{
  Bool, List, Option, Result, err, false, if◌then◌else◌, map, none, not, ok, some, true, ◌&&◌, ◌++◌,
}
use ckdb_aws.Domain.{
  AgentDecision, Datetime, DecisionKind, Error, Float, IncidentSignal, MemoryCandidate,
  RecallBundle, RecallQuery, RemediationCommand, RemediationResult, Text, Uuid, Value,
  action_proposed, action_value, all_candidates, approval_required, decision_proposed,
  effective_idempotency_key, incident_received, lookup, memory_text, reasoning_started,
  recall_completed, recall_started, recall_text, text, transaction_committed, transaction_started,
  truthy,
}
use ckdb_aws.Events.{
  action_data, approval_data, committed_data, decision_data, no_data, recall_completed_data,
  recall_started_data, received_data, started_data,
}
use ckdb_aws.Guardrails.Allowlist.{
  ApprovalRecord, authorize_action, enforce_tool_allowlist, resolve_decision_tool,
}
use ckdb_aws.Guardrails.Injection.{guard_untrusted_recall_bundle}
use ckdb_aws.Guardrails.Provenance.{require_grounded_action}
use ckdb_aws.Guardrails.Unicode.{Unicode}
use ckdb_aws.Service.Turn.{Ports, Turn, emit_event, on_backend, on_env, received}

abbrev flag : Option Value → Bool
flag none = false
flag (some v) = truthy v

unfoldable pub recall_query : IncidentSignal → List Float → RecallQuery
unfolding recall_text
recall_query signal embedding = record {
  org_id = signal.org_id;
  agent_id = signal.agent_id;
  service_id = signal.service_id;
  query_text = recall_text signal;
  embedding = embedding;
  k = 8;
  service_tags = signal.service_tags;
  error_signature = signal.error_signature;
  as_of = signal.observed_at;
  cold_start = flag (lookup (text "cold_start") signal.metadata);
  current_incident_id = some signal.incident_id;
}

-- `decision.command.runbook_id`, if there is a command
abbrev runbook_of : Option RemediationCommand → Option Uuid
runbook_of none = none
runbook_of (some c) = c.runbook_id

module _ {E S : Type 0} (ports : Ports E S) (u : Unicode) (now : Datetime) where
  unfoldable pub perceive : IncidentSignal → Action (Turn E S) (Unit {0})
  unfolding emit_event received
  perceive signal w =
      emit_event signal incident_received "perceive"
        (text "Received " ++ (signal.severity ++ text " incident."))
        (received_data signal.service_id signal.severity signal.summary)
        (record w { registry = received signal w.registry })

  unfoldable pub recall_memory : IncidentSignal → Action (Turn E S) RecallBundle
  unfolding emit_event recall_query
  recall_memory signal = do
    emit_event signal recall_started "recall" (text "Embedding incident signature.")
        (recall_started_data (recall_text signal))
    embedding ← on_env (ports.embed (recall_text signal))
    recalled ← on_env (ports.recall (recall_query signal embedding))
    memory ← lift (guard_untrusted_recall_bundle u recalled)
    rejected ← lift (rejected_count ports.builtins memory.diagnostics)
    scores ← lift (console_scores ports.builtins (all_candidates memory))
    emit_event signal recall_completed "recall" (text "Recalled scoped organizational memory.")
        (recall_completed_data memory rejected scores (recall_text signal))
    return memory

  unfoldable pub reason : IncidentSignal → RecallBundle → Action (Turn E S) AgentDecision
  unfolding emit_event
  reason signal memory = do
    emit_event signal reasoning_started "reason" (text "Selecting a grounded response.") no_data
    decision ← on_env (ports.decide signal memory)
    emit_event signal decision_proposed "reason" decision.explanation (
        decision_data decision.kind decision.confidence decision.cited_memory_id
          (runbook_of decision.command))
    return decision

  -- The two gates before an action is proposed.
  unfoldable pub gate : RemediationCommand → DecisionKind → RecallBundle → Result Error (Unit {0})
  gate command kind memory = elim (resolve_decision_tool kind) [
    | err e ↦ err e
    | ok tool ↦ elim (enforce_tool_allowlist tool) [
      | err e ↦ err e
      | ok _ ↦
          require_grounded_action command
            (some (map (λ (m : MemoryCandidate). m.memory_id) (all_candidates memory)))
    ]
  ]

  -- From the event TRANSACTION_STARTED to the call of the port.
  unfoldable pub begin_transaction :
      IncidentSignal → RemediationCommand → ApprovalRecord → Action (Turn E S) (Unit {0})
  unfolding emit_event
  begin_transaction signal command approval w =
      let (r, w') =
        emit_event signal transaction_started "act+record"
          (text "Starting atomic operational action and episodic append.")
          (started_data (action_value command.action) command.incident_id approval) w in
      (r, record w' { transaction_started = true })

  unfoldable pub execute :
      IncidentSignal
      → RemediationCommand
      → (approver : Option Text) → Action (Turn E S) RemediationResult
  unfolding emit_event begin_transaction
  execute signal command approver = do
    approval ← lift (authorize_action u now command command.approved approver signal.service_tags)
    embedding ← on_env (ports.embed (memory_text command))
    begin_transaction signal command approval
    result ← on_backend (ports.remediation command embedding)
    emit_event signal transaction_committed "act+record"
        (text "Operational action and memory committed together.") (committed_data result)
    return result

  unfoldable pub act :
      IncidentSignal
      → RecallBundle
      → DecisionKind
      → RemediationCommand
      → (approver : Option Text) → Action (Turn E S) (Option RemediationResult)
  unfolding emit_event gate execute
  act signal memory kind command approver = do
    lift (gate command kind memory)
    emit_event signal action_proposed "act" (text "Grounded remediation proposed.") (
        action_data (action_value command.action) (effective_idempotency_key command)
          command.service_id command.cited_memory_id command.requires_human_approval
          command.target_version)
    (if command.requires_human_approval && not command.approved
        then (emit_event signal approval_required "act"
              (text "Remediation is paused for explicit SRE approval.")
              (approval_data (action_value command.action) command.service_id
                command.cited_memory_id command.target_version)
            >>= λ _. return none)
        else (execute signal command approver >>= λ result. return (some result)))
