-- ===== src/Service/Handle.antt =====
-- A turn of `ResponderService` of backend/src/postmortem_backend/service.py, from its stages.
use ckdb_aws.Base.{Bool, Option, Result, err, false, if◌then◌else◌, none, ok, some, true}
use ckdb_aws.Domain.{
  AgentDecision, Datetime, DecisionKind, Error, IncidentSignal, RecallBundle, RemediationCommand,
  RemediationResult, ResponseResult, Text, ask_human, escalate, propose, remediate,
  response_completed, response_failed, text, transaction_rolled_back,
}
use ckdb_aws.Events.{completed_data, failed_data}
use ckdb_aws.Guardrails.Injection.{sanitize_signal}
use ckdb_aws.Guardrails.Unicode.{Unicode}
use ckdb_aws.Service.Stages.{act, perceive, reason, recall_memory}
use ckdb_aws.Action.{Action, lift, return, ◌>>=◌}
use ckdb_aws.Service.Turn.{Ports, Turn, completed, emit_event}

abbrev is_some : {A : Type 0} → Option A → Bool
is_some none = false
is_some (some a) = true

abbrev map_option : {A B : Type 0} → (A → B) → Option A → Option B
map_option f none = none
map_option f (some a) = some (f a)

abbrev pub response : IncidentSignal → AgentDecision → Option RemediationResult → ResponseResult
response signal decision remediation = record {
  incident_id = signal.incident_id;
  decision = decision;
  remediation = remediation;
}

-- `decision.kind is DecisionKind.REMEDIATE and decision.command is not None`
unfoldable pub chosen_command : DecisionKind → Option RemediationCommand → Option RemediationCommand
chosen_command remediate command = command
chosen_command propose command = none
chosen_command ask_human command = none
chosen_command escalate command = none

-- `replace(decision.command, approved=approved)`
abbrev pub with_approval : Bool → RemediationCommand → RemediationCommand
with_approval approved c = record c { approved = approved }

module _ {E S : Type 0} (ports : Ports E S) (u : Unicode) (now : Datetime) where
  -- What follows the decision, given the command to remediate with, if there is one.
  unfoldable pub respond :
      IncidentSignal
      → RecallBundle
      → AgentDecision
      → (approved : Bool) (approver : Option Text) → Option RemediationCommand
      → Action (Turn E S) ResponseResult
  unfolding act
  respond signal memory decision approved approver none = return (response signal decision none)
  respond signal memory decision approved approver (some c) = do
    result ← act ports u now signal memory decision.kind (with_approval approved c) approver
    return (response signal (record decision { command = some (with_approval approved c) }) result)

  unfoldable pub complete : IncidentSignal → ResponseResult → Action (Turn E S) ResponseResult
  unfolding emit_event completed
  complete signal result w =
      (emit_event signal response_completed "record" (text "Responder turn completed.") (
            completed_data (is_some result.remediation)
              (map_option (λ (r : RemediationResult). r.event_id) result.remediation)
              (elim result.remediation [
                | some _ ↦ text "Action outcome recorded atomically with operational state."
                | none ↦ result.decision.explanation
              ]))
          >>= λ _. return result)
        (record w { registry = completed result w.registry })

  unfoldable pub decide_and_respond :
      IncidentSignal
      → (approved : Bool) (approver : Option Text) → RecallBundle
      → Action (Turn E S) ResponseResult
  unfolding reason respond
  decide_and_respond signal approved approver memory = do
    decision ← reason ports u now signal memory
    respond signal memory decision approved approver (chosen_command decision.kind decision.command)

  -- The body of the `try` block, up to the response.
  unfoldable pub work :
      IncidentSignal → (approved : Bool) (approver : Option Text) → Action (Turn E S) ResponseResult
  unfolding recall_memory decide_and_respond
  work signal approved approver =
      recall_memory ports u now signal >>= decide_and_respond signal approved approver

  -- The body of the `try` block.
  unfoldable pub attempt :
      IncidentSignal → (approved : Bool) (approver : Option Text) → Action (Turn E S) ResponseResult
  unfolding work complete
  attempt signal approved approver = work signal approved approver >>= complete signal

  -- The `except` block: an event, and the error again.
  unfoldable pub fail_safely :
      IncidentSignal
      → Result Error ResponseResult × Turn E S
      → Result Error ResponseResult × Turn E S
  unfolding emit_event
  fail_safely signal (ok result, w) = (ok result, w)
  fail_safely signal (err e, w) =
      (emit_event signal
            (if w.transaction_started then transaction_rolled_back else response_failed)
            (if w.transaction_started then "act+record" else "response")
            (text "Responder failed safely; no partial remediation was recorded.") (failed_data e)
          >>= λ _. lift (err e))
        w

  unfoldable pub handle :
      IncidentSignal → (approved : Bool) (approver : Option Text) → Action (Turn E S) ResponseResult
  unfolding perceive attempt fail_safely
  handle received_signal approved approver w =
      (lift (sanitize_signal u received_signal) >>= λ signal.
      perceive ports u now signal >>= λ _ w'.
      fail_safely signal (attempt signal approved approver w'))
        (record w { transaction_started = false })
