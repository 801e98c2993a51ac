-- ===== src/Service/Screens.antt =====
-- What reaches the reasoner (backend/src/postmortem_backend/service.py).
use ckdb_aws.Base.{
  All, Bool, Option, Result, Result-cases, ap, inl, inr, none, refl, some, ◌∙◌, ◌≡◌,
}
use ckdb_aws.Domain.{
  AgentDecision, Datetime, Error, IncidentSignal, RecallBundle, RemediationCommand, Text,
  all_candidates,
}
use ckdb_aws.Guardrails.Injection.{sanitize_signal}
use ckdb_aws.Guardrails.Screened.{CleanCandidate, CleanSignal, guard_bundle_ok, sanitize_signal_ok}
use ckdb_aws.Guardrails.Unicode.{Unicode}
use ckdb_aws.Service.Handle.{
  attempt, chosen_command, complete, decide_and_respond, fail_safely, handle, respond, work,
}
use ckdb_aws.Action.Runs.{>>=-alike}
use ckdb_aws.Service.Safe.{recalled_screened}
use ckdb_aws.Service.Stages.{act, begin_transaction, execute, gate, perceive, reason, recall_memory}
use ckdb_aws.Action.{then_with, ◌>>=◌}
use ckdb_aws.Service.Turn.{Ports, Turn, emit_event}

module _ {E S : Type 0} (ports : Ports E S) (u : Unicode) (now : Datetime)
    (other : IncidentSignal → RecallBundle → E → Result Error AgentDecision × E)
    (agree : (s : IncidentSignal) (m : RecallBundle) (env : E)
      → CleanSignal u s
      → All (CleanCandidate u) (all_candidates m)
      → ports.decide s m env ≡ other s m env) where
  abbrev swapped : Ports E S
  swapped = record ports { decide = other }

  reason_same :
      (signal : IncidentSignal) (memory : RecallBundle) (w : Turn E S)
      → CleanSignal u signal
      → All (CleanCandidate u) (all_candidates memory)
      → reason ports u now signal memory w ≡ reason swapped u now signal memory w
  unfolding reason emit_event ◌>>=◌
  reason_same signal memory w clean clean_memory =
      rw (agree signal memory w.env clean clean_memory) refl

  respond_same :
      (signal : IncidentSignal) (memory : RecallBundle) (decision : AgentDecision) (approved : Bool)
      (approver : Option Text) (o : Option RemediationCommand) (w : Turn E S)
      → respond ports u now signal memory decision approved approver o w
        ≡ respond swapped u now signal memory decision approved approver o w
  unfolding respond act execute gate begin_transaction
  respond_same signal memory decision approved approver none w = refl
  respond_same signal memory decision approved approver (some c) w = refl

  decide_same :
      (signal : IncidentSignal) (approved : Bool) (approver : Option Text) (memory : RecallBundle)
      (w : Turn E S)
      → CleanSignal u signal
      → All (CleanCandidate u) (all_candidates memory)
      → decide_and_respond ports u now signal approved approver memory w
        ≡ decide_and_respond swapped u now signal approved approver memory w
  unfolding decide_and_respond ◌>>=◌
  decide_same signal approved approver memory w clean clean_memory =
      ap
        (λ r. then_with r (λ decision.
          respond ports u now signal memory decision approved approver
            (chosen_command decision.kind decision.command)))
        (reason_same signal memory w clean clean_memory)
      ∙ >>=-alike (reason swapped u now signal memory) _ _ w (λ decision w' _.
        respond_same signal memory decision approved approver
          (chosen_command decision.kind decision.command) w')

  recall_same :
      (signal : IncidentSignal) (w : Turn E S)
      → recall_memory ports u now signal w ≡ recall_memory swapped u now signal w
  unfolding recall_memory
  recall_same signal w = refl

  work_same :
      (signal : IncidentSignal) (approved : Bool) (approver : Option Text) (w : Turn E S)
      → CleanSignal u signal
      → work ports u now signal approved approver w ≡ work swapped u now signal approved approver w
  unfolding work recall_memory
  work_same signal approved approver w clean =
      >>=-alike (recall_memory ports u now signal) _ _ w (λ memory w' p.
        let (recalled, screened) = recalled_screened ports u now signal w w' memory p in
        decide_same signal approved approver memory w' clean
          (guard_bundle_ok u recalled memory screened).0)

  -- A turn depends on what the reasoner does with screened input only. Let two reasoners agree
  -- where the signal's summary, error signature and tags are clean, and of every candidate of the
  -- memory the content and the texts at any depth of its steps and metadata, the keys of
  -- dictionaries left aside. Then they give the same turn, the events and the action included, for
  -- any signal that comes in and any memory that recall returns. Keys, and the diagnostics of the
  -- memory, are not screened: the reasoners agree whatever stands there.
  pub handle_screens :
      (received_signal : IncidentSignal) (approved : Bool) (approver : Option Text) (w : Turn E S)
      → handle ports u now received_signal approved approver w
        ≡ handle swapped u now received_signal approved approver w
  unfolding handle attempt perceive fail_safely complete ◌>>=◌
  handle_screens received_signal approved approver w =
      elim (Result-cases (sanitize_signal u received_signal)) [
        | inr (e, p) ↦ rw p refl
        | inl (signal, p) ↦ rw p (
            ap (λ r. fail_safely ports u now signal (then_with r (complete ports u now signal)))
              (work_same signal approved approver _
                (sanitize_signal_ok u received_signal signal p).0))
      ]
