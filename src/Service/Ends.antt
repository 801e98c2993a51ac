-- ===== src/Service/Ends.antt =====
-- How the events of a turn end (backend/src/postmortem_backend/service.py).
use ckdb_aws.Service.Console.{console_scores, rejected_count}
use mathlib.Core.List.{append_assoc}
use ckdb_aws.Base.{
  All, Bool, Bool-cases, List, Option, Result, Result-cases, [], any, ap, arith, err, false,
  if◌then◌else◌, inl, inr, none, not, ok, refl, some, ◌&&◌, ◌++◌, ◌||◌, ◌∙◌, ◌∷◌, ◌≡◌, ◌⊎◌,
}
use ckdb_aws.Domain.{
  AgentDecision, Datetime, DecisionKind, Error, EventType, IncidentSignal, RecallBundle,
  RemediationCommand, ResponseResult, Text, Uuid, action_proposed, approval_required,
  decision_proposed, memory_text, reasoning_started, recall_completed, recall_started, recall_text,
  response_completed, response_failed, transaction_committed, transaction_rolled_back,
  all_candidates,
}
use ckdb_aws.Events.{AgentEvent}
use ckdb_aws.Guardrails.Allowlist.{ApprovalRecord}
use ckdb_aws.Guardrails.Injection.{guard_untrusted_recall_bundle, sanitize_signal}
use ckdb_aws.Guardrails.Unicode.{Unicode}
use ckdb_aws.Service.Handle.{
  attempt, chosen_command, complete, decide_and_respond, fail_safely, handle, respond,
  with_approval, work,
}
use ckdb_aws.Action.Runs.{Runs, Runs->>=}
use ckdb_aws.Service.Stages.{
  act, begin_transaction, execute, perceive, reason, recall_memory, recall_query,
}
use ckdb_aws.Service.Trace.{
  Ongoing, Proceeds, Proceeds-trans, emit_event-Runs, is_start, lift-Runs, on_backend-Runs,
  on_env-Runs,
}
use ckdb_aws.Action.{Action, then_with, ◌>>=◌}
use ckdb_aws.Service.Turn.{Ports, Turn, emit_event}

module _ {E S : Type 0} (ports : Ports E S) (u : Unicode) (now : Datetime)
    (signal : IncidentSignal) where
  abbrev i : Uuid
  i = signal.incident_id

  step :
      {A B : Type 0} {m : Action (Turn E S) A} {f : A → Action (Turn E S) B}
      → Runs (Proceeds i) m
      → ((a : A) → Runs (Proceeds i) (f a))
      → Runs (Proceeds i) (m >>= f)
  step = Runs->>= (Proceeds-trans i)

  recall_memory-Runs : Runs (Proceeds i) (recall_memory ports u now signal)
  unfolding recall_memory
  recall_memory-Runs = step (emit_event-Runs i signal recall_started _ _ _ refl refl refl) (λ _.
      step (on_env-Runs i (ports.embed (recall_text signal))) (λ embedding.
        step (on_env-Runs i (ports.recall (recall_query signal embedding))) (λ recalled.
          step (lift-Runs i (guard_untrusted_recall_bundle u recalled)) (λ memory.
            step (lift-Runs i (rejected_count ports.builtins memory.diagnostics)) (λ rejected.
              step (lift-Runs i (console_scores ports.builtins (all_candidates memory))) (λ scores.
                step (emit_event-Runs i signal recall_completed _ _ _ refl refl refl)
                  (λ _. lift-Runs i (ok memory))))))))

  reason-Runs : (memory : RecallBundle) → Runs (Proceeds i) (reason ports u now signal memory)
  unfolding reason
  reason-Runs memory = step (emit_event-Runs i signal reasoning_started _ _ _ refl refl refl) (λ _.
      step (on_env-Runs i (ports.decide signal memory)) (λ decision.
        step (emit_event-Runs i signal decision_proposed _ _ _ refl refl refl)
          (λ _. lift-Runs i (ok decision))))

  begin_transaction-Runs :
      (command : RemediationCommand) (approval : ApprovalRecord)
      → Runs (Proceeds i) (begin_transaction ports u now signal command approval)
  unfolding begin_transaction emit_event
  begin_transaction-Runs command approval = record {
    run = λ w. record {
      added = _;
      grown = refl;
      ongoing = ((refl, refl), tt);
      flagged = ground arith;
    };
  }

  execute-Runs :
      (command : RemediationCommand) (approver : Option Text)
      → Runs (Proceeds i) (execute ports u now signal command approver)
  unfolding execute
  execute-Runs command approver = step (lift-Runs i _) (λ approval.
      step (on_env-Runs i (ports.embed (memory_text command))) (λ embedding.
        step (begin_transaction-Runs command approval) (λ _.
          step (on_backend-Runs i (ports.remediation command embedding)) (λ result.
            step (emit_event-Runs i signal transaction_committed _ _ _ refl refl refl)
              (λ _. lift-Runs i (ok result))))))

  act-Runs :
      (memory : RecallBundle) (kind : DecisionKind) (command : RemediationCommand)
      (approver : Option Text)
      → Runs (Proceeds i) (act ports u now signal memory kind command approver)
  unfolding act
  act-Runs memory kind command approver = step (lift-Runs i _) (λ _.
      step (emit_event-Runs i signal action_proposed _ _ _ refl refl refl) (λ _.
        elim (Bool-cases (command.requires_human_approval && not command.approved)) [
          | inl p ↦ rw p (
              step (emit_event-Runs i signal approval_required _ _ _ refl refl refl)
                (λ _. lift-Runs i (ok none)))
          | inr p ↦
              rw p (step (execute-Runs command approver) (λ result. lift-Runs i (ok (some result))))
        ]))

  respond-Runs :
      (memory : RecallBundle) (decision : AgentDecision) (approved : Bool) (approver : Option Text)
      (o : Option RemediationCommand)
      → Runs (Proceeds i) (respond ports u now signal memory decision approved approver o)
  unfolding respond
  respond-Runs memory decision approved approver none = lift-Runs i _
  respond-Runs memory decision approved approver (some c) =
      step (act-Runs memory decision.kind (with_approval approved c) approver)
        (λ result. lift-Runs i _)

  work-Runs :
      (approved : Bool) (approver : Option Text)
      → Runs (Proceeds i) (work ports u now signal approved approver)
  unfolding work decide_and_respond
  work-Runs approved approver = step recall_memory-Runs (λ memory.
      step (reason-Runs memory) (λ decision.
        respond-Runs memory decision approved approver
          (chosen_command decision.kind decision.command)))

-- The type of the event that ends a turn.
abbrev pub closing : Result Error ResponseResult → Bool → EventType
closing (ok r) started = response_completed
closing (err e) started = if started then transaction_rolled_back else response_failed

-- A turn over `signal` that returns or raises `r` has added to the published events `past` some
-- that do not end it, and then one that does.
pub record Ends (signal : IncidentSignal) (past : List AgentEvent) (r : Result Error ResponseResult)
    (now_published : List AgentEvent) : Type 0 where
  pub before : List AgentEvent
  pub last : AgentEvent
  pub appended : now_published ≡ past ++ (before ++ last ∷ [])
  pub ongoing : All (Ongoing signal.incident_id) before
  pub about : last.incident_id ≡ signal.incident_id
  pub closed : last.event_type ≡ closing r (any is_start before)

one_more :
    (past added old : List AgentEvent) (e : AgentEvent)
    → old ≡ past ++ added
    → old ++ e ∷ [] ≡ past ++ (added ++ e ∷ [])
one_more past added old e h = ap (λ es. es ++ e ∷ []) h ∙ append_assoc past added (e ∷ [])

module _ {E S : Type 0} (ports : Ports E S) (u : Unicode) (now : Datetime) where
  finish :
      (signal : IncidentSignal) (w w' : Turn E S) (r : Result Error ResponseResult)
      → w.transaction_started ≡ false
      → Proceeds signal.incident_id w w'
      → let out =
          fail_safely ports u now signal (then_with (r, w') (complete ports u now signal)) in
        Ends signal w.published out.0 out.1.published
  unfolding fail_safely complete emit_event ◌>>=◌
  finish signal w w' (ok result) fresh p = record {
    before = p.added;
    last = _;
    appended = one_more w.published p.added w'.published _ p.grown;
    ongoing = p.ongoing;
    about = refl;
    closed = refl;
  }
  finish signal w w' (err e) fresh p = record {
    before = p.added;
    last = _;
    appended = one_more w.published p.added w'.published _ p.grown;
    ongoing = p.ongoing;
    about = refl;
    closed =
        ap (λ b. if b then transaction_rolled_back else response_failed)
          (p.flagged ∙ ap (λ b. b || any is_start p.added) fresh);
  }

  attempt-Ends :
      (signal : IncidentSignal) (approved : Bool) (approver : Option Text) (w w₀ : Turn E S)
      → w.transaction_started ≡ false
      → Proceeds signal.incident_id w w₀
      → let out =
          fail_safely ports u now signal (attempt ports u now signal approved approver w₀) in
        Ends signal w.published out.0 out.1.published
  unfolding attempt ◌>>=◌
  attempt-Ends signal approved approver w w₀ fresh p = finish signal w _ _ fresh (
      Proceeds-trans signal.incident_id w w₀ _ p
        ((work-Runs ports u now signal approved approver).run w₀))

  perceives :
      (signal : IncidentSignal) (w : Turn E S)
      → Proceeds signal.incident_id w (perceive ports u now signal w).1
  unfolding perceive emit_event
  perceives signal w = record {
    added = _;
    grown = refl;
    ongoing = ((refl, refl), tt);
    flagged = ground arith;
  }

  -- A turn over a signal that the screening refuses raises that error and publishes nothing and
  -- calls nothing. Any other turn publishes events of its incident only, and the last of them, and
  -- no other, says how it ended: RESPONSE_COMPLETED when it returns, and when it raises,
  -- TRANSACTION_ROLLED_BACK if it had published TRANSACTION_STARTED and RESPONSE_FAILED if not.
  pub handle_events :
      (received_signal : IncidentSignal) (approved : Bool) (approver : Option Text) (w : Turn E S)
      → let out = handle ports u now received_signal approved approver w in
        ((e : Error) × (sanitize_signal u received_signal ≡ err e)
          × (out ≡ (err e, record w { transaction_started = false })))
        ⊎ ((signal : IncidentSignal) × (sanitize_signal u received_signal ≡ ok signal)
            × Ends signal w.published out.0 out.1.published)
  unfolding handle ◌>>=◌
  handle_events received_signal approved approver w =
      elim (Result-cases (sanitize_signal u received_signal)) [
        | inl (signal, e) ↦ inr (
          signal,
          e,
          rw e (
              attempt-Ends signal approved approver (record w { transaction_started = false }) _
                refl (perceives signal (record w { transaction_started = false }))),
        )
        | inr (x, e) ↦ inl (x, e, rw e refl)
      ]
