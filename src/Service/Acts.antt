-- ===== src/Service/Acts.antt =====
-- What a turn does to the state behind the remediation port
-- (backend/src/postmortem_backend/service.py).
use ckdb_aws.Service.Console.{console_scores, rejected_count}
use ckdb_aws.Base.{
  Bool-cases, List, Option, Result, Result-cases, String, err, inl, inr, map_ok, none, not, ok,
  ok-injective, refl, some, subst, sym, ◌&&◌, ◌∙◌, ◌≡◌, ◌⊎◌,
}
use ckdb_aws.Domain.{
  Datetime, DecisionKind, Error, EventType, Float, IncidentSignal, RecallBundle, RemediationCommand,
  RemediationResult, Text, decision_proposed, memory_text, reasoning_started, recall_completed,
  recall_started, recall_text, all_candidates,
}
use ckdb_aws.Events.{Payload}
use ckdb_aws.Guardrails.Allowlist.{ApprovalRecord, authorize_action}
use ckdb_aws.Guardrails.Injection.{guard_untrusted_recall_bundle}
use ckdb_aws.Guardrails.Unicode.{Unicode}
use ckdb_aws.Action.Runs.{>>=-return, Runs, Runs->>=}
use ckdb_aws.Service.Stages.{
  act, begin_transaction, execute, gate, reason, recall_memory, recall_query,
}
use ckdb_aws.Action.{Action, lift, return, ◌>>=◌}
use ckdb_aws.Service.Turn.{Ports, Turn, emit_event, on_env}

-- The port's state is as it was.
abbrev pub Kept : {E S : Type 0} → Turn E S → Turn E S → Type 0
Kept w w' = w'.backend ≡ w.backend

Kept-trans : {E S : Type 0} (a b c : Turn E S) → Kept a b → Kept b c → Kept a c
Kept-trans a b c p q = q ∙ p

module _ {E S : Type 0} (ports : Ports E S) (u : Unicode) (now : Datetime)
    (signal : IncidentSignal) where
  step :
      {A B : Type 0} {m : Action (Turn E S) A} {f : A → Action (Turn E S) B}
      → Runs Kept m
      → ((a : A) → Runs Kept (f a))
      → Runs Kept (m >>= f)
  step = Runs->>= Kept-trans

  emit_event-Kept :
      (kind : EventType) (stage : String) (message : Text) (d : Payload)
      → Runs Kept (emit_event {E = E} {S = S} signal kind stage message d)
  unfolding emit_event
  emit_event-Kept kind stage message d = record { run = λ w. refl }

  on_env-Kept : {A : Type 0} (f : E → Result Error A × E) → Runs Kept (on_env {E = E} {S = S} f)
  on_env-Kept f = record { run = λ w. refl }

  lift-Kept : {A : Type 0} (r : Result Error A) → Runs Kept (lift {W = Turn E S} r)
  lift-Kept r = record { run = λ w. refl }

  pub recall_memory-Kept : Runs Kept (recall_memory ports u now signal)
  unfolding recall_memory
  recall_memory-Kept = step (emit_event-Kept recall_started _ _ _) (λ _.
      step (on_env-Kept (ports.embed (recall_text signal))) (λ embedding.
        step (on_env-Kept (ports.recall (recall_query signal embedding))) (λ recalled.
          step (lift-Kept (guard_untrusted_recall_bundle u recalled)) (λ memory.
            step (lift-Kept (rejected_count ports.builtins memory.diagnostics)) (λ rejected.
              step (lift-Kept (console_scores ports.builtins (all_candidates memory))) (λ scores.
                step (emit_event-Kept recall_completed _ _ _) (λ _. lift-Kept (ok memory))))))))

  pub reason-Kept : (memory : RecallBundle) → Runs Kept (reason ports u now signal memory)
  unfolding reason
  reason-Kept memory = step (emit_event-Kept reasoning_started _ _ _) (λ _.
      step (on_env-Kept (ports.decide signal memory))
        (λ decision. step (emit_event-Kept decision_proposed _ _ _) (λ _. lift-Kept (ok decision))))

  -- The action ran: it was authorized, and the call of the port says how it went.
  pub record Ran (command : RemediationCommand) (approver : Option Text) (s : S)
      (r : Result Error RemediationResult) (s' : S) : Type 0 where
    pub approval : ApprovalRecord
    pub authorized :
        authorize_action u now command command.approved approver signal.service_tags ≡ ok approval
    pub embedding : List Float
    pub returned : (ports.remediation command embedding s).0 ≡ r
    pub left : (ports.remediation command embedding s).1 ≡ s'

  execute_acts :
      (command : RemediationCommand) (approver : Option Text) (w : Turn E S)
      → let out = execute ports u now signal command approver w in
        ((e : Error) × (out.0 ≡ err e) × (out.1.backend ≡ w.backend))
        ⊎ Ran command approver w.backend out.0 out.1.backend
  unfolding execute begin_transaction emit_event ◌>>=◌
  execute_acts command approver w =
      elim (Result-cases
        (authorize_action u now command command.approved approver signal.service_tags)) [
          | inr (e, p) ↦ inl (e, rw p refl, rw p refl)
          | inl (approval, p) ↦ elim (Result-cases (ports.embed (memory_text command) w.env).0) [
            | inr (e, q) ↦ inl (e, rw (p, q) refl, rw (p, q) refl)
            | inl (embedding, q) ↦
                inr (elim (Result-cases (ports.remediation command embedding w.backend).0) [
                  | inl (r, c) ↦ record {
                    approval = approval;
                    authorized = p;
                    embedding = embedding;
                    returned = c ∙ rw (p, q, c) refl;
                    left = rw (p, q, c) refl;
                  }
                  | inr (e, c) ↦ record {
                    approval = approval;
                    authorized = p;
                    embedding = embedding;
                    returned = c ∙ rw (p, q, c) refl;
                    left = rw (p, q, c) refl;
                  }
                ])
          ]
        ]

  -- The action ran behind the gates, with the approval that was given.
  pub record Acted (memory : RecallBundle) (kind : DecisionKind) (command : RemediationCommand)
      (approver : Option Text) (s : S) (r : Result Error (Option RemediationResult)) (s' : S)
      : Type 0 where
    pub gated : gate ports u now command kind memory ≡ ok tt
    pub result : Result Error RemediationResult
    pub ran : Ran command approver s result s'
    pub reported : r ≡ map_ok some result

  abbrev pub MayAct :
      RemediationCommand
      → RecallBundle
      → DecisionKind
      → (approver : Option Text) → S
      → Result Error (Option RemediationResult) × Turn E S
      → Type 0
  MayAct command memory kind approver s out =
      (out.1.backend ≡ s × ((o : Option RemediationResult) → out.0 ≡ ok o → o ≡ none))
      ⊎ Acted memory kind command approver s out.0 out.1.backend

  runs_it :
      (memory : RecallBundle) (kind : DecisionKind) (command : RemediationCommand)
      (approver : Option Text) (w : Turn E S)
      → gate ports u now command kind memory ≡ ok tt
      → MayAct command memory kind approver w.backend
          ((execute ports u now signal command approver >>= λ result. return (some result)) w)
  runs_it memory kind command approver w p =
      let after = execute ports u now signal command approver w in
      subst (MayAct command memory kind approver w.backend)
        (sym (>>=-return (execute ports u now signal command approver) some w))
        (elim (execute_acts command approver w) [
          | inl (e, h, k) ↦ inl (k, λ o g. cc)
          | inr ran ↦ inr (record { gated = p; result = after.0; ran = ran; reported = refl })
        ])

  pub act_acts :
      (memory : RecallBundle) (kind : DecisionKind) (command : RemediationCommand)
      (approver : Option Text) (w : Turn E S)
      → MayAct command memory kind approver w.backend
          (act ports u now signal memory kind command approver w)
  unfolding act emit_event ◌>>=◌
  act_acts memory kind command approver w =
      elim (Result-cases (gate ports u now command kind memory)) [
        | inr (e, p) ↦ inl (rw p refl, rw p (λ o h. cc))
        | inl (a, p) ↦ elim (Bool-cases (command.requires_human_approval && not command.approved)) [
          | inl q ↦ inl (rw (p, q) refl, rw (p, q) (λ o h. sym (ok-injective h)))
          | inr q ↦ rw (p, q) (runs_it memory kind command approver _ p)
        ]
      ]
