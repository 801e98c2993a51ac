-- ===== src/Service/Safe.antt =====
-- When a turn acts, and what it reports of it (backend/src/postmortem_backend/service.py).
use ckdb_aws.Base.{
  Bool, Option, Result, Result-cases, ap, err, false, inl, inr, map_ok, map_ok-eq-ok, none, ok,
  refl, some, subst, sym, ◌∙◌, ◌≡◌, ◌⊎◌,
}
use ckdb_aws.Domain.{
  AgentDecision, Datetime, Error, IncidentSignal, RecallBundle, RemediationCommand,
  RemediationResult, ResponseResult, Text,
}
use ckdb_aws.Guardrails.Injection.{guard_untrusted_recall_bundle, sanitize_signal}
use ckdb_aws.Guardrails.Unicode.{Unicode}
use ckdb_aws.Service.Acts.{Acted, act_acts, reason-Kept, recall_memory-Kept}
use ckdb_aws.Service.Handle.{
  attempt, chosen_command, complete, decide_and_respond, fail_safely, handle, respond, response,
  with_approval, work,
}
use ckdb_aws.Action.Runs.{>>=-cases, >>=-return, >>=-returns}
use ckdb_aws.Service.Stages.{act, perceive, reason, recall_memory}
use ckdb_aws.Action.{Action, then_with, ◌>>=◌}
use ckdb_aws.Service.Turn.{Ports, Turn, emit_event}

-- A turn over `received_signal` has called the remediation port, once: from the state `s` to `s'`.
-- The command is the one that the reasoner chose over a screened signal and screened memory, with
-- the caller's approval in it; it passed the allowlist, the provenance gate and the gate of
-- destructive actions; and what the turn returns or raises is what the port did.
pub record Executed {E S : Type 0} (ports : Ports E S) (u : Unicode) (now : Datetime)
    (received_signal : IncidentSignal) (approved : Bool) (approver : Option Text) (s : S)
    (r : Result Error ResponseResult) (s' : S) : Type 0 where
  pub signal : IncidentSignal
  pub sanitized : sanitize_signal u received_signal ≡ ok signal
  pub recalled : RecallBundle
  pub memory : RecallBundle
  pub screened : guard_untrusted_recall_bundle u recalled ≡ ok memory
  pub env : E
  pub decision : AgentDecision
  pub decided : (ports.decide signal memory env).0 ≡ ok decision
  pub proposed : RemediationCommand
  pub chosen : chosen_command decision.kind decision.command ≡ some proposed
  pub inner : Result Error (Option RemediationResult)
  pub ran :
      Acted ports u now signal memory decision.kind
        (with_approval approved proposed)
        approver
        s
        inner
        s'
  pub reported :
      r
      ≡ map_ok
          (response signal (record decision { command = some (with_approval approved proposed) }))
          inner

-- The port was not called, and no response reports a remediation.
abbrev pub Idle : {S : Type 0} → S → Result Error ResponseResult → S → Type 0
Idle s r s' = (s' ≡ s) × ((x : ResponseResult) → r ≡ ok x → x.remediation ≡ none)

module _ {E S : Type 0} (ports : Ports E S) (u : Unicode) (now : Datetime)
    (signal : IncidentSignal) where
  pub recalled_screened :
      (w w' : Turn E S) (memory : RecallBundle)
      → recall_memory ports u now signal w ≡ (ok memory, w')
      → (recalled : RecallBundle) × (guard_untrusted_recall_bundle u recalled ≡ ok memory)
  unfolding recall_memory
  recalled_screened w w' memory h =
      let (_, w₁, _, h₁) = >>=-returns _ _ h in
      let (embedding, w₂, _, h₂) = >>=-returns _ _ h₁ in
      let (recalled, w₃, _, h₃) = >>=-returns _ _ h₂ in
      let (m, w₄, p, h₄) = >>=-returns _ _ h₃ in
      let (rejected, w₅, _, h₅) = >>=-returns _ _ h₄ in
      let (scores, w₆, _, h₆) = >>=-returns _ _ h₅ in
      let (_, w₇, _, h₇) = >>=-returns _ _ h₆ in (recalled, ap (λ x. x.0) p ∙ ap (λ x. x.0) h₇)

  reason_decides :
      (memory : RecallBundle) (w w' : Turn E S) (decision : AgentDecision)
      → reason ports u now signal memory w ≡ (ok decision, w')
      → (env : E) × ((ports.decide signal memory env).0 ≡ ok decision)
  unfolding reason
  reason_decides memory w w' decision h =
      let (_, w₁, _, h₁) = >>=-returns _ _ h in
      let (d, w₂, p, h₂) = >>=-returns _ _ h₁ in
      let (_, w₃, _, h₃) = >>=-returns _ _ h₂ in (w₁.env, cc (p, h₃))

  -- Completing a turn, or failing it, changes neither what it did nor what it returns or raises.
  finishing :
      (m : Action (Turn E S) ResponseResult) (w : Turn E S)
      → let out = fail_safely ports u now signal ((m >>= complete ports u now signal) w) in
        (out.0 ≡ (m w).0) × (out.1.backend ≡ (m w).1.backend)
  unfolding fail_safely complete emit_event ◌>>=◌
  finishing m w = go (m w)
    where
      go :
          (r : Result Error ResponseResult × Turn E S)
          → let out = fail_safely ports u now signal (then_with r (complete ports u now signal)) in
            (out.0 ≡ r.0) × (out.1.backend ≡ r.1.backend)
      go (ok x, w') = (refl, refl)
      go (err e, w') = (refl, refl)

  module _ (received_signal : IncidentSignal) (approved : Bool) (approver : Option Text)
      (sanitized : sanitize_signal u received_signal ≡ ok signal) where
    abbrev Outcome : S → Result Error ResponseResult × Turn E S → Type 0
    Outcome s out =
        Idle s out.0 out.1.backend
        ⊎ Executed ports u now received_signal approved approver s out.0 out.1.backend

    unchanged :
        {s s' : S} (out : Result Error ResponseResult × Turn E S)
        → s' ≡ s
        → Outcome s' out
        → Outcome s out
    unchanged out same h = subst (λ x. Outcome x out) same h

    respond_acts :
        (recalled memory : RecallBundle) (env : E) (decision : AgentDecision)
        (o : Option RemediationCommand) (w : Turn E S)
        → guard_untrusted_recall_bundle u recalled ≡ ok memory
        → (ports.decide signal memory env).0 ≡ ok decision
        → chosen_command decision.kind decision.command ≡ o
        → Outcome w.backend (respond ports u now signal memory decision approved approver o w)
    unfolding respond
    respond_acts recalled memory env decision none w screened decided chosen = inl (refl, λ x h. cc)
    respond_acts recalled memory env decision (some c) w screened decided chosen =
        let answer =
          response signal (record decision { command = some (with_approval approved c) }) in
        let action =
          act ports u now signal memory decision.kind (with_approval approved c) approver in
        subst (Outcome w.backend) (sym (>>=-return action answer w))
          (elim (act_acts ports u now signal memory decision.kind (with_approval approved c)
            approver w) [
              | inl (same, nothing) ↦ inl (
                same,
                λ x h.
                    let (a, e, is) = map_ok-eq-ok answer (action w).0 h in
                    sym (ap (λ (y : ResponseResult). y.remediation) is) ∙ nothing a e,
              )
              | inr acted ↦ inr (record {
                signal = signal;
                sanitized = sanitized;
                recalled = recalled;
                memory = memory;
                screened = screened;
                env = env;
                decision = decision;
                decided = decided;
                proposed = c;
                chosen = chosen;
                inner = (action w).0;
                ran = acted;
                reported = refl;
              })
            ])

    decide_acts :
        (recalled memory : RecallBundle) (w : Turn E S)
        → guard_untrusted_recall_bundle u recalled ≡ ok memory
        → Outcome w.backend (decide_and_respond ports u now signal approved approver memory w)
    unfolding decide_and_respond
    decide_acts recalled memory w screened =
        let same = (reason-Kept ports u now signal memory).run w in
        elim (>>=-cases (reason ports u now signal memory)
          (λ decision.
            respond ports u now signal memory decision approved approver
              (chosen_command decision.kind decision.command))
          w) [
            | inl (e, w₁, p, q) ↦ rw q (inl (rw p at same, λ x h. cc))
            | inr (decision, w₁, p, q) ↦
                let (env, decided) = reason_decides memory w w₁ decision p in
                let o = chosen_command decision.kind decision.command in
                rw q (
                  unchanged (respond ports u now signal memory decision approved approver o w₁)
                    (rw p at same)
                    (respond_acts recalled memory env decision o w₁ screened decided refl))
          ]

    work_acts : (w : Turn E S) → Outcome w.backend (work ports u now signal approved approver w)
    unfolding work
    work_acts w =
        let same = (recall_memory-Kept ports u now signal).run w in
        elim (>>=-cases (recall_memory ports u now signal)
          (decide_and_respond ports u now signal approved approver) w) [
            | inl (e, w₁, p, q) ↦ rw q (inl (rw p at same, λ x h. cc))
            | inr (memory, w₁, p, q) ↦
                let (recalled, screened) = recalled_screened w w₁ memory p in
                rw q (
                  unchanged (decide_and_respond ports u now signal approved approver memory w₁)
                    (rw p at same) (decide_acts recalled memory w₁ screened))
          ]

    attempt_acts :
        (w : Turn E S)
        → Outcome w.backend
            (fail_safely ports u now signal (attempt ports u now signal approved approver w))
    unfolding attempt
    attempt_acts w =
        let (e, s) = finishing (work ports u now signal approved approver) w in
        rw (e, s) (work_acts w)

module _ {E S : Type 0} (ports : Ports E S) (u : Unicode) (now : Datetime) where
  -- A turn calls the remediation port at most once. When it does not, the state behind the port is
  -- the one before the turn, and a response reports no remediation. When it does, it is with a
  -- command that the reasoner chose over a screened signal and screened memory, with the caller's
  -- approval in it, that passed the tool allowlist, the provenance gate and the gate of destructive
  -- actions; and the turn returns the port's result in its response, or raises the port's error.
  pub handle_acts :
      (received_signal : IncidentSignal) (approved : Bool) (approver : Option Text) (w : Turn E S)
      → let out = handle ports u now received_signal approved approver w in
        Idle w.backend out.0 out.1.backend
        ⊎ Executed ports u now received_signal approved approver w.backend out.0 out.1.backend
  unfolding handle attempt perceive emit_event ◌>>=◌
  handle_acts received_signal approved approver w =
      elim (Result-cases (sanitize_signal u received_signal)) [
        | inr (e, p) ↦ rw p (inl (refl, λ x h. cc))
        | inl (signal, p) ↦ rw p (
            attempt_acts ports u now signal received_signal approved approver p
              (perceive ports u now signal (record w { transaction_started = false })).1)
      ]
