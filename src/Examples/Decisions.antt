-- ===== src/Examples/Decisions.antt =====
-- The theorem on the rule-based reasoner at a concrete input.
use ckdb_aws.Base.{All, Result, [], err, false, map, none, ok, refl, some, true, ◌≡◌, ◌⊎◌}
use ckdb_aws.Domain.{
  AgentDecision, Error, RecallBundle, RemediationCommand, all_candidates, ask_human, end, escalate,
  remediate, text_beq,
}
use ckdb_aws.Examples.Data.{now, plain, signal}
use ckdb_aws.Examples.Recalls.{episodes, facts, plain_builtins, plain_floats, runbooks}
use ckdb_aws.Examples.Turns.{ports}
use ckdb_aws.Fakes.{fake_decide, is_actionable, or_list}
use ckdb_aws.Fakes.Grounded.{fake_decide_grounded}
use ckdb_aws.Floats.{float_zero}
use ckdb_aws.Guardrails.Provenance.{verify_citation_resolves}
use ckdb_aws.Service.Stages.{gate}

abbrev shown : RecallBundle
shown = record {
  episodes = episodes;
  facts = facts;
  runbooks = runbooks;
  cold_start = false;
  diagnostics = end;
}

abbrev decision_of : Result Error AgentDecision → AgentDecision
decision_of (ok d) = d
decision_of (err e) = record {
  kind = ask_human;
  explanation = [];
  cited_memory_id = none;
  command = none;
  confidence = float_zero;
}

decided : AgentDecision
decided = decision_of (fake_decide plain_floats plain_builtins signal shown)

decided_lem : fake_decide plain_floats plain_builtins signal shown ≡ ok decided
unfolding decided fake_decide text_beq
decided_lem = refl

test_decided : decided.cited_memory_id ≡ some 30
unfolding decided fake_decide text_beq
test_decided = refl

fake_decide_grounded_example :
    ((decided.kind ≡ escalate)
      × (decided.command ≡ none)
      × All (λ x. is_actionable x ≡ false) (or_list shown.runbooks shown.episodes))
    ⊎ ((c : RemediationCommand) × (decided.kind ≡ remediate)
        × (decided.command ≡ some c)
        × (c.incident_id ≡ signal.incident_id)
        × (c.service_id ≡ signal.service_id)
        × (c.approved ≡ false)
        × (verify_citation_resolves decided.cited_memory_id
              (map (λ x. x.memory_id) (all_candidates shown))
            ≡ true)
        × (gate ports plain now c decided.kind shown ≡ ok tt))
fake_decide_grounded_example =
    fake_decide_grounded plain_floats plain_builtins ports plain now signal shown decided
      (refl, (refl, (refl, (refl, (refl, (refl, (refl, tt))))))) decided_lem
