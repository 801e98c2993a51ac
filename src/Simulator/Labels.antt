-- ===== src/Simulator/Labels.antt =====
-- What a responder can see of an incident (simulator/postmortem_sim/conductor.py,
-- `observe_incident`).
use ckdb_aws.Base.{
  Bool-cases, Option, Option-cases, [], ap, inl, inr, nat_eq, none, refl, some, string_eq, ℕ, ◌==◌,
  ◌∷◌, ◌≡◌,
}
use ckdb_aws.Base.Dict.{Dict, get}
use ckdb_aws.Domain.{Text, text_beq_iff, text_eq}
use ckdb_aws.Simulator.Models.{Incident, WorldState, slo_key_eq}
use ckdb_aws.Simulator.Observe.{observation, observe_incident}

-- The ground truth of an incident: what its observation is to hide.
pub record Truth : Type 0 where
  pub scenario_id : Text
  pub family_id : Text
  pub variant_id : Text
  pub oracle_step : ℕ

abbrev pub relabelled : Truth → Incident → Incident
relabelled t i = record i {
  scenario_id = t.scenario_id;
  family_id = t.family_id;
  variant_id = t.variant_id;
  oracle_step = t.oracle_step;
}

abbrev relabelled? : Truth → Option Incident → Option Incident
relabelled? t none = none
relabelled? t (some i) = some (relabelled t i)

-- Every incident with another ground truth.
abbrev pub relabel : (Text → Truth) → Dict Text Incident → Dict Text Incident
relabel truth [] = []
relabel truth ((k, i) ∷ d) = (k, relabelled (truth k) i) ∷ relabel truth d

get-relabel :
    (truth : Text → Truth) (k : Text) (d : Dict Text Incident)
    → get k (relabel truth d) ≡ relabelled? (truth k) (get k d)
unfolding get
get-relabel truth k [] = refl
get-relabel truth k ((j, i) ∷ d) = elim (Bool-cases (j == k)) [
  | inl e ↦ rw e (ap (λ x. some (relabelled (truth x) i)) ((text_beq_iff j k).0 e))
  | inr e ↦ rw e (get-relabel truth k d)
]

-- An observation does not depend on the ground truth: in a world that differs in the scenario,
-- family, variant and policy step of its incidents alone, each incident is observed alike, and the
-- same incidents cannot be observed, with the same error.
pub observe_incident-relabel :
    (truth : Text → Truth) (incident_id : Text) (w : WorldState)
    → observe_incident incident_id (record w { incidents = relabel truth w.incidents })
      ≡ observe_incident incident_id w
unfolding observe_incident observation
observe_incident-relabel truth incident_id w = elim (Option-cases (get incident_id w.incidents)) [
  | inl p ↦ rw (get-relabel truth incident_id w.incidents, p) refl
  | inr (i, p) ↦ rw (get-relabel truth incident_id w.incidents, p) refl
]
