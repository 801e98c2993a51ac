-- ===== src/Examples/Worlds.antt =====
-- The theorems on the simulator at concrete inputs.
use ckdb_aws.Action.{◌>>=◌}
use ckdb_aws.Base.{
  Bool, Bool-cases, List, Result, [], arith, err, false, inl, inr, length, map, nat_eq, none, ok,
  refl, some, string_eq, true, ◌-◌, ◌/◌, ◌∷◌, ◌≡◌, ◌≤◌,
}
use ckdb_aws.Base.Dict.{get}
use ckdb_aws.Consolidation.Grouping.{incident_eq}
use ckdb_aws.Consolidation.Repository.{key_eq}
use ckdb_aws.Domain.{
  Error, Text, Value, bool, double, end, field, lookup, simulation_error, str, text, text_beq,
  text_eq,
}
use ckdb_aws.Simulator.Apply.{ActionResult, Call, apply_action}
use ckdb_aws.Simulator.Chains.{history}
use ckdb_aws.Simulator.Completion.{play, policy_resolves}
use ckdb_aws.Simulator.Conductor.{Conductor, Fault, Policy, Scenario, Script, seconds}
use ckdb_aws.Simulator.Families.{inject_next, remaining_scenarios}
use ckdb_aws.Simulator.Incidents.{Reach-Lifecycle}
use ckdb_aws.Simulator.Inject.{new_incident}
use ckdb_aws.Simulator.Labels.{Truth, observe_incident-relabel, relabel}
use ckdb_aws.Simulator.Lifecycle.{Lifecycle}
use ckdb_aws.Simulator.Load.{Fixture, config_of, new_conductor, new_script}
use ckdb_aws.Simulator.Models.{Incident, IncidentStatus, WorldState, of_key, slo_key_eq}
use ckdb_aws.Simulator.Observe.{observe_incident}
use ckdb_aws.Simulator.Refused.{apply_action_refused}
use ckdb_aws.Simulator.Schedule.{injections, injections_drain}
use ckdb_aws.Simulator.Steps.{Step, here, next}
use ckdb_aws.Simulator.Timeline.{Reach-Timeline, Timeline}

abbrev no_fault : Fault
no_fault = record {
  bad_version = none;
  dependency_key = none;
  failed_service = none;
  key = none;
  bad_value = none;
  error_rate = none;
  p99_ms = none;
  availability = none;
  utilization = none;
  memory_utilization = none;
  burn_rate = none;
  near_miss = false;
  environment_migrated = false;
}

abbrev bad_deploy : Scenario
bad_deploy = record {
  scenario_id = text "a";
  title = text "t";
  target_service = text "web";
  severity = text "SEV1";
  family_id = text "F1_BAD_DEPLOY";
  variant_id = text "base";
  inject_at_seconds = 60;
  failed_orders = 1;
  fault = record no_fault { bad_version = some (text "2"); error_rate = some (double 1) };
}

abbrev flag_flip : Scenario
flag_flip = record bad_deploy {
  scenario_id = text "b";
  family_id = text "F7_CONFIG_REGRESSION";
  inject_at_seconds = 30;
  fault = record no_fault {
    key = some (text "flag");
    bad_value = some (bool true);
    error_rate = some (double 1);
  };
}

abbrev fixture : Fixture
fixture = record {
  seed = 1;
  start_time = 0;
  services =
      record {
        name = text "web";
        tier = text "1";
        owner_team = text "t";
        current_version = text "1";
        previous_stable_version = none;
        capacity_units = 1;
      }
      ∷ [];
  dependencies = [];
  slos =
      record {
        service = text "web";
        kind = text "error_rate";
        threshold = double 0;
        window_seconds = 60;
        baseline = double 0;
      }
      ∷ [];
  configs = record { service = text "web"; key = text "flag"; value = bool false } ∷ [];
  scenarios = bad_deploy ∷ flag_flip ∷ [];
}

abbrev rollback_policy : Policy
rollback_policy = record {
  required_actions =
      record {
        action_type = text "rollback_deploy";
        target_service = text "$incident.service";
        params = field (text "target_version") (str (text "$incident.previous_stable_version")) end;
      }
      ∷ [];
  action_seconds = 120;
  wrong_action_penalty_seconds = 300;
}

abbrev uuid5 : Text → Text
uuid5 t = t

abbrev same : Value → Value → Bool
same (str a) (str b) = text_beq a b
same v w = false

abbrev script : Script
script = new_script fixture ((text "F1_BAD_DEPLOY", rollback_policy) ∷ []) []

abbrev first : Conductor
first = new_conductor uuid5 script fixture

abbrev roll_back_call : Call
roll_back_call = record {
  incident_id = text "1:incident:a";
  action_type = text "rollback_deploy";
  target_service = text "web";
  params = field (text "target_version") (str (text "1")) end;
  applied_by = text "agent:postmortem";
  memory_ref = none;
}

abbrev opened_world : WorldState
opened_world = (inject_next uuid5 script (inject_next uuid5 script first).1).1.state

abbrev statuses : WorldState → List IncidentStatus
statuses w = map (λ (e : Text × Incident). e.1.status) w.incidents

test_run : statuses opened_world ≡ IncidentStatus.open_incident ∷ IncidentStatus.open_incident ∷ []
unfolding inject_next new_script new_conductor text_beq ◌>>=◌
test_run = refl

test_resolved :
    statuses (apply_action uuid5 same script roll_back_call opened_world).1
    ≡ IncidentStatus.open_incident ∷ IncidentStatus.resolved ∷ []
unfolding apply_action ◌>>=◌ inject_next new_script new_conductor text_beq lookup
test_resolved = refl

one_setting : (s k : Text) → length (history s k (map (config_of uuid5 script) fixture.configs)) ≤ 1
unfolding config_of
one_setting s k =
    elim (Bool-cases (
      of_key s k (
        config_of uuid5 script
          record { service = text "web"; key = text "flag"; value = bool false }))) [
            | inl e ↦ rw e (omega arith)
            | inr e ↦ rw e (omega arith)
          ]

Reach-Timeline_example : Timeline (inject_next uuid5 script first).1.state
Reach-Timeline_example =
    Reach-Timeline uuid5 same fixture ((text "F1_BAD_DEPLOY", rollback_policy) ∷ []) [] one_setting
      (next here (Step.inject first))

Reach-Lifecycle_example : Lifecycle script (inject_next uuid5 script first).1.state
Reach-Lifecycle_example = Reach-Lifecycle uuid5 same script fixture (next here (Step.inject first))

abbrev stray_call : Call
stray_call = record roll_back_call { incident_id = text "unknown" }

apply_action_refused_example :
    (apply_action uuid5 same script stray_call opened_world).1 ≡ opened_world
unfolding apply_action ◌>>=◌ inject_next new_script new_conductor text_beq lookup
apply_action_refused_example =
    apply_action_refused uuid5 same script stray_call opened_world simulation_error refl (λ e. cc)

abbrev disguise : Text → Truth
disguise k = record {
  scenario_id = k;
  family_id = text "F10_NOVEL";
  variant_id = [];
  oracle_step = 7;
}

observe_incident-relabel_example :
    observe_incident
      (text "1:incident:a")
      (record opened_world { incidents = relabel disguise opened_world.incidents })
    ≡ observe_incident (text "1:incident:a") opened_world
observe_incident-relabel_example =
    observe_incident-relabel disguise (text "1:incident:a") opened_world

injections_drain_example :
    (remaining_scenarios uuid5 script (injections uuid5 script 2 first) ≡ 0)
    × (inject_next uuid5 script (injections uuid5 script 2 first)
        ≡ (err simulation_error, injections uuid5 script 2 first))
unfolding new_script new_conductor text_beq
injections_drain_example = injections_drain uuid5 script first 2 refl

abbrev bad_incident : Incident
bad_incident = new_incident uuid5 script bad_deploy (seconds 60)

abbrev played : Result Error (List ActionResult) × WorldState
played = play uuid5 same script (roll_back_call ∷ []) opened_world

abbrev results_of : Result Error (List ActionResult) → List ActionResult
results_of (ok rs) = rs
results_of (err e) = []

policy_resolves_example :
    (j : Incident) × (get (text "1:incident:a") played.1.incidents ≡ some j)
    × (j.status ≡ IncidentStatus.resolved)
    × (j.resolved_at ≡ some played.1.now)
    × (j.mttr_seconds ≡ some ((played.1.now - bad_incident.opened_at) / 1000000))
unfolding play apply_action ◌>>=◌ inject_next new_script new_conductor text_beq lookup
policy_resolves_example =
    policy_resolves uuid5 same script rollback_policy (text "1:incident:a") roll_back_call []
      bad_incident opened_world played.1 (results_of played.0) (refl, tt) refl refl refl refl
      (refl, tt)
