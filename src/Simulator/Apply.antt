-- ===== src/Simulator/Apply.antt =====
-- `apply_action` and `_resolve` of
-- simulator/postmortem_sim/conductor.py.
use ckdb_aws.Action.{Action, found, gets, modify, return, ◌>>=◌, ◌>>◌}
use ckdb_aws.Base.{
  Bool, Option, Result, [], err, false, get_elem?, if◌then◌else◌, length, nat_eq, none, ok, some,
  string_eq, true, ℕ, ◌&&◌, ◌++◌, ◌+◌, ◌-◌, ◌/◌, ◌==◌, ◌∷◌,
}
use ckdb_aws.Base.Dict.{Dict, get, put}
use ckdb_aws.Domain.{Error, Fields, Text, Value, decimal, simulation_error, text, text_eq}
use ckdb_aws.Simulator.Conductor.{
  Policy, Script, add_failed_orders, make_id, restored_availability, seconds, set_health,
  zero_float,
}
use ckdb_aws.Simulator.Models.{
  Alert, Incident, IncidentStatus, RemediationAction, Slo, SloKey, WorldState, healthy, mitigating,
  open_incident, resolved, slo_key_eq,
}
use ckdb_aws.Simulator.Remedy.{matches_action, mutate_action, oracle_for}

pub record ActionResult : Type 0 where
  pub action_id : Text
  pub applied : Bool
  pub resolved : Bool
  pub outcome : Text
  pub incident_status : IncidentStatus

-- A call of `apply_action`.
pub record Call : Type 0 where
  pub incident_id : Text
  pub action_type : Text
  pub target_service : Text
  pub params : Fields
  pub applied_by : Text
  pub memory_ref : Option Text

abbrev pub is_resolved : IncidentStatus → Bool
is_resolved resolved = true
is_resolved mitigating = false
is_resolved open_incident = false

abbrev pub incident_at : (incident_id : Text) → WorldState → Option Incident
incident_at incident_id w = get incident_id w.incidents

abbrev pub put_incident : (incident_id : Text) → Incident → Action WorldState (Unit {0})
put_incident incident_id incident =
    modify (λ w. record w { incidents = put incident_id incident w.incidents })

-- The incident that a call is about, with the checks that come first.
unfoldable pub target_incident : Call → WorldState → Result Error Incident
unfolding get
target_incident call w = elim (incident_at call.incident_id w) [
  | none ↦ err simulation_error
  | some incident ↦
      if is_resolved incident.status
      then err simulation_error
      else elim (get call.target_service w.services) [
        | none ↦ err simulation_error
        | some service ↦ ok incident
      ]
]

abbrev closes : Incident → Alert → Bool
closes incident alert =
    alert.incident_id == incident.incident_id
    && elim alert.cleared_at [ none ↦ true | some _ ↦ false ]

unfoldable pub restored : Alert → Slo → Slo
restored alert slo = record slo {
  status = healthy;
  burn_rate = zero_float;
  current_value =
      if alert.slo_kind == text "availability" then restored_availability else zero_float;
}

unfoldable pub clear_alert : (key : Text) → Alert → Action WorldState (Unit {0})
unfolding restored get put
clear_alert key alert = do
  modify (λ w. record w { alerts = put key (record alert { cleared_at = some w.now }) w.alerts })
  let slo_key : SloKey = record { service = alert.service; kind = alert.slo_kind }
  held ← gets (λ (w : WorldState). get slo_key w.slos)
  slo ← found held
  modify (λ w. record w { slos = put slo_key (restored alert slo) w.slos })

unfoldable pub clear_if : Bool → (key : Text) → Alert → Action WorldState (Unit {0})
unfolding clear_alert
clear_if false key alert = return tt
clear_if true key alert = clear_alert key alert

-- The loop of `_resolve` over the alerts
unfoldable pub clear_alerts : Incident → Dict Text Alert → Action WorldState (Unit {0})
unfolding clear_if
clear_alerts incident [] = return tt
clear_alerts incident ((key, alert) ∷ rest) = do
  clear_if (closes incident alert) key alert
  clear_alerts incident rest

unfoldable pub closed_at : (now : ℕ) → Incident → Incident
closed_at now incident = record incident {
  status = resolved;
  resolved_at = some now;
  mttr_seconds = some ((now - incident.opened_at) / 1000000);
}

-- `_resolve`
unfoldable pub resolve_incident : (incident_id : Text) → Incident → Action WorldState Incident
unfolding closed_at set_health clear_alerts
resolve_incident incident_id incident = do
  now ← gets (λ (w : WorldState). w.now)
  put_incident incident_id (closed_at now incident)
  set_health incident.service healthy
  alerts ← gets (λ (w : WorldState). w.alerts)
  clear_alerts incident alerts
  return (closed_at now incident)

unfoldable pub penalty : Policy → (expected : Bool) → ℕ
penalty policy expected =
    seconds (if expected then policy.action_seconds else policy.wrong_action_penalty_seconds)

-- What a call makes of its incident, before the last step resolves it.
unfoldable pub advanced : (expected : Bool) → Incident → Incident
advanced false incident = incident
advanced true incident = record incident {
  oracle_step = incident.oracle_step + 1;
  status = mitigating;
}

abbrev pub call_outcome : (expected : Bool) → Text
call_outcome true = text "success"
call_outcome false = text "no_effect"

-- The last step of the policy resolves the incident.
unfoldable pub finish : Call → Policy → Incident → Action WorldState Incident
unfolding resolve_incident
finish call policy incident =
    if incident.oracle_step == length policy.required_actions
    then resolve_incident call.incident_id incident
    else return incident

module _ (uuid5 : Text → Text) (same : Value → Value → Bool) (script : Script) where
  -- Whether the call is the next step of the policy.
  unfoldable pub is_expected : Call → Policy → Incident → WorldState → Result Error Bool
  unfolding matches_action
  is_expected call policy incident w =
      elim (get_elem? policy.required_actions incident.oracle_step) [
        | none ↦ ok false
        | some expected ↦
            matches_action same expected incident call.action_type call.target_service call.params w
      ]

  unfoldable pub progress : Call → (expected : Bool) → Incident → Action WorldState (Unit {0})
  unfolding advanced add_failed_orders
  progress call true incident = put_incident call.incident_id (advanced true incident)
  progress call false incident =
      add_failed_orders uuid5 script incident 2 (text "MITIGATION_INEFFECTIVE")

  unfoldable pub remediation : Call → (expected : Bool) → Incident → WorldState → RemediationAction
  unfolding make_id
  remediation call expected incident w = record {
    action_id =
        make_id uuid5 script (text "action")
          (incident.scenario_id ++ (text ":" ++ decimal (length w.actions)));
    incident_id = call.incident_id;
    action_type = call.action_type;
    target_service = call.target_service;
    params = call.params;
    applied_at = w.now;
    applied_by = call.applied_by;
    outcome = call_outcome expected;
    memory_ref = call.memory_ref;
  }

  -- What follows the checks of a call.
  unfoldable pub carry_out :
      Call → Policy → (expected : Bool) → Incident → Action WorldState ActionResult
  unfolding mutate_action penalty progress remediation finish
  carry_out call policy expected incident = do
    mutate_action uuid5 script call.action_type call.target_service call.params
    modify (λ w. record w { now = w.now + penalty policy expected })
    progress call expected incident
    action ← gets (remediation call expected incident)
    modify (λ w. record w { actions = w.actions ++ action ∷ [] })
    last ← finish call policy (advanced expected incident)
    return (record {
      action_id = action.action_id;
      applied = true;
      resolved = last.oracle_step == length policy.required_actions;
      outcome = call_outcome expected;
      incident_status = last.status;
    })

  unfoldable pub apply_action : Call → Action WorldState ActionResult
  unfolding target_incident is_expected carry_out oracle_for
  apply_action call = do
    incident ← λ w. (target_incident call w, w)
    policy ← λ w. (oracle_for script incident, w)
    expected ← λ w. (is_expected call policy incident w, w)
    carry_out call policy expected incident
