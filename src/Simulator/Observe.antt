-- ===== src/Simulator/Observe.antt =====
-- `observe_incident` and `advance_time` of simulator/postmortem_sim/conductor.py.
use ckdb_aws.Action.{Action, modify, raise}
use ckdb_aws.Base.{
  Bool, Result, false, find?, nat_eq, none, ok, required, some, string_eq, true, ℕ, ◌&&◌, ◌+◌, ◌==◌,
  ◌>>=◌,
}
use ckdb_aws.Base.Dict.{get}
use ckdb_aws.Domain.{Error, Text, key_error, simulation_error, text_eq}
use ckdb_aws.Simulator.Apply.{incident_at}
use ckdb_aws.Simulator.Conductor.{seconds}
use ckdb_aws.Simulator.Models.{
  Alert, Incident, IncidentObservation, Service, Slo, SloKey, WorldState, slo_key_eq,
}

abbrev active_alert : (incident_id : Text) → Text × Alert → Bool
active_alert incident_id (key, alert) =
    alert.incident_id == incident_id && elim alert.cleared_at [ none ↦ true | some _ ↦ false ]

unfoldable pub observation : Incident → Alert → Slo → Service → (now : ℕ) → IncidentObservation
observation incident alert slo service now = record {
  incident_id = incident.incident_id;
  title = incident.title;
  service = incident.service;
  severity = incident.severity;
  signal = alert.signal;
  slo_kind = alert.slo_kind;
  slo_current_value = slo.current_value;
  slo_threshold = slo.threshold;
  current_version = service.current_version;
  previous_stable_version = service.previous_stable_version;
  observed_at = now;
}

unfoldable pub observe_incident :
    (incident_id : Text) → WorldState → Result Error IncidentObservation
unfolding observation get
observe_incident incident_id w = do
  incident ← required (incident_at incident_id w) simulation_error
  alert ← required (find? (active_alert incident_id) w.alerts) simulation_error
  let key : SloKey = record { service = alert.1.service; kind = alert.1.slo_kind }
  slo ← required (get key w.slos) key_error
  service ← required (get incident.service w.services) key_error
  ok (observation incident alert.1 slo service w.now)

-- An argument of `advance_time`: `negsuc n` is -(n + 1).
pub data ℤ : Type 0 where
  pos : ℕ → ℤ
  negsuc : ℕ → ℤ

unfoldable pub advance_time : ℤ → Action WorldState (Unit {0})
advance_time (pos n) = modify (λ w. record w { now = w.now + seconds n })
advance_time (negsuc n) = raise simulation_error
