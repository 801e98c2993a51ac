-- ===== src/Simulator/Inject.antt =====
-- The injection of incidents by the conductor of simulator/postmortem_sim/conductor.py. A lookup
-- that fails raises where the code does it, with what was written before it in place.
use ckdb_aws.Action.{Action, found, gets, modify, raise, return, ◌>>=◌, ◌>>◌}
use ckdb_aws.Base.{Option, [], false, if◌then◌else◌, nat_eq, none, some, string_eq, ℕ, ◌++◌, ◌∷◌}
use ckdb_aws.Base.Dict.{get, put}
use ckdb_aws.Domain.{Float, Text, simulation_error, text, text_eq}
use ckdb_aws.Simulator.Conductor.{
  Scenario, Script, add_failed_orders, default_burn_rate, make_id, or_float, set_health,
}
use ckdb_aws.Simulator.Models.{
  Alert, ConfigRevision, Deployment, Incident, Service, SloKey, WorldState, breaching,
  current_config, degraded, open_incident, slo_key_eq,
}

module _ (uuid5 : Text → Text) (script : Script) where
  unfoldable pub new_incident : Scenario → (now : ℕ) → Incident
  unfolding make_id
  new_incident scenario now = record {
    incident_id = make_id uuid5 script (text "incident") scenario.scenario_id;
    scenario_id = scenario.scenario_id;
    title = scenario.title;
    service = scenario.target_service;
    severity = scenario.severity;
    family_id = scenario.family_id;
    variant_id = scenario.variant_id;
    status = open_incident;
    opened_at = now;
    resolved_at = none;
    mttr_seconds = none;
    oracle_step = 0;
  }

  new_alert : Scenario → Incident → (slo_kind signal : Text) → (now : ℕ) → Alert
  unfolding make_id
  new_alert scenario incident slo_kind signal now = record {
    alert_id = make_id uuid5 script (text "alert") scenario.scenario_id;
    incident_id = incident.incident_id;
    service = incident.service;
    slo_kind = slo_kind;
    signal = signal;
    fired_at = now;
    cleared_at = none;
  }

  -- `_open_incident` from the SLO on
  unfoldable pub raise_alert :
      Scenario
      → Incident
      → (slo_kind : Text) → (current_value : Float) → (signal error_code : Text) → (now : ℕ)
      → Action WorldState Incident
  unfolding new_alert add_failed_orders get put
  raise_alert scenario incident slo_kind current_value signal error_code now = do
    let key : SloKey = record { service = incident.service; kind = slo_kind }
    held ← gets (λ (w : WorldState). get key w.slos)
    slo ← found held
    let burning = record slo {
      current_value = current_value;
      burn_rate = or_float scenario.fault.burn_rate default_burn_rate;
      status = breaching;
    }
    modify (λ w. record w { slos = put key burning w.slos })
    let alert = new_alert scenario incident slo_kind signal now
    modify (λ w. record w { alerts = put alert.alert_id alert w.alerts })
    add_failed_orders uuid5 script incident scenario.failed_orders error_code
    return incident

  -- `_open_incident`
  unfoldable pub open_incident_for :
      Scenario
      → (slo_kind : Text) → (current_value : Float) → (signal error_code : Text)
      → Action WorldState Incident
  unfolding new_incident raise_alert put
  open_incident_for scenario slo_kind current_value signal error_code = do
    now ← gets (λ (w : WorldState). w.now)
    let incident = new_incident scenario now
    modify (λ w. record w { incidents = put incident.incident_id incident w.incidents })
    raise_alert scenario incident slo_kind current_value signal error_code now

  -- An incident with the value under a name of the fault.
  unfoldable pub opened :
      Scenario
      → (slo_kind : Text) → Option Float
      → (signal error_code : Text) → Action WorldState Incident
  unfolding open_incident_for
  opened scenario slo_kind current_value signal error_code = do
    value ← found current_value
    open_incident_for scenario slo_kind value signal error_code

  deploy_bad : (service : Service) → (version : Text) → Service
  deploy_bad service version = record service { current_version = version; health = degraded }

  unfoldable pub inject_bad_deploy : Scenario → Action WorldState Incident
  unfolding opened deploy_bad make_id get put
  inject_bad_deploy scenario = do
    let name = scenario.target_service
    held ← gets (λ (w : WorldState). get name w.services)
    service ← found held
    let remembered = record service { previous_stable_version = some service.current_version }
    modify (λ w. record w { services = put name remembered w.services })
    version ← found scenario.fault.bad_version
    modify (λ w. record w { services = put name (deploy_bad remembered version) w.services })
    let deployed : ℕ → Deployment = λ now. record {
      deploy_id = make_id uuid5 script (text "deploy") (scenario.scenario_id ++ text ":bad");
      service = service.name;
      version = version;
      action = text "deploy";
      deployed_at = now;
      rolled_back = false;
    }
    modify (λ w. record w { deployments = w.deployments ++ deployed w.now ∷ [] })
    opened scenario (text "error_rate") scenario.fault.error_rate
        (text "HTTP 5xx rose after deploy " ++ version) (text "CHECKOUT_5XX")

  -- `if current is None: raise`
  unfoldable pub when_set :
      Option ConfigRevision → Action WorldState Incident → Action WorldState Incident
  when_set none goes_on = raise simulation_error
  when_set (some c) goes_on = goes_on

  unfoldable pub inject_pool_exhaustion : Scenario → Action WorldState Incident
  unfolding set_health opened get current_config when_set
  inject_pool_exhaustion scenario = do
    set_health scenario.target_service degraded
    held ← gets (λ (w : WorldState). get scenario.target_service w.services)
    service ← found held
    config ← gets (λ (w : WorldState). current_config service.name (text "db_pool_size") w.configs)
    if scenario.fault.near_miss
        then opened scenario (text "latency") scenario.fault.p99_ms
            (text "slow SQL query plan causes long scans; pool health confirmed "
              ++ text "and resource gauges remain normal")
            (text "SLOW_QUERY_PLAN")
        else when_set config (
            opened scenario (text "latency") scenario.fault.p99_ms
              (text "database too many connections; p99 latency breached")
              (text "DB_POOL_EXHAUSTED"))
