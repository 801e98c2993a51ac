-- ===== src/Simulator/Load.antt =====
-- `Conductor.__init__` and `_load_world` of simulator/postmortem_sim/conductor.py: the script and
-- the first world of a fixture.
use ckdb_aws.Base.{
  Bool, Eq, List, Option, [], false, ltb, map, nat_eq, none, string_eq, ℕ, ◌&&◌, ◌++◌, ◌==◌, ◌||◌,
  ◌∷◌,
}
use ckdb_aws.Base.Dict.{Dict, put}
use ckdb_aws.Base.Sort.{sort}
use ckdb_aws.Domain.{Float, Text, Value, text, text_eq, text_leb}
use ckdb_aws.Simulator.Conductor.{Conductor, Policy, Scenario, Script, make_id, zero_float}
use ckdb_aws.Simulator.Models.{
  ConfigRevision, Dependency, Deployment, Service, Slo, WorldState, healthy, slo_key_eq,
}

pub record ServiceItem : Type 0 where
  pub name : Text
  pub tier : Text
  pub owner_team : Text
  pub current_version : Text
  pub previous_stable_version : Option Text
  pub capacity_units : ℕ

pub record DependencyItem : Type 0 where
  pub dependency_key : Text
  pub from_service : Text
  pub to_service : Text
  pub dependency_type : Text
  pub criticality : Text

pub record SloItem : Type 0 where
  pub service : Text
  pub kind : Text
  pub threshold : Float
  pub window_seconds : ℕ
  pub baseline : Float

pub record ConfigItem : Type 0 where
  pub service : Text
  pub key : Text
  pub value : Value

pub record Fixture : Type 0 where
  pub seed : ℕ
  pub start_time : ℕ
  pub services : List ServiceItem
  pub dependencies : List DependencyItem
  pub slos : List SloItem
  pub configs : List ConfigItem
  pub scenarios : List Scenario

-- `(item["inject_at_seconds"], item["scenario_id"])`
unfoldable pub scenario_leb : Scenario → Scenario → Bool
unfolding text_leb
scenario_leb a b =
    ltb a.inject_at_seconds b.inject_at_seconds
    || (a.inject_at_seconds == b.inject_at_seconds && text_leb a.scenario_id b.scenario_id)

unfoldable pub new_script : Fixture → (oracle scenario_oracle : Dict Text Policy) → Script
unfolding sort scenario_leb
new_script f oracle scenario_oracle = record {
  seed = f.seed;
  start_time = f.start_time;
  scenarios = sort scenario_leb f.scenarios;
  oracle = oracle;
  scenario_oracle = scenario_oracle;
}

-- `for item in items: d[key(item)] = row(item)`
abbrev fill : {A K V : Type 0} ⦃e : Eq K⦄ → (A → K) → (A → V) → List A → Dict K V → Dict K V
fill key make [] d = d
fill key make (x ∷ xs) d = fill key make xs (put (key x) (make x) d)

module _ (uuid5 : Text → Text) (script : Script) where
  service_of : ServiceItem → Service
  unfolding make_id
  service_of i = record {
    service_id = make_id uuid5 script (text "service") i.name;
    name = i.name;
    tier = i.tier;
    owner_team = i.owner_team;
    health = healthy;
    current_version = i.current_version;
    previous_stable_version = i.previous_stable_version;
    capacity_units = i.capacity_units;
    restart_count = 0;
  }

  dependency_of : DependencyItem → Dependency
  unfolding make_id
  dependency_of i = record {
    dependency_id = make_id uuid5 script (text "dependency") i.dependency_key;
    dependency_key = i.dependency_key;
    from_service = i.from_service;
    to_service = i.to_service;
    dependency_type = i.dependency_type;
    criticality = i.criticality;
    status = text "active";
  }

  slo_of : SloItem → Slo
  unfolding make_id
  slo_of i = record {
    slo_id = make_id uuid5 script (text "slo") (i.service ++ (text ":" ++ i.kind));
    service = i.service;
    kind = i.kind;
    threshold = i.threshold;
    window_seconds = i.window_seconds;
    current_value = i.baseline;
    burn_rate = zero_float;
    status = healthy;
  }

  unfoldable pub config_of : ConfigItem → ConfigRevision
  unfolding make_id
  config_of i = record {
    config_id =
        make_id uuid5 script (text "config") (i.service ++ (text ":" ++ (i.key ++ text ":0")));
    service = i.service;
    key = i.key;
    value = i.value;
    valid_from = script.start_time;
    valid_to = none;
    source = text "fixture";
  }

  initial_deployment : Text × Service → Deployment
  unfolding make_id
  initial_deployment (name, s) = record {
    deploy_id = make_id uuid5 script (text "deploy") (s.name ++ text ":initial");
    service = s.name;
    version = s.current_version;
    action = text "deploy";
    deployed_at = script.start_time;
    rolled_back = false;
  }

  unfoldable pub load_world : Fixture → WorldState
  unfolding service_of dependency_of slo_of config_of initial_deployment put
  load_world f =
      let services = fill (λ (i : ServiceItem). i.name) service_of f.services [] in
      record {
        now = script.start_time;
        services = services;
        dependencies =
            fill (λ (i : DependencyItem). i.dependency_key) dependency_of f.dependencies [];
        slos =
            fill (λ (i : SloItem). record { service = i.service; kind = i.kind }) slo_of f.slos [];
        configs = map config_of f.configs;
        deployments = map initial_deployment services;
        alerts = [];
        incidents = [];
        orders = [];
        actions = [];
      }

  unfoldable pub new_conductor : Fixture → Conductor
  unfolding load_world
  new_conductor f = record { next_scenario = 0; state = load_world f }
