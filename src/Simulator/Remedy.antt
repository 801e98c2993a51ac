-- ===== src/Simulator/Remedy.antt =====
-- What the actions of a responder change in the world (`_mutate_action`, `_matches` and `_oracle_for`
-- of simulator/postmortem_sim/conductor.py). Python's `==` of two values, for which `1`, `True` and
-- `1.0` are equal, is a parameter.
use ckdb_aws.Action.{Action, demand, found, gets, modify, raise, return, ◌>>=◌}
use ckdb_aws.Base.{
  Bool, List, Option, Result, [], any, err, false, if◌then◌else◌, leb, length, nat_eq, none, ok,
  some, string_eq, true, ℕ, ◌&&◌, ◌++◌, ◌+◌, ◌==◌, ◌||◌, ◌∷◌,
}
use ckdb_aws.Base.Dict.{Dict, get, put}
use ckdb_aws.Domain.{
  Error, Fields, Items, Text, Value, bool, datetime, decimal, dict, end, field, float, int, item,
  key_error, list, lookup, nil, null, simulation_error, str, text, text_eq, tuple, type_error, uuid,
}
use ckdb_aws.Simulator.Conductor.{Policy, RequiredAction, Script, make_id, set_config}
use ckdb_aws.Simulator.Models.{Dependency, Deployment, Incident, Service, WorldState, slo_key_eq}
use ckdb_aws.Store.Remediate.{action_type}

-- An `isinstance(value, int)`, which `True` and `False` are too.
abbrev pub as_int : Option Value → Option ℕ
as_int none = none
as_int (some (int n)) = some n
as_int (some (bool true)) = some 1
as_int (some (bool false)) = some 0
as_int (some v) = none

abbrev pub as_text : Option Value → Option Text
as_text none = none
as_text (some (str t)) = some t
as_text (some v) = none

-- Whether a value can be a key of a dictionary.
mutual
  hashable : Value → Bool
  hashable (tuple xs) = all_hashable xs
  hashable (list xs) = false
  hashable (dict fs) = false
  hashable null = true
  hashable (bool b) = true
  hashable (int n) = true
  hashable (float f) = true
  hashable (str t) = true
  hashable (uuid u) = true
  hashable (datetime d) = true

  all_hashable : Items → Bool
  all_hashable nil = true
  all_hashable (item v xs) = hashable v && all_hashable xs

-- `params.get(name)` as a key of `d`: the value found, a failed membership test, or the
-- `TypeError` of a value that cannot be a key.
unfoldable pub member : {V : Type 0} → Option Value → Dict Text V → Result Error (Text × V)
unfolding hashable get
member none d = err simulation_error
member (some v) d =
    if hashable v
    then (elim (as_text (some v)) [
      | none ↦ err simulation_error
      | some k ↦ elim (get k d) [ none ↦ err simulation_error | some x ↦ ok (k, x) ]
    ])
    else err type_error

-- `deployment.rolled_back = True` for the last deployment of the service at its version
unfoldable pub mark_rolled_back : (service version : Text) → List Deployment → List Deployment
mark_rolled_back service version [] = []
mark_rolled_back service version (d ∷ ds) =
    let matches = λ (x : Deployment). x.service == service && x.version == version in
    let rest = mark_rolled_back service version ds in
    if any matches ds
    then d ∷ rest
    else if matches d
    then record d { rolled_back = true } ∷ ds
    else d ∷ ds

abbrev incident_service : Text
incident_service = text "$incident.service"

abbrev previous_version : Text
previous_version = text "$incident.previous_stable_version"

abbrev text_or_null : Option Text → Value
text_or_null none = null
text_or_null (some t) = str t

abbrev pub value_or_null : Option Value → Value
value_or_null none = null
value_or_null (some v) = v

-- What an oracle's parameter stands for.
abbrev expected_value : Service → Value → Value
expected_value service (str t) =
    if t == previous_version then text_or_null service.previous_stable_version else str t
expected_value service v = v

module _ (script : Script) where
  -- `_oracle_for`: the default of `get` is looked up first, so the family has to be there.
  unfoldable pub oracle_for : Incident → Result Error Policy
  unfolding get
  oracle_for incident = elim (get incident.family_id script.oracle) [
    | none ↦ err key_error
    | some by_family ↦ elim (get incident.scenario_id script.scenario_oracle) [
      | none ↦ ok by_family
      | some by_scenario ↦ ok by_scenario
    ]
  ]

module _ (same : Value → Value → Bool) where
  params_match : Service → (expected params : Fields) → Bool
  params_match service end params = true
  params_match service (field key v rest) params =
      same (value_or_null (lookup key params)) (expected_value service v)
      && params_match service rest params

  -- `_matches`
  unfoldable pub matches_action :
      RequiredAction
      → Incident
      → (action_type target_service : Text) → (params : Fields) → WorldState
      → Result Error Bool
  unfolding params_match get
  matches_action expected incident action_type target_service params w =
      let target =
        if expected.target_service == incident_service
        then incident.service
        else expected.target_service in
      if expected.action_type == action_type && target == target_service
      then (elim (get incident.service w.services) [
        | none ↦ err key_error
        | some service ↦ ok (params_match service expected.params params)
      ])
      else ok false

module _ (uuid5 : Text → Text) (script : Script) where
  unfoldable pub roll_back : (target_service version : Text) → Service → WorldState → WorldState
  unfolding mark_rolled_back make_id put
  roll_back target_service version service w = record w {
    services = put target_service (record service { current_version = version }) w.services;
    deployments =
        mark_rolled_back target_service service.current_version w.deployments
        ++ record {
          deploy_id = make_id uuid5 script (text "deploy") (
              text "rollback:" ++ (target_service ++ (text ":" ++ decimal (length w.deployments))));
          service = target_service;
          version = version;
          action = text "rollback";
          deployed_at = w.now;
          rolled_back = false;
        }
          ∷ [];
  }

  unfoldable pub move_dependency : (key to_service : Text) → Dependency → WorldState → WorldState
  unfolding put
  move_dependency key to_service dependency w =
      let moved = record dependency { to_service = to_service; status = text "active" } in
      record w { dependencies = put key moved w.dependencies }

  unfoldable pub put_service : (name : Text) → Service → WorldState → WorldState
  unfolding put
  put_service name service w = record w { services = put name service w.services }

  unfoldable pub roll_back_deploy :
      (target_service : Text) → Service → Fields → Action WorldState (Unit {0})
  unfolding roll_back
  roll_back_deploy target_service service params = do
    version ← demand simulation_error (as_text (lookup (text "target_version") params))
    modify (roll_back target_service version service)

  unfoldable pub reconfigure : (target_service : Text) → Fields → Action WorldState (Unit {0})
  unfolding set_config
  reconfigure target_service params = do
    key ← demand simulation_error (as_text (lookup (text "key") params))
    value ← demand simulation_error (lookup (text "value") params)
    set_config uuid5 script target_service key value (text "remediation")

  unfoldable pub fail_over_dependency : Fields → Action WorldState (Unit {0})
  unfolding member move_dependency
  fail_over_dependency params = do
    dependency ←
        λ (w : WorldState). (member (lookup (text "dependency_key") params) w.dependencies, w)
    destination ← λ (w : WorldState). (member (lookup (text "to_service") params) w.services, w)
    modify (move_dependency dependency.0 destination.0 dependency.1)

  unfoldable pub scale_service :
      (target_service : Text) → Service → Fields → Action WorldState (Unit {0})
  unfolding put_service
  scale_service target_service service params = do
    units ← demand simulation_error (as_int (lookup (text "capacity_units") params))
    if units == 0
        then raise simulation_error
        else modify (put_service target_service (record service { capacity_units = units }))

  unfoldable pub throttle_traffic : (target_service : Text) → Fields → Action WorldState (Unit {0})
  unfolding set_config
  throttle_traffic target_service params = do
    percent ← demand simulation_error (as_int (lookup (text "traffic_percent") params))
    if leb 1 percent && leb percent 100
        then set_config uuid5 script target_service (text "traffic_limit_percent")
            (value_or_null (lookup (text "traffic_percent") params)) (text "remediation")
        else raise simulation_error

  -- The branches of `_mutate_action`: in each, every check comes before the first write.
  unfoldable pub mutation :
      (action_type target_service : Text) → Service → Fields → Action WorldState (Unit {0})
  unfolding roll_back_deploy reconfigure fail_over_dependency scale_service throttle_traffic
      put_service
  mutation action_type target_service service params =
      if action_type == text "rollback_deploy"
      then roll_back_deploy target_service service params
      else if action_type == text "set_config"
      then reconfigure target_service params
      else if action_type == text "restart_service"
      then modify (
          put_service target_service (record service { restart_count = service.restart_count + 1 }))
      else if action_type == text "failover_dependency"
      then fail_over_dependency params
      else if action_type == text "scale_service"
      then scale_service target_service service params
      else if action_type == text "throttle_traffic"
      then throttle_traffic target_service params
      else if action_type == text "no_op_page_human" || action_type == text "escalate"
      then return tt
      else raise simulation_error

  unfoldable pub mutate_action :
      (action_type target_service : Text) → (params : Fields) → Action WorldState (Unit {0})
  unfolding mutation get
  mutate_action action_type target_service params = do
    held ← gets (λ (w : WorldState). get target_service w.services)
    service ← found held
    mutation action_type target_service service params
