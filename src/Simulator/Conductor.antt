-- ===== src/Simulator/Conductor.antt =====
-- What the conductor of simulator/postmortem_sim/conductor.py is made of: its script, the values
-- of an attribute that no operation changes, and the parts that its operations share. The rows of
-- a fixture are typed: `Fault` has a field for each name that the code looks up in the dictionary.
-- `str(uuid5(ID_NAMESPACE, ·))` is a parameter.
use ckdb_aws.Action.{Action, found, gets, modify, ◌>>=◌}
use ckdb_aws.Base.{
  Bool, List, Option, [], any, if◌then◌else◌, length, nat_eq, none, some, string_eq, suc, zero, ℕ,
  ◌%◌, ◌*◌, ◌++◌, ◌+◌, ◌∷◌,
}
use ckdb_aws.Base.Dict.{Dict, get, put}
use ckdb_aws.Domain.{Fields, Float, Text, Value, decimal, double, text, text_eq}
use ckdb_aws.Simulator.Models.{
  ConfigRevision, Health, Incident, Order, WorldState, current, slo_key_eq,
}

pub record Fault : Type 0 where
  pub bad_version : Option Text
  pub dependency_key : Option Text
  pub failed_service : Option Text
  pub key : Option Text
  pub bad_value : Option Value
  pub error_rate : Option Float
  pub p99_ms : Option Float
  pub availability : Option Float
  pub utilization : Option Float
  pub memory_utilization : Option Float
  pub burn_rate : Option Float
  pub near_miss : Bool
  pub environment_migrated : Bool

pub record Scenario : Type 0 where
  pub scenario_id : Text
  pub title : Text
  pub target_service : Text
  pub severity : Text
  pub family_id : Text
  pub variant_id : Text
  pub inject_at_seconds : ℕ
  pub failed_orders : ℕ
  pub fault : Fault

-- A step of an oracle's policy.
pub record RequiredAction : Type 0 where
  pub action_type : Text
  pub target_service : Text
  pub params : Fields

pub record Policy : Type 0 where
  pub required_actions : List RequiredAction
  pub action_seconds : ℕ
  pub wrong_action_penalty_seconds : ℕ

-- The attributes that `Conductor.__init__` sets once, its scenarios in the order of injection.
pub record Script : Type 0 where
  pub seed : ℕ
  pub start_time : ℕ
  pub scenarios : List Scenario
  pub oracle : Dict Text Policy
  pub scenario_oracle : Dict Text Policy

pub record Conductor : Type 0 where
  pub next_scenario : ℕ
  pub state : WorldState

abbrev pub seconds : ℕ → ℕ
seconds n = n * 1000000

-- 8.0, 0.9995 and 0.0
abbrev pub default_burn_rate : Float
default_burn_rate = double 4620693217682128896

abbrev pub restored_availability : Float
restored_availability = double 4607177915200390038

abbrev pub zero_float : Float
zero_float = double 0

abbrev pub or_float : Option Float → Float → Float
or_float none d = d
or_float (some f) d = f

-- `old.valid_to = now` for the revision that `current_config` finds
unfoldable pub close_current :
    (service key : Text) → (now : ℕ) → List ConfigRevision → List ConfigRevision
close_current service key now [] = []
close_current service key now (r ∷ rs) =
    let rest = close_current service key now rs in
    if any (current service key) rs
    then r ∷ rest
    else if current service key r
    then record r { valid_to = some now } ∷ rs
    else r ∷ rs

module _ (uuid5 : Text → Text) (script : Script) where
  unfoldable pub make_id : (kind key : Text) → Text
  unfolding decimal
  make_id kind key = uuid5 (decimal script.seed ++ (text ":" ++ (kind ++ (text ":" ++ key))))

  unfoldable pub new_revision :
      (service key : Text) → Value → (source : Text) → (now placed : ℕ) → ConfigRevision
  unfolding make_id
  new_revision service key value source now placed = record {
    config_id =
        make_id (text "config") (service ++ (text ":" ++ (key ++ (text ":" ++ decimal placed))));
    service = service;
    key = key;
    value = value;
    valid_from = now;
    valid_to = none;
    source = source;
  }

  -- `_set_config`
  unfoldable pub revised : (service key : Text) → Value → (source : Text) → WorldState → WorldState
  unfolding new_revision close_current
  revised service key value source w = record w {
    configs =
        close_current service key w.now w.configs
        ++ new_revision service key value source w.now (length w.configs) ∷ [];
  }

  unfoldable pub set_config :
      (service key : Text) → Value → (source : Text) → Action WorldState (Unit {0})
  unfolding revised
  set_config service key value source = modify (revised service key value source)

  failed_order : Incident → (index placed : ℕ) → (error_code : Text) → (now : ℕ) → Order
  unfolding make_id
  failed_order incident index placed error_code now = record {
    order_id =
        make_id (text "order")
          (incident.scenario_id ++ (text ":" ++ (decimal placed ++ (text ":" ++ decimal index))));
    incident_id = incident.incident_id;
    status = text "failed";
    amount_cents = 1500 + ((script.seed + index * 7919) % 8500);
    error_code = some error_code;
    created_at = now + seconds index;
  }

  -- `_add_failed_orders` from `index` on
  unfoldable pub failed_orders_from :
      Incident → (index count : ℕ) → (error_code : Text) → (now : ℕ) → List Order → List Order
  unfolding failed_order
  failed_orders_from incident index zero error_code now orders = orders
  failed_orders_from incident index (suc count) error_code now orders =
      failed_orders_from incident (index + 1) count error_code now
        (orders ++ failed_order incident index (length orders) error_code now ∷ [])

  unfoldable pub add_failed_orders :
      Incident → (count : ℕ) → (error_code : Text) → Action WorldState (Unit {0})
  unfolding failed_orders_from
  add_failed_orders incident count error_code =
      modify
        (λ w. record w { orders = failed_orders_from incident 0 count error_code w.now w.orders })

-- `self.state.services[name].health = health`
unfoldable pub set_health : (name : Text) → Health → Action WorldState (Unit {0})
unfolding get put
set_health name health = do
  service ← gets (λ w. get name w.services)
  s ← found service
  modify (λ w. record w { services = put name (record s { health = health }) w.services })
