-- ===== src/Simulator/Models.antt =====
-- The world of simulator/postmortem_sim/models.py. A time is its microseconds since 1970.
use ckdb_aws.Base.{
  Bool, Eq, List, Option, arith, false, get_last?, none, select, some, true, ℕ, ◌&&◌, ◌==◌, ◌↔◌,
  ◌≡◌,
}
use ckdb_aws.Base.Dict.{Dict}
use ckdb_aws.Domain.{Fields, Float, Text, Value, text_beq, text_beq_iff, text_eq}

pub data Health : Type 0 where
  healthy degraded down recovering : Health

pub data IncidentStatus : Type 0 where
  open_incident mitigating resolved : IncidentStatus

pub data SloStatus : Type 0 where
  healthy breaching : SloStatus

pub record Service : Type 0 where
  pub service_id : Text
  pub name : Text
  pub tier : Text
  pub owner_team : Text
  pub health : Health
  pub current_version : Text
  pub previous_stable_version : Option Text
  pub capacity_units : ℕ
  pub restart_count : ℕ

pub record Dependency : Type 0 where
  pub dependency_id : Text
  pub dependency_key : Text
  pub from_service : Text
  pub to_service : Text
  pub dependency_type : Text
  pub criticality : Text
  pub status : Text

pub record Slo : Type 0 where
  pub slo_id : Text
  pub service : Text
  pub kind : Text
  pub threshold : Float
  pub window_seconds : ℕ
  pub current_value : Float
  pub burn_rate : Float
  pub status : SloStatus

pub record ConfigRevision : Type 0 where
  pub config_id : Text
  pub service : Text
  pub key : Text
  pub value : Value
  pub valid_from : ℕ
  pub valid_to : Option ℕ
  pub source : Text

pub record Deployment : Type 0 where
  pub deploy_id : Text
  pub service : Text
  pub version : Text
  pub action : Text
  pub deployed_at : ℕ
  pub rolled_back : Bool

pub record Alert : Type 0 where
  pub alert_id : Text
  pub incident_id : Text
  pub service : Text
  pub slo_kind : Text
  pub signal : Text
  pub fired_at : ℕ
  pub cleared_at : Option ℕ

pub record Incident : Type 0 where
  pub incident_id : Text
  pub scenario_id : Text
  pub title : Text
  pub service : Text
  pub severity : Text
  pub family_id : Text
  pub variant_id : Text
  pub status : IncidentStatus
  pub opened_at : ℕ
  pub resolved_at : Option ℕ
  pub mttr_seconds : Option ℕ
  pub oracle_step : ℕ

pub record IncidentObservation : Type 0 where
  pub incident_id : Text
  pub title : Text
  pub service : Text
  pub severity : Text
  pub signal : Text
  pub slo_kind : Text
  pub slo_current_value : Float
  pub slo_threshold : Float
  pub current_version : Text
  pub previous_stable_version : Option Text
  pub observed_at : ℕ

pub record Order : Type 0 where
  pub order_id : Text
  pub incident_id : Text
  pub status : Text
  pub amount_cents : ℕ
  pub error_code : Option Text
  pub created_at : ℕ

pub record RemediationAction : Type 0 where
  pub action_id : Text
  pub incident_id : Text
  pub action_type : Text
  pub target_service : Text
  pub params : Fields
  pub applied_at : ℕ
  pub applied_by : Text
  pub outcome : Text
  pub memory_ref : Option Text

-- The key `(service, kind)` of an SLO.
pub record SloKey : Type 0 where
  pub service : Text
  pub kind : Text

abbrev slo_key_beq : SloKey → SloKey → Bool
slo_key_beq a b = text_beq a.service b.service && text_beq a.kind b.kind

pub slo_key_beq_iff : (a b : SloKey) → (slo_key_beq a b ≡ true) ↔ (a ≡ b)
slo_key_beq_iff a b = ground (arith, text_beq_iff a.service b.service, text_beq_iff a.kind b.kind)

instance abbrev pub slo_key_eq : Eq SloKey
slo_key_eq = record { equal = slo_key_beq; equal_iff = slo_key_beq_iff }

pub record WorldState : Type 0 where
  pub now : ℕ
  pub services : Dict Text Service
  pub dependencies : Dict Text Dependency
  pub slos : Dict SloKey Slo
  pub configs : List ConfigRevision
  pub deployments : List Deployment
  pub alerts : Dict Text Alert
  pub incidents : Dict Text Incident
  pub orders : List Order
  pub actions : List RemediationAction

abbrev pub of_key : (service key : Text) → ConfigRevision → Bool
of_key service key r = r.service == service && r.key == key

abbrev pub is_open : ConfigRevision → Bool
is_open r = elim r.valid_to [ none ↦ true | some _ ↦ false ]

abbrev pub current : (service key : Text) → ConfigRevision → Bool
current service key r = of_key service key r && is_open r

-- `WorldState.current_config`: the last open revision
unfoldable pub current_config : (service key : Text) → List ConfigRevision → Option ConfigRevision
current_config service key configs = get_last? (select (current service key) configs)
