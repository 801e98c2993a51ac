-- ===== src/Simulator/Families.antt =====
-- The incident families of simulator/postmortem_sim/conductor.py that move dependencies, load or
-- settings, the dispatch on the family, and the schedule.
use ckdb_aws.Action.{Action, found, gets, modify, raise, return, ◌>>=◌, ◌>>◌}
use ckdb_aws.Base.{
  Bool, Option, Result, err, false, get_elem?, if◌then◌else◌, length, max, nat_eq, none, some,
  string_eq, true, ℕ, ◌++◌, ◌+◌, ◌-◌, ◌==◌,
}
use ckdb_aws.Base.Dict.{get, put}
use ckdb_aws.Domain.{Error, Text, Value, simulation_error, str, text, text_eq}
use ckdb_aws.Simulator.Conductor.{Conductor, Scenario, Script, seconds, set_config, set_health}
use ckdb_aws.Simulator.Inject.{inject_bad_deploy, inject_pool_exhaustion, opened}
use ckdb_aws.Simulator.Models.{Incident, WorldState, degraded, down, slo_key_eq}

module _ (uuid5 : Text → Text) (script : Script) where
  -- A dependency is moved to the failed service of the fault, which goes down.
  unfoldable pub fail_dependency :
      (key : Text) → (to_service : Option Text) → Action WorldState Text
  unfolding set_health get put
  fail_dependency key to_service = do
    held ← gets (λ (w : WorldState). get key w.dependencies)
    dependency ← found held
    lost ← found to_service
    let moved = record dependency { to_service = lost; status = text "degraded" }
    modify (λ w. record w { dependencies = put key moved w.dependencies })
    set_health lost down
    return lost

  unfoldable pub fail_over : Scenario → Action WorldState Text
  unfolding fail_dependency set_health
  fail_over scenario = do
    key ← found scenario.fault.dependency_key
    lost ← fail_dependency key scenario.fault.failed_service
    set_health scenario.target_service degraded
    return lost

  unfoldable pub inject_cache_outage : Scenario → Action WorldState Incident
  unfolding fail_over opened
  inject_cache_outage scenario = do
    lost ← fail_over scenario
    opened uuid5 script scenario (text "availability") scenario.fault.availability
        (text "cache timeout cascade through " ++ lost) (text "CACHE_TIMEOUT")

  unfoldable pub inject_traffic_saturation : Scenario → Action WorldState Incident
  unfolding set_health opened
  inject_traffic_saturation scenario = do
    set_health scenario.target_service degraded
    opened uuid5 script scenario (text "saturation") scenario.fault.utilization
        (text "traffic spike saturated CPU; checkout latency rising") (text "SERVICE_SATURATED")

  unfoldable pub inject_retry_storm : Scenario → Action WorldState Incident
  unfolding set_health opened
  inject_retry_storm scenario = do
    set_health scenario.target_service degraded
    opened uuid5 script scenario (text "latency") scenario.fault.p99_ms
        (text "retry storm amplified request rate after an upstream blip") (text "RETRY_STORM")

  unfoldable pub inject_memory_leak : Scenario → Action WorldState Incident
  unfolding set_health opened
  inject_memory_leak scenario = do
    set_health scenario.target_service degraded
    opened uuid5 script scenario (text "saturation") scenario.fault.memory_utilization
        (text "gradual memory leak reached OOM pressure and process crashes")
        (text "MEMORY_PRESSURE")

  unfoldable pub inject_config_regression : Scenario → Action WorldState Incident
  unfolding set_config set_health opened
  inject_config_regression scenario = do
    key ← found scenario.fault.key
    value ← found scenario.fault.bad_value
    set_config uuid5 script scenario.target_service key value (text "fault")
    set_health scenario.target_service degraded
    opened uuid5 script scenario (text "error_rate") scenario.fault.error_rate
        (text "error spike followed config flag " ++ (key ++ text " change"))
        (text "CONFIG_REGRESSION")

  unfoldable pub inject_datastore_failover : Scenario → Action WorldState Incident
  unfolding fail_over opened
  inject_datastore_failover scenario = do
    lost ← fail_over scenario
    opened uuid5 script scenario (text "availability") scenario.fault.availability
        (text "orders datastore primary unavailable; checkout writes failing")
        (text "DATASTORE_UNAVAILABLE")

  unfoldable pub inject_payment_provider_outage : Scenario → Action WorldState Incident
  unfolding fail_over opened
  inject_payment_provider_outage scenario = do
    lost ← fail_over scenario
    opened uuid5 script scenario (text "availability") scenario.fault.availability
        (text "upstream payment provider auth failures are blocking checkout")
        (text "PAYMENT_PROVIDER_DOWN")

  unfoldable pub inject_novel : Scenario → Action WorldState Incident
  unfolding set_health opened
  inject_novel scenario = do
    set_health scenario.target_service degraded
    opened uuid5 script scenario (text "latency") scenario.fault.p99_ms
        (text "ambiguous clock-skew signature with no known causal pattern")
        (text "UNKNOWN_FAILURE")

  unfoldable pub set_config_if :
      Bool → (service key : Text) → Value → (source : Text) → Action WorldState (Unit {0})
  unfolding set_config
  set_config_if false service key value source = return tt
  set_config_if true service key value source = set_config uuid5 script service key value source

  unfoldable pub inject_pool_driver_migration : Scenario → Action WorldState Incident
  unfolding set_health set_config_if opened get
  inject_pool_driver_migration scenario = do
    set_health scenario.target_service degraded
    held ← gets (λ (w : WorldState). get scenario.target_service w.services)
    service ← found held
    set_config_if scenario.fault.environment_migrated service.name (text "pool_driver")
        (str (text "multiplexed")) (text "platform_migration")
    opened uuid5 script scenario (text "latency") scenario.fault.p99_ms
        (text "database too many connections; p99 latency breached") (text "DB_POOL_EXHAUSTED")

  -- The target that the migration sanctions, and the replica that it takes down.
  unfoldable pub migrate_cache : Bool → (service : Text) → Action WorldState (Unit {0})
  unfolding set_config set_health
  migrate_cache false service = return tt
  migrate_cache true service = do
    set_config uuid5 script service (text "cache_failover_target")
        (str (text "cache-managed-primary")) (text "platform_migration")
    set_health (text "cache-onprem-replica") down

  unfoldable pub inject_cache_topology_migration : Scenario → Action WorldState Incident
  unfolding migrate_cache fail_dependency set_health opened get
  inject_cache_topology_migration scenario = do
    key ← found scenario.fault.dependency_key
    at_key ← gets (λ (w : WorldState). get key w.dependencies)
    dependency ← found at_key
    held ← gets (λ (w : WorldState). get scenario.target_service w.services)
    service ← found held
    migrate_cache scenario.fault.environment_migrated service.name
    lost ← fail_dependency key scenario.fault.failed_service
    set_health scenario.target_service degraded
    opened uuid5 script scenario (text "availability") scenario.fault.availability
        (text "cache timeout cascade through " ++ lost) (text "CACHE_TIMEOUT")

  -- The chain of `if family == ...` of `inject_next`
  unfoldable pub inject_family : (family : Text) → Scenario → Action WorldState Incident
  unfolding inject_bad_deploy inject_pool_exhaustion inject_cache_outage inject_traffic_saturation
      inject_retry_storm inject_memory_leak inject_config_regression inject_datastore_failover
      inject_payment_provider_outage inject_novel inject_pool_driver_migration
      inject_cache_topology_migration
  inject_family family scenario =
      if family == text "F1_BAD_DEPLOY"
      then inject_bad_deploy uuid5 script scenario
      else if family == text "F2_POOL_EXHAUSTION"
      then inject_pool_exhaustion uuid5 script scenario
      else if family == text "F3_CACHE_OUTAGE"
      then inject_cache_outage scenario
      else if family == text "F4_TRAFFIC_SATURATION"
      then inject_traffic_saturation scenario
      else if family == text "F5_RETRY_STORM"
      then inject_retry_storm scenario
      else if family == text "F6_MEMORY_LEAK"
      then inject_memory_leak scenario
      else if family == text "F7_CONFIG_REGRESSION"
      then inject_config_regression scenario
      else if family == text "F8_DATASTORE_FAILOVER"
      then inject_datastore_failover scenario
      else if family == text "F9_PAYMENT_PROVIDER_OUTAGE"
      then inject_payment_provider_outage scenario
      else if family == text "F10_NOVEL"
      then inject_novel scenario
      else if family == text "F11_POOL_DRIVER_MIGRATION"
      then inject_pool_driver_migration scenario
      else if family == text "F12_CACHE_TOPOLOGY_MIGRATION"
      then inject_cache_topology_migration scenario
      else raise simulation_error

  -- `remaining_scenarios`
  abbrev pub remaining_scenarios : Conductor → ℕ
  remaining_scenarios c = length script.scenarios - c.next_scenario

  unfoldable pub injected : Scenario → WorldState → Result Error Incident × WorldState
  unfolding inject_family
  injected scenario w =
      inject_family scenario.family_id scenario
        (record w { now = max w.now (script.start_time + seconds scenario.inject_at_seconds) })

  unfoldable pub inject_next : Action Conductor Incident
  unfolding injected
  inject_next c = elim (get_elem? script.scenarios c.next_scenario) [
    | none ↦ (err simulation_error, c)
    | some scenario ↦ (
      (injected scenario c.state).0,
      record c { next_scenario = c.next_scenario + 1; state = (injected scenario c.state).1 },
    )
  ]
