-- ===== src/Simulator/Keeping.antt =====
-- The injections of simulator/postmortem_sim/conductor.py keep every invariant.
use ckdb_aws.Action.{Action, ◌>>=◌}
use ckdb_aws.Base.{Bool, Option, false, none, refl, some, true, ℕ}
use ckdb_aws.Domain.{Float, Text, Value}
use ckdb_aws.Simulator.Conductor.{Scenario, Script, set_config, set_health}
use ckdb_aws.Simulator.Families.{
  fail_dependency, fail_over, inject_cache_outage, inject_cache_topology_migration,
  inject_config_regression, inject_datastore_failover, inject_family, inject_memory_leak,
  inject_novel, inject_payment_provider_outage, inject_pool_driver_migration, inject_retry_storm,
  inject_traffic_saturation, migrate_cache, set_config_if,
}
use ckdb_aws.Simulator.Framed.{add_failed_orders-Frame, set_config-Frame, set_health-Frame}
use ckdb_aws.Simulator.Inject.{
  inject_bad_deploy, inject_pool_exhaustion, new_incident, open_incident_for, opened, raise_alert,
  when_set,
}
use ckdb_aws.Simulator.Kept.{
  Fresh, Invariant, Keeps, Keeps->>=, Keeps-demand, Keeps-if, Keeps-modify, Keeps-read,
}
use ckdb_aws.Simulator.Models.{
  ConfigRevision, Health, Incident, WorldState, degraded, down, slo_key_eq,
}

module _ (uuid5 : Text → Text) (script : Script) {P : WorldState → Type 0}
    (inv : Invariant uuid5 script P) where
  set_health-Keeps : (name : Text) (to : Health) → Keeps P (set_health name to)
  set_health-Keeps = set_health-Frame inv.frame.framed

  set_config-Keeps :
      (service key : Text) (value : Value) (source : Text)
      → Keeps P (set_config uuid5 script service key value source)
  set_config-Keeps = set_config-Frame uuid5 script inv.frame

  raise_alert-Keeps :
      (s : Scenario) (i : Incident) (slo_kind : Text) (value : Float) (signal code : Text) (now : ℕ)
      → Keeps P (raise_alert uuid5 script s i slo_kind value signal code now)
  unfolding raise_alert
  raise_alert-Keeps s i slo_kind value signal code now = Keeps->>= (Keeps-read _) λ held.
      Keeps->>= (Keeps-demand _ held) λ slo.
        Keeps->>= (Keeps-modify λ w h. inv.frame.framed w _ refl refl refl h) λ _.
          Keeps->>= (Keeps-modify λ w h. inv.frame.framed w _ refl refl refl h) λ _.
            Keeps->>= (add_failed_orders-Frame uuid5 script inv.frame i s.failed_orders code)
              λ _. Keeps-read _

  open_incident_for-Keeps :
      (s : Scenario) (slo_kind : Text) (value : Float) (signal code : Text)
      → Keeps P (open_incident_for uuid5 script s slo_kind value signal code)
  unfolding open_incident_for new_incident ◌>>=◌
  open_incident_for-Keeps s slo_kind value signal code = record {
    run = λ w h.
        let i = new_incident uuid5 script s w.now in
        let new : Fresh w.now i = record {
          status_open = refl;
          opened_now = refl;
          no_step = refl;
          unresolved = refl;
          untimed = refl;
        } in
        (raise_alert-Keeps s i slo_kind value signal code w.now).run _ (inv.on_opened i w new h);
  }

  opened-Keeps :
      (s : Scenario) (slo_kind : Text) (value : Option Float) (signal code : Text)
      → Keeps P (opened uuid5 script s slo_kind value signal code)
  unfolding opened
  opened-Keeps s slo_kind value signal code =
      Keeps->>= (Keeps-demand _ value) λ v. open_incident_for-Keeps s slo_kind v signal code

  fail_dependency-Keeps :
      (key : Text) (to : Option Text) → Keeps P (fail_dependency uuid5 script key to)
  unfolding fail_dependency
  fail_dependency-Keeps key to = Keeps->>= (Keeps-read _) λ held.
      Keeps->>= (Keeps-demand _ held) λ d. Keeps->>= (Keeps-demand _ to) λ lost.
        Keeps->>= (Keeps-modify λ w h. inv.frame.framed w _ refl refl refl h)
          λ _. Keeps->>= (set_health-Keeps lost down) λ _. Keeps-read _

  ruleset calls = (
    set_health-Keeps, set_config-Keeps, opened-Keeps, fail_dependency-Keeps, Keeps->>=,
    Keeps-demand, Keeps-read,
  )

  fail_over-Keeps : (s : Scenario) → Keeps P (fail_over uuid5 script s)
  unfolding fail_over
  fail_over-Keeps s = search calls

  set_config_if-Keeps :
      (b : Bool) (service key : Text) (value : Value) (source : Text)
      → Keeps P (set_config_if uuid5 script b service key value source)
  unfolding set_config_if
  set_config_if-Keeps false service key value source = Keeps-read _
  set_config_if-Keeps true service key value source = set_config-Keeps service key value source

  migrate_cache-Keeps : (b : Bool) (service : Text) → Keeps P (migrate_cache uuid5 script b service)
  unfolding migrate_cache
  migrate_cache-Keeps false service = Keeps-read _
  migrate_cache-Keeps true service = search calls

  inject_bad_deploy-Keeps : (s : Scenario) → Keeps P (inject_bad_deploy uuid5 script s)
  unfolding inject_bad_deploy
  inject_bad_deploy-Keeps s = Keeps->>= (Keeps-read _) λ held.
      Keeps->>= (Keeps-demand _ held) λ service.
        Keeps->>= (Keeps-modify λ w h. inv.frame.framed w _ refl refl refl h) λ _.
          Keeps->>= (Keeps-demand _ s.fault.bad_version) λ version.
            Keeps->>= (Keeps-modify λ w h. inv.frame.framed w _ refl refl refl h) λ _.
              Keeps->>= (Keeps-modify λ w h. inv.frame.framed w _ refl refl refl h)
                λ _. opened-Keeps s _ _ _ _

  when_set-Keeps :
      (c : Option ConfigRevision) {m : Action WorldState Incident}
      → Keeps P m
      → Keeps P (when_set uuid5 script c m)
  unfolding when_set
  when_set-Keeps none k = Keeps-read _
  when_set-Keeps (some c) k = k

  inject_pool_exhaustion-Keeps : (s : Scenario) → Keeps P (inject_pool_exhaustion uuid5 script s)
  unfolding inject_pool_exhaustion
  inject_pool_exhaustion-Keeps s = Keeps->>= (set_health-Keeps s.target_service degraded) λ _.
      Keeps->>= (Keeps-read _) λ held. Keeps->>= (Keeps-demand _ held) λ service.
        Keeps->>= (Keeps-read _) λ config.
          Keeps-if s.fault.near_miss (opened-Keeps s _ _ _ _)
            (when_set-Keeps config (opened-Keeps s _ _ _ _))

  inject_cache_outage-Keeps : (s : Scenario) → Keeps P (inject_cache_outage uuid5 script s)
  unfolding inject_cache_outage
  inject_cache_outage-Keeps s =
      search (calls, fail_over-Keeps, set_config_if-Keeps, migrate_cache-Keeps)

  inject_traffic_saturation-Keeps :
      (s : Scenario) → Keeps P (inject_traffic_saturation uuid5 script s)
  unfolding inject_traffic_saturation
  inject_traffic_saturation-Keeps s =
      search (calls, fail_over-Keeps, set_config_if-Keeps, migrate_cache-Keeps)

  inject_retry_storm-Keeps : (s : Scenario) → Keeps P (inject_retry_storm uuid5 script s)
  unfolding inject_retry_storm
  inject_retry_storm-Keeps s =
      search (calls, fail_over-Keeps, set_config_if-Keeps, migrate_cache-Keeps)

  inject_memory_leak-Keeps : (s : Scenario) → Keeps P (inject_memory_leak uuid5 script s)
  unfolding inject_memory_leak
  inject_memory_leak-Keeps s =
      search (calls, fail_over-Keeps, set_config_if-Keeps, migrate_cache-Keeps)

  inject_config_regression-Keeps :
      (s : Scenario) → Keeps P (inject_config_regression uuid5 script s)
  unfolding inject_config_regression
  inject_config_regression-Keeps s =
      search (calls, fail_over-Keeps, set_config_if-Keeps, migrate_cache-Keeps)

  inject_datastore_failover-Keeps :
      (s : Scenario) → Keeps P (inject_datastore_failover uuid5 script s)
  unfolding inject_datastore_failover
  inject_datastore_failover-Keeps s =
      search (calls, fail_over-Keeps, set_config_if-Keeps, migrate_cache-Keeps)

  inject_payment_provider_outage-Keeps :
      (s : Scenario) → Keeps P (inject_payment_provider_outage uuid5 script s)
  unfolding inject_payment_provider_outage
  inject_payment_provider_outage-Keeps s =
      search (calls, fail_over-Keeps, set_config_if-Keeps, migrate_cache-Keeps)

  inject_novel-Keeps : (s : Scenario) → Keeps P (inject_novel uuid5 script s)
  unfolding inject_novel
  inject_novel-Keeps s = search (calls, fail_over-Keeps, set_config_if-Keeps, migrate_cache-Keeps)

  inject_pool_driver_migration-Keeps :
      (s : Scenario) → Keeps P (inject_pool_driver_migration uuid5 script s)
  unfolding inject_pool_driver_migration
  inject_pool_driver_migration-Keeps s =
      search (calls, fail_over-Keeps, set_config_if-Keeps, migrate_cache-Keeps)

  inject_cache_topology_migration-Keeps :
      (s : Scenario) → Keeps P (inject_cache_topology_migration uuid5 script s)
  unfolding inject_cache_topology_migration
  inject_cache_topology_migration-Keeps s = search (calls, migrate_cache-Keeps) depth 12

  pub inject_family-Keeps :
      (family : Text) (s : Scenario) → Keeps P (inject_family uuid5 script family s)
  unfolding inject_family
  inject_family-Keeps family s =
      search
        (
          Keeps-if, Keeps-read, inject_bad_deploy-Keeps, inject_pool_exhaustion-Keeps,
          inject_cache_outage-Keeps, inject_traffic_saturation-Keeps, inject_retry_storm-Keeps,
          inject_memory_leak-Keeps, inject_config_regression-Keeps, inject_datastore_failover-Keeps,
          inject_payment_provider_outage-Keeps, inject_novel-Keeps,
          inject_pool_driver_migration-Keeps, inject_cache_topology_migration-Keeps,
        )
        depth 16
