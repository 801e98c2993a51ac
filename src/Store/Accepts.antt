-- ===== src/Store/Accepts.antt =====
-- When a remediation commits: the independent description of the guards of
-- `remediate_and_record` (backend/src/postmortem_backend/adapters/fakes.py).
use ckdb_aws.Base.{
  List, Option, arith, elem, false, length, nat_eq, none, ok, refl, some, true, ◌↔◌, ◌≡◌, ◌≢◌, ◌⊎◌,
}
use ckdb_aws.Base.Dict.{get}
use ckdb_aws.Domain.{Float, RemediationCommand, RemediationResult, Uuid, restart, rollback}
use ckdb_aws.Store.{
  FailPoint, IncidentRow, ServiceRow, Store, Tables, after_operational_write, during_audit_write,
  during_memory_write, fails_at, supported,
}
use ckdb_aws.Store.Committed.{remediate_ok, stage_cases, transact_ok}
use ckdb_aws.Store.Remediate.{
  Ids, audit_write, check_target, count_usage, memory_write, operational_write,
  remediate_and_record, remediation_result, seed_missing, settle, stage_remediation, transact,
  validate,
}

-- The conditions on a command, a store and an embedding under which a remediation commits.
pub record Accepts (c : RemediationCommand) (embedding : List Float) (s : Store) : Type 0 where
  pub kind : (c.action ≡ rollback) ⊎ (c.action ≡ restart)
  pub approval : (c.requires_human_approval ≡ false) ⊎ (c.approved ≡ true)
  pub dimensions : length embedding ≡ 1024
  pub service :
      (row : ServiceRow) × (get c.service_id (seed_missing c s).tables.services ≡ some row)
      × (row.org_id ≡ c.org_id)
  pub incident :
      (row : IncidentRow) × (get c.incident_id (seed_missing c s).tables.incidents ≡ some row)
      × (row.org_id ≡ c.org_id)
      × (row.service_id ≡ c.service_id)
  pub citation : elem c.cited_memory_id (seed_missing c s).provenance ≡ true
  pub no_fault :
      (s.fail_at ≢ some after_operational_write)
      × (s.fail_at ≢ some during_memory_write)
      × (s.fail_at ≢ some during_audit_write)

validate_iff :
    (c : RemediationCommand) (embedding : List Float)
    → (validate c embedding ≡ ok tt) ↔ (
        ((c.action ≡ rollback) ⊎ (c.action ≡ restart))
        × ((c.requires_human_approval ≡ false) ⊎ (c.approved ≡ true))
        × (length embedding ≡ 1024))
unfolding validate supported
validate_iff c embedding = ground arith

module _ (ids : Ids) (c : RemediationCommand) (embedding : List Float) where
  check_target_iff :
      (prov : List Uuid) (t : Tables) (service : ServiceRow) (incident : IncidentRow)
      → (check_target c prov t ≡ ok (service, incident)) ↔ (
          (get c.service_id t.services ≡ some service)
          × (service.org_id ≡ c.org_id)
          × (get c.incident_id t.incidents ≡ some incident)
          × (incident.org_id ≡ c.org_id)
          × (incident.service_id ≡ c.service_id)
          × (elem c.cited_memory_id prov ≡ true))
  unfolding check_target
  check_target_iff prov t service incident = ground arith

  fault_free : (f : Option FailPoint) (p : FailPoint) → (fails_at f p ≡ false) ↔ (f ≢ some p)
  fault_free none p = (λ _ e. cc, λ _. refl)
  fault_free (some after_operational_write) p = ground arith
  fault_free (some _) p = ground arith

  stage_ok :
      (s : Store) (service : ServiceRow) (incident : IncidentRow)
      → check_target c s.provenance s.tables ≡ ok (service, incident)
      → fails_at s.fail_at after_operational_write ≡ false
      → fails_at s.fail_at during_memory_write ≡ false
      → fails_at s.fail_at during_audit_write ≡ false
      → stage_remediation ids c embedding s
        ≡ ok (
            count_usage c.runbook_id (
              audit_write ids c
                (memory_write ids c embedding (operational_write ids c service incident s.tables))))
  unfolding stage_remediation
  stage_ok s service incident e p q r = rw (e, p, q, r)

  stage_ok_faults :
      (s : Store) (t : Tables)
      → stage_remediation ids c embedding s ≡ ok t
      → (fails_at s.fail_at after_operational_write ≡ false)
        × (fails_at s.fail_at during_memory_write ≡ false)
        × (fails_at s.fail_at during_audit_write ≡ false)
  unfolding stage_remediation
  stage_ok_faults s t h = ground arith

  seed_missing-fail_at : (s : Store) → (seed_missing c s).fail_at ≡ s.fail_at
  unfolding seed_missing
  seed_missing-fail_at s = ground arith

  remediate_valid :
      (s : Store) (r : RemediationResult)
      → (remediate_and_record ids c embedding s).0 ≡ ok r
      → validate c embedding ≡ ok tt
  unfolding remediate_and_record
  remediate_valid s r h = ground arith

  accepted :
      (s : Store)
      → (remediate_and_record ids c embedding s).0 ≡ ok (remediation_result ids)
      → Accepts c embedding s
  accepted s h =
      let (_, staged, _, _) =
        transact_ok ids c embedding (seed_missing c s) _
          (rw (remediate_ok ids c embedding s _ h) at h) in
      let (service, incident, t, w) = stage_cases ids c embedding (seed_missing c s) _ staged in
      let (hs, so, hi, io, ii, cited) = (check_target_iff _ _ service incident).0 t in
      let (k, a, d) = (validate_iff c embedding).0 (remediate_valid s _ h) in
      let (p, q, r) = stage_ok_faults (seed_missing c s) _ staged in
      let f = seed_missing-fail_at s in
      record {
        kind = k;
        approval = a;
        dimensions = d;
        service = (service, hs, so);
        incident = (incident, hi, io, ii);
        citation = cited;
        no_fault = (
          (fault_free _ _).0 (rw f at p),
          (fault_free _ _).0 (rw f at q),
          (fault_free _ _).0 (rw f at r),
        );
      }

  committed :
      (s : Store)
      → Accepts c embedding s
      → (remediate_and_record ids c embedding s).0 ≡ ok (remediation_result ids)
  unfolding remediate_and_record transact settle
  committed s a =
      let (service, hs, so) = a.service in
      let (incident, hi, io, ii) = a.incident in
      let f = seed_missing-fail_at s in
      let staged =
        stage_ok (seed_missing c s) service incident
          ((check_target_iff _ _ service incident).1 (hs, so, hi, io, ii, a.citation))
          (rw f ((fault_free _ _).1 a.no_fault.0)) (rw f ((fault_free _ _).1 a.no_fault.1))
          (rw f ((fault_free _ _).1 a.no_fault.2)) in
      let valid = (validate_iff c embedding).1 (a.kind, a.approval, a.dimensions) in
      ground (arith, valid, staged)

  -- A remediation commits exactly when its action is a rollback or a restart, an approval that it
  -- needs is given, the embedding has 1024 dimensions, the target service and incident stand in
  -- the store (or are seeded) under the org of the command, the citation is known, and no fault
  -- is injected.
  pub remediate_ok_iff :
      (s : Store)
      → ((remediate_and_record ids c embedding s).0 ≡ ok (remediation_result ids))
        ↔ Accepts c embedding s
  remediate_ok_iff s = (accepted s, committed s)
