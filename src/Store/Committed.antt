-- ===== src/Store/Committed.antt =====
-- What a committed remediation has written, and when one commits
-- (backend/src/postmortem_backend/adapters/fakes.py).
use ckdb_aws.Base.{
  >>=-eq-ok, List, Option, ap, arith, elem, nat_eq, none, ok, refl, some, string_eq, true, ℕ, ◌+◌,
  ◌≡◌, ◌≢◌,
}
use ckdb_aws.Base.Dict.{Dict, get, get-put_ne, get-put_self}
use ckdb_aws.Domain.{
  Float, RemediationCommand, RemediationResult, Uuid, double, effective_idempotency_key,
  memory_text, text, text_eq,
}
use ckdb_aws.Store.{ActionRow, DeployRow, IncidentRow, ServiceRow, Store, Tables, action_episode}
use ckdb_aws.Store.Remediate.{
  Ids, audit_write, bump, check_target, count_usage, memory_write, operational_write, or_zero,
  remediate_and_record, remediation_result, seed_missing, settle, stage_remediation, transact,
}

-- The rows that a remediation leaves under the ids that it drew, and the target's new state.
pub record Committed (ids : Ids) (c : RemediationCommand) (embedding : List Float)
    (before after : Tables) : Type 0 where
  pub service :
      (row : ServiceRow) × (get c.service_id before.services ≡ some row)
      × (row.org_id ≡ c.org_id)
      × (get c.service_id after.services
          ≡ some
              (record row { status = text "recovering"; current_deploy_id = some ids.deploy_id }))
  pub incident :
      (row : IncidentRow) × (get c.incident_id before.incidents ≡ some row)
      × (row.org_id ≡ c.org_id)
      × (row.service_id ≡ c.service_id)
      × (get c.incident_id after.incidents
          ≡ some (record row { status = text "mitigating"; runbook_id = c.runbook_id }))
  pub deploy :
      (row : DeployRow) × (get ids.deploy_id after.deploys ≡ some row)
      × (row.service_id ≡ c.service_id)
      × (row.version ≡ c.target_version)
  pub episode :
      get ids.event_id after.episodes
      ≡ some (
          action_episode c.org_id c.agent_id c.incident_id c.session_id c.service_id
            (memory_text c)
            ids.deploy_id
            c.cited_memory_id
            c.outcome_stub
            c.runbook_id
            (double 0x3feccccccccccccd)
            embedding)
  pub action :
      (row : ActionRow) × (get ids.action_id after.remediation_actions ≡ some row)
      × (row.memory_ref ≡ ids.event_id)
      × (row.incident_id ≡ c.incident_id)
      × (row.target_id ≡ c.service_id)
      × (row.transaction_id ≡ ids.transaction_id)
      × (row.idempotency_key ≡ effective_idempotency_key c)
  pub usage :
      (r : Uuid)
      → c.runbook_id ≡ some r
      → get r after.runbook_usage ≡ some (or_zero (get r before.runbook_usage) + 1)
  pub other_usage :
      (j : Uuid) → c.runbook_id ≢ some j → get j after.runbook_usage ≡ get j before.runbook_usage
  pub other_services : (j : Uuid) → c.service_id ≢ j → get j after.services ≡ get j before.services
  pub other_incidents :
      (j : Uuid) → c.incident_id ≢ j → get j after.incidents ≡ get j before.incidents
  pub other_deploys : (j : Uuid) → ids.deploy_id ≢ j → get j after.deploys ≡ get j before.deploys
  pub other_episodes : (j : Uuid) → ids.event_id ≢ j → get j after.episodes ≡ get j before.episodes
  pub other_actions :
      (j : Uuid)
      → ids.action_id ≢ j
      → get j after.remediation_actions ≡ get j before.remediation_actions

module _ (ids : Ids) (c : RemediationCommand) (embedding : List Float) where
  target_lem :
      (prov : List Uuid) (t : Tables) (service : ServiceRow) (incident : IncidentRow)
      → check_target c prov t ≡ ok (service, incident)
      → (get c.service_id t.services ≡ some service)
        × (service.org_id ≡ c.org_id)
        × (get c.incident_id t.incidents ≡ some incident)
        × (incident.org_id ≡ c.org_id)
        × (incident.service_id ≡ c.service_id)
        × (elem c.cited_memory_id prov ≡ true)
  unfolding check_target
  target_lem prov t service incident h = ground arith

  pub stage_cases :
      (s : Store) (t : Tables)
      → stage_remediation ids c embedding s ≡ ok t
      → (service : ServiceRow) × (incident : IncidentRow) × (check_target c s.provenance s.tables
          ≡ ok (service, incident))
        × (t
            ≡ count_usage c.runbook_id (
                audit_write ids c (
                  memory_write ids c embedding
                    (operational_write ids c service incident s.tables))))
  unfolding stage_remediation
  stage_cases s t h =
      let (rows, e, k) = >>=-eq-ok (check_target c s.provenance s.tables) _ h in
      (rows.0, rows.1, e, ground arith)

  writes : ServiceRow → IncidentRow → Tables → Tables
  writes service incident t = count_usage c.runbook_id (
      audit_write ids c (memory_write ids c embedding (operational_write ids c service incident t)))

  bump_lem :
      (usage : Dict Uuid ℕ) (r : Uuid)
      → c.runbook_id ≡ some r
      → get r (bump c.runbook_id usage) ≡ some (or_zero (get r usage) + 1)
  unfolding bump
  bump_lem usage r e = rw e (get-put_self r _ usage)

  bump_other :
      (usage : Dict Uuid ℕ) (used : Option Uuid) (j : Uuid)
      → used ≢ some j
      → get j (bump used usage) ≡ get j usage
  unfolding bump
  bump_other usage none j ne = refl
  bump_other usage (some r) j ne = get-put_ne r j _ usage (λ same. ne (ap some same))

  writes-Committed :
      (t : Tables) (service : ServiceRow) (incident : IncidentRow) (prov : List Uuid)
      → check_target c prov t ≡ ok (service, incident)
      → Committed ids c embedding t (writes service incident t)
  unfolding writes count_usage audit_write memory_write operational_write
  writes-Committed t service incident prov h =
      let (hs, so, hi, io, ii, _) = target_lem prov t service incident h in
      record {
        service = (service, hs, so, get-put_self _ _ _);
        incident = (incident, hi, io, ii, get-put_self _ _ _);
        deploy = (_, get-put_self _ _ _, refl, refl);
        episode = get-put_self _ _ _;
        action = (_, get-put_self _ _ _, refl, refl, refl, refl, refl);
        usage = bump_lem t.runbook_usage;
        other_usage = bump_other t.runbook_usage c.runbook_id;
        other_services = λ j ne. get-put_ne _ _ _ _ ne;
        other_incidents = λ j ne. get-put_ne _ _ _ _ ne;
        other_deploys = λ j ne. get-put_ne _ _ _ _ ne;
        other_episodes = λ j ne. get-put_ne _ _ _ _ ne;
        other_actions = λ j ne. get-put_ne _ _ _ _ ne;
      }

  pub stage-Committed :
      (s : Store) (t : Tables)
      → stage_remediation ids c embedding s ≡ ok t
      → Committed ids c embedding s.tables t
  unfolding writes
  stage-Committed s t h =
      let (service, incident, e, w) = stage_cases s t h in
      rw w (writes-Committed s.tables service incident s.provenance e)

  pub transact_ok :
      (s : Store) (r : RemediationResult)
      → (transact ids c embedding s).0 ≡ ok r
      → (r ≡ remediation_result ids)
        × (stage_remediation ids c embedding s ≡ ok (transact ids c embedding s).1.tables)
        × ((transact ids c embedding s).1.commit_count ≡ s.commit_count + 1)
        × ((transact ids c embedding s).1.rollback_count ≡ s.rollback_count)
  unfolding transact settle
  transact_ok s r h = ground arith

  pub remediate_ok :
      (s : Store) (r : RemediationResult)
      → (remediate_and_record ids c embedding s).0 ≡ ok r
      → remediate_and_record ids c embedding s ≡ transact ids c embedding (seed_missing c s)
  unfolding remediate_and_record
  remediate_ok s r h = ground arith

  seed_missing_counts :
      (s : Store)
      → ((seed_missing c s).commit_count ≡ s.commit_count)
        × ((seed_missing c s).rollback_count ≡ s.rollback_count)
  unfolding seed_missing
  seed_missing_counts s = ground arith

  -- A remediation that returns has committed once: it returns the ids that it drew, and under
  -- them stand the deploy, the episode and the action that links to the episode, beside the
  -- service and the incident in their new state. No other row of these tables has changed. The
  -- runbook that was used counts one more use, and the count of every other is as it was. The
  -- target rows were there, inside the org of the command. The tables before are those of the store
  -- after `auto_seed`, where it is set, has put in the target rows that were missing.
  pub remediate_commits :
      (s : Store) (r : RemediationResult)
      → (remediate_and_record ids c embedding s).0 ≡ ok r
      → let s' = (remediate_and_record ids c embedding s).1 in
        (r ≡ remediation_result ids)
        × Committed ids c embedding (seed_missing c s).tables s'.tables
        × (s'.commit_count ≡ s.commit_count + 1)
        × (s'.rollback_count ≡ s.rollback_count)
  remediate_commits s r h =
      let e = remediate_ok s r h in
      let (res, staged, commits, rollbacks) = transact_ok (seed_missing c s) r (rw e at h) in
      let (seeded_commits, seeded_rollbacks) = seed_missing_counts s in
      rw e (
        res,
        stage-Committed (seed_missing c s) _ staged,
        omega (arith, commits, seeded_commits),
        omega (arith, rollbacks, seeded_rollbacks),
      )
