-- ===== src/Service/Stored.antt =====
-- A turn of backend/src/postmortem_backend/service.py over the store of
-- backend/src/postmortem_backend/adapters/fakes.py.
use ckdb_aws.Floats.{Builtins}
use ckdb_aws.Base.{
  Bool, List, Option, Result, Result-cases, ap, err, false, inl, inr, map_ok, none, ok, ok-ne-err,
  refl, some, subst, sym, ◌∙◌, ◌≡◌, ◌⊎◌,
}
use ckdb_aws.Domain.{
  AgentDecision, Datetime, Error, Float, IncidentSignal, RecallBundle, RecallQuery,
  RemediationCommand, RemediationResult, ResponseResult, Text,
}
use ckdb_aws.Guardrails.Unicode.{Unicode}
use ckdb_aws.Service.Handle.{handle, response, with_approval}
use ckdb_aws.Service.Safe.{handle_acts}
use ckdb_aws.Service.Turn.{Ports, Turn}
use ckdb_aws.Store.{Store}
use ckdb_aws.Store.Atomic.{remediate_error}
use ckdb_aws.Store.Committed.{Committed, remediate_commits}
use ckdb_aws.Store.Remediate.{Ids, remediate_and_record, remediation_result, seed_missing}

-- Ports whose remediation port is the store, with the ids that it will draw.
abbrev pub stored :
    {E : Type 0}
    → Ids
    → Builtins
    → (embed : Text → E → Result Error (List Float) × E)
    → (recall : RecallQuery → E → Result Error RecallBundle × E)
    → (decide : IncidentSignal → RecallBundle → E → Result Error AgentDecision × E) → Ports E Store
stored ids builtins embed recall decide = record {
  embed = embed;
  recall = recall;
  decide = decide;
  remediation = remediate_and_record ids;
  builtins = builtins;
}

unseeded : (c : RemediationCommand) (s : Store) → s.auto_seed ≡ false → seed_missing c s ≡ s
unfolding seed_missing
unseeded c s h = rw h refl

failed_tables :
    (ids : Ids) (c : RemediationCommand) (embedding : List Float) (s : Store) (e : Error)
    → s.auto_seed ≡ false
    → (remediate_and_record ids c embedding s).0 ≡ err e
    → (remediate_and_record ids c embedding s).1.tables ≡ s.tables
failed_tables ids c embedding s e manual h = elim (remediate_error ids c embedding s e h) [
  | inl (_, same) ↦ ap (λ (t : Store). t.tables) same
  | inr (_, same) ↦
      ap (λ (t : Store). t.tables) same ∙ ap (λ (t : Store). t.tables) (unseeded c s manual)
]

moved :
    (ids : Ids) (c : RemediationCommand) (embedding : List Float) {s s₁ t t₁ : Store}
    → s ≡ s₁
    → t ≡ t₁
    → Committed ids c embedding s.tables t.tables
    → Committed ids c embedding s₁.tables t₁.tables
moved ids c embedding {s = s} {t₁ = t₁} p q h =
    subst (λ (x : Store). Committed ids c embedding x.tables t₁.tables) p
      (subst (λ (y : Store). Committed ids c embedding s.tables y.tables) q h)

-- A turn over a store without `auto_seed` does all of a remediation or none. Either the tables are
-- as they were, and then no response reports a remediation, or the turn returns a response with
-- the store's result, and the tables have the whole of one remediation in them.
pub turn_all_or_nothing :
    {E : Type 0} (ids : Ids) (builtins : Builtins)
    (embed : Text → E → Result Error (List Float) × E)
    (recall : RecallQuery → E → Result Error RecallBundle × E)
    (decide : IncidentSignal → RecallBundle → E → Result Error AgentDecision × E) (u : Unicode)
    (now : Datetime) (signal : IncidentSignal) (approved : Bool) (approver : Option Text)
    (w : Turn E Store)
    → w.backend.auto_seed ≡ false
    → let out = handle (stored ids builtins embed recall decide) u now signal approved approver w in
      ((out.1.backend.tables ≡ w.backend.tables)
        × ((x : ResponseResult) → out.0 ≡ ok x → x.remediation ≡ none))
      ⊎ ((c : RemediationCommand) × (embedding : List Float) × (x : ResponseResult) × (out.0 ≡ ok x)
          × (x.remediation ≡ some (remediation_result ids))
          × Committed ids c embedding w.backend.tables out.1.backend.tables)
turn_all_or_nothing ids builtins embed recall decide u now signal approved approver w manual =
    elim (handle_acts (stored ids builtins embed recall decide) u now signal approved approver w) [
      | inl (same, idle) ↦ inl (ap (λ (t : Store). t.tables) same, idle)
      | inr done ↦
          let c = with_approval approved done.proposed in
          let ran = done.ran.ran in
          let answer = response done.signal (record done.decision { command = some c }) in
          let says =
            λ (r : Result Error RemediationResult)
                (h : (remediate_and_record ids c ran.embedding w.backend).0 ≡ r).
              done.reported
              ∙ ap (map_ok answer) (done.ran.reported ∙ ap (map_ok some) (sym ran.returned ∙ h)) in
          elim (Result-cases (remediate_and_record ids c ran.embedding w.backend).0) [
            | inr (e, raised) ↦ inl (
              ap (λ (t : Store). t.tables) (sym ran.left)
                  ∙ failed_tables ids c ran.embedding w.backend e manual raised,
              λ x h. absurd (ok-ne-err (sym h ∙ says (err e) raised)),
            )
            | inl (r, fine) ↦
                let (is, committed, _, _) =
                  remediate_commits ids c ran.embedding w.backend r fine in
                inr (
                  c,
                  ran.embedding,
                  answer (some r),
                  says (ok r) fine,
                  ap some is,
                  moved ids c ran.embedding (unseeded c w.backend manual) ran.left committed,
                )
          ]
    ]
