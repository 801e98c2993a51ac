-- ===== src/Guardrails/Provenance.antt =====
-- backend/src/postmortem_backend/guardrails/provenance.py: no ungrounded action. The identifier
-- `UUID(int=0)` is 0. A command always carries an id; only it may be nil.
use ckdb_aws.Base.{
  Bool, List, Option, Result, arith, elem, err, false, guard, if◌then◌else◌, nat_eq, none, ok, some,
  string_eq, true, ◌==◌, ◌↔◌, ◌≡◌, ◌⊎◌,
}
use ckdb_aws.Domain.{
  Error, Float, RemediationCommand, RemediationResult, Uuid, provenance_error, text_eq,
}

unfoldable pub require_grounded_action :
    RemediationCommand → Option (List Uuid) → Result Error (Unit {0})
require_grounded_action command recalled_ids =
    if command.cited_memory_id == 0 then err provenance_error else (elim recalled_ids [
      | none ↦ ok tt
      | some ids ↦ guard (elem command.cited_memory_id ids) provenance_error
    ])

unfoldable pub verify_citation_resolves : Option Uuid → List Uuid → Bool
verify_citation_resolves none recalled_ids = false
verify_citation_resolves (some cited) recalled_ids =
    if cited == 0 then false else elem cited recalled_ids

-- `AtomicRemediationPort.remediate_and_record`, as an action on the state behind it.
abbrev pub Port : Type 0 → Type 0
Port S = RemediationCommand → List Float → S → Result Error RemediationResult × S

-- `ProvenanceGuardedRemediation.remediate_and_record`
unfoldable pub guarded : {S : Type 0} → Port S → Option (List Uuid) → Port S
guarded inner recalled_ids command embedding s =
    elim (require_grounded_action command recalled_ids) [
      | err e ↦ (err e, s)
      | ok _ ↦ inner command embedding s
    ]

-- The gate and the predicate agree: an action passes exactly when its citation resolves.
pub require_grounded_iff :
    (command : RemediationCommand) (ids : List Uuid)
    → (require_grounded_action command (some ids) ≡ ok tt)
      ↔ (verify_citation_resolves (some command.cited_memory_id) ids ≡ true)
unfolding require_grounded_action verify_citation_resolves
require_grounded_iff command ids = ground arith

-- Behind the wrapper an action runs as the wrapped port runs it when its citation is grounded,
-- and otherwise raises a provenance error and leaves the state behind the port as it is.
pub guarded_lem :
    {S : Type 0} (inner : Port S) (recalled : Option (List Uuid)) (command : RemediationCommand)
    (embedding : List Float) (s : S)
    → ((require_grounded_action command recalled ≡ ok tt)
        × (guarded inner recalled command embedding s ≡ inner command embedding s))
      ⊎ ((require_grounded_action command recalled ≡ err provenance_error)
          × (guarded inner recalled command embedding s ≡ (err provenance_error, s)))
unfolding guarded require_grounded_action
guarded_lem inner recalled command embedding s = ground arith
