-- ===== src/Consolidation/Apply.antt =====
-- `InMemoryRunbookRepository.apply` of consolidation/postmortem_consolidation/repository.py.
use ckdb_aws.Base.{
  Bool, List, Option, Result, [], err, false, get_last?, if◌then◌else◌, leb, length, nat_eq, none,
  ok, some, string_eq, true, ℕ, ◌&&◌, ◌++◌, ◌+◌, ◌==◌, ◌∷◌,
}
use ckdb_aws.Base.Dict.{get, put, set_default}
use ckdb_aws.Consolidation.Repository.{
  CandidateRunbook, LocalRunbook, Operation, Repository, RunbookKey, RunbookMutation,
  RunbookOutcome, RunbookStatus, absent, active, create, deprecated, draft, failed,
  ignored_counterexample, key_eq, no_effect, no_id, noop, rb, reinforce, success, weaken,
}
use ckdb_aws.Domain.{Error, Text, Value, text_beq, text_eq, value_error}

abbrev pub key_of : CandidateRunbook → RunbookKey
key_of c = record { org_id = c.org_id; agent_id = c.agent_id; name = c.name }

abbrev pub mutation_of : Operation → LocalRunbook → RunbookMutation
mutation_of operation r = record {
  operation = operation;
  runbook_id = r.runbook_id;
  version = r.version;
  success_count = r.success_count;
  failure_count = r.failure_count;
  status = r.status;
  idempotent_replay = false;
}

abbrev pub is_success : RunbookOutcome → Bool
is_success success = true
is_success failed = false
is_success no_effect = false

abbrev pub is_draft : RunbookStatus → Bool
is_draft draft = true
is_draft active = false
is_draft deprecated = false
is_draft absent = false

-- The changes of a runbook in place.
unfoldable pub weakened : LocalRunbook → LocalRunbook
weakened r = record r {
  failure_count = r.failure_count + 1;
  status = if leb r.success_count (r.failure_count + 1) then deprecated else r.status;
}

unfoldable pub reinforced : ℕ → LocalRunbook → LocalRunbook
reinforced needed r = record r {
  success_count = r.success_count + 1;
  status = if is_draft r.status && leb (needed + 1) (r.success_count + 1) then active else r.status;
}

abbrev pub ignored : RunbookMutation
ignored = record {
  operation = ignored_counterexample;
  runbook_id = no_id;
  version = 0;
  success_count = 0;
  failure_count = 0;
  status = absent;
  idempotent_replay = false;
}

-- `versions[-1]` is an object that the list shares: a change of it is one of the last item.
abbrev pub set_last : List LocalRunbook → LocalRunbook → List LocalRunbook
set_last [] r = []
set_last (x ∷ []) r = r ∷ []
set_last (x ∷ y ∷ xs) r = x ∷ set_last (y ∷ xs) r

-- The new versions are stored and the mutation is kept under the key of the group.
unfoldable pub keep :
    RunbookKey
    → Text
    → Result Error (RunbookMutation × List LocalRunbook)
    → Repository
    → Result Error RunbookMutation × Repository
unfolding put
keep key idempotency_key (err e) s = (err e, s)
keep key idempotency_key (ok (mutation, versions)) s = (
  ok mutation,
  record s {
    runbooks = put key versions s.runbooks;
    processed = put idempotency_key mutation s.processed;
  },
)

-- `self.runbooks.setdefault(key, [])`
abbrev pub with_key : RunbookKey → Repository → Repository
with_key key s = record s { runbooks = set_default key [] s.runbooks }

abbrev pub listed : Option (List LocalRunbook) → List LocalRunbook
listed none = []
listed (some versions) = versions

abbrev pub versions_of : RunbookKey → Repository → List LocalRunbook
versions_of key s = listed (get key s.runbooks)

module _ (hash : List Value → Text) where
  unfoldable pub new_runbook : CandidateRunbook → (keys : ℕ) → List LocalRunbook → LocalRunbook
  new_runbook c keys versions = record {
    runbook_id = rb keys (length versions + 1);
    version = elim (get_last? versions) [ none ↦ 1 | some latest ↦ latest.version + 1 ];
    steps_hash = hash c.steps;
    success_count = 1;
    failure_count = 0;
    status = draft;
    embedding = c.embedding;
  }

  -- What a candidate makes of the versions under its key.
  unfoldable pub created :
      CandidateRunbook
      → (keys : ℕ) → List LocalRunbook
      → Result Error (RunbookMutation × List LocalRunbook)
  unfolding new_runbook
  created c keys versions =
      if length c.embedding == 1024
      then (let r = new_runbook c keys versions in ok (mutation_of create r, versions ++ r ∷ []))
      else err value_error

  unfoldable pub revised :
      (needed : ℕ)
      → CandidateRunbook
      → (keys : ℕ) → List LocalRunbook
      → Option LocalRunbook
      → Result Error (RunbookMutation × List LocalRunbook)
  unfolding weakened reinforced created
  revised needed c keys versions none =
      if is_success c.outcome then created c keys versions else ok (ignored, versions)
  revised needed c keys versions (some latest) =
      if is_success c.outcome
      then (if text_beq latest.steps_hash (hash c.steps)
          then (let r = reinforced needed latest in
              ok (mutation_of reinforce r, set_last versions r))
          else created c keys versions)
      else (let r = weakened latest in ok (mutation_of weaken r, set_last versions r))

  unfoldable pub change :
      CandidateRunbook → Text → Repository → Result Error RunbookMutation × Repository
  unfolding revised keep set_default get
  change c idempotency_key s =
      let s' = with_key (key_of c) s in
      let versions = versions_of (key_of c) s' in
      keep (key_of c) idempotency_key
        (revised s.reinforcements_to_activate c (length s'.runbooks) versions (get_last? versions))
        s'

  unfoldable pub apply :
      CandidateRunbook
      → (idempotency_key : Text) → Repository
      → Result Error RunbookMutation × Repository
  unfolding change get
  apply c idempotency_key s = elim (get idempotency_key s.processed) [
    | some previous ↦ (ok (record previous { operation = noop; idempotent_replay = true }), s)
    | none ↦ change c idempotency_key s
  ]

  -- Candidates one after another, each under its key; an error of one does not stop the next.
  unfoldable pub apply_all : List (CandidateRunbook × Text) → Repository → Repository
  unfolding apply
  apply_all [] s = s
  apply_all ((c, k) ∷ rest) s = apply_all rest (apply c k s).1
