-- ===== src/Fakes.antt =====
-- The deterministic embedder, recall and reasoner of
-- backend/src/postmortem_backend/adapters/fakes.py. The store that stands there is in Store.
use ckdb_aws.Base.{
  Bool, List, Option, Result, [], err, false, if◌then◌else◌, leb, length, ltb, map, nat_eq, none,
  ok, select, some, string_eq, suc, true, zero, ℕ, ◌%◌, ◌&&◌, ◌++◌, ◌+◌, ◌/◌, ◌==◌, ◌>>=◌, ◌>>◌,
  ◌∷◌,
}
use ckdb_aws.Domain.{
  ActionKind, AgentDecision, Error, Float, IncidentSignal, MemoryCandidate, MemoryKind,
  RecallBundle, RecallQuery, RemediationCommand, Text, Value, action_value, bool, end, episodic,
  escalate, feature_flag, lookup, procedural, remediate, restart, rollback, scale, semantic, str,
  text, text_eq, truthy, uuid_text, value_error,
}
use ckdb_aws.Floats.{Builtins, FloatOps, float_zero, point_30, point_70, str_of}
use ckdb_aws.Recall.Eligible.{kind_is}
use ckdb_aws.Recall.Rank.{cold_bundle}
pub mod Embedding
pub mod Grounded

-- `text.encode("utf-8")`: a surrogate has no encoding.
abbrev continuation : ℕ → ℕ
continuation n = 128 + n % 64

utf8_char : ℕ → Result Error (List ℕ)
utf8_char c =
    if ltb c 0x80
    then ok (c ∷ [])
    else if ltb c 0x800
    then ok ((192 + c / 64) ∷ continuation c ∷ [])
    else if leb 0xd800 c && leb c 0xdfff
    then err value_error
    else if ltb c 0x10000
    then ok ((224 + c / 4096) ∷ continuation (c / 64) ∷ continuation c ∷ [])
    else ok
        ((240 + c / 262144) ∷ continuation (c / 4096) ∷ continuation (c / 64) ∷ continuation c ∷ [])

unfoldable pub utf8 : Text → Result Error (List ℕ)
unfolding utf8_char
utf8 [] = ok []
utf8 (c ∷ s) = utf8_char c >>= λ cs. utf8 s >>= λ bytes. ok (cs ++ bytes)

-- `[value] * count`
unfoldable pub repeated : Float → (count : ℕ) → List Float
repeated x zero = []
repeated x (suc n) = x ∷ repeated x n

module _ (f : FloatOps) where
  -- `vector[index] += value`
  unfoldable pub add_at : (index : ℕ) → Float → List Float → List Float
  add_at index value [] = []
  add_at zero value (x ∷ xs) = f.add x value ∷ xs
  add_at (suc index) value (x ∷ xs) = x ∷ add_at index value xs

  -- The loop over the bytes, from an index on
  unfoldable pub spread : (index : ℕ) → List ℕ → List Float → List Float
  unfolding add_at
  spread index [] vector = vector
  spread index (value ∷ bytes) vector =
      spread (index + 1) bytes (add_at (index % 1024) (f.ratio (value + 1) 256) vector)

  -- `FakeEmbeddingAdapter.embed`
  unfoldable pub embed : Text → Result Error (List Float)
  unfolding utf8 repeated spread
  embed t = utf8 t >>= λ bytes.
      let encoded = if ltb 0 (length bytes) then bytes else 0 ∷ [] in
      let vector = spread 0 encoded (repeated float_zero 1024) in
      let magnitude = f.sqrt (f.sum (map (λ x. f.mul x x) vector)) in
      ok (map (λ x. f.div x magnitude) vector)

-- `FakeRecallAdapter`: the bundle, and the queries it was asked.
pub record FakeRecall : Type 0 where
  pub bundle : RecallBundle
  pub queries : List RecallQuery

-- `FakeRecallAdapter.recall`
unfoldable pub fake_recall : RecallQuery → FakeRecall → RecallBundle × FakeRecall
unfolding cold_bundle
fake_recall query adapter = (
  if query.cold_start then cold_bundle end else adapter.bundle,
  record adapter { queries = adapter.queries ++ query ∷ [] },
)

-- `ActionKind(value)`
unfoldable pub action_of : Value → Result Error ActionKind
unfolding action_value
action_of (str t) =
    if t == action_value rollback
    then ok rollback
    else if t == action_value restart
    then ok restart
    else if t == action_value scale
    then ok scale
    else if t == action_value feature_flag
    then ok feature_flag
    else err value_error
action_of v = err value_error

-- `metadata.get(key, default)`
abbrev get_or : Option Value → Value → Value
get_or none d = d
get_or (some v) d = v

-- `a or b` of two lists
abbrev pub or_list : {A : Type 0} → List A → List A → List A
or_list [] ys = ys
or_list (x ∷ xs) ys = x ∷ xs

abbrev kind_value : MemoryKind → Text
kind_value episodic = text "episodic"
kind_value semantic = text "semantic"
kind_value procedural = text "procedural"

unfoldable pub is_actionable : MemoryCandidate → Bool
unfolding lookup
is_actionable x = truthy (get_or (lookup (text "actionable") x.metadata) (bool true))

module _ (f : FloatOps) (b : Builtins) where
  unfoldable pub rating : MemoryCandidate → Float
  rating x = f.add (f.mul x.similarity point_70) (f.mul x.success_rate point_30)

  -- `max(candidates, key=...)`: the first of the greatest
  unfoldable pub greatest : (best : MemoryCandidate) → List MemoryCandidate → MemoryCandidate
  unfolding rating
  greatest best [] = best
  greatest best (x ∷ xs) = greatest (if f.lt (rating best) (rating x) then x else best) xs

  -- `_best_candidate`
  unfoldable pub best_candidate : RecallBundle → Option MemoryCandidate
  unfolding is_actionable greatest
  best_candidate memory = elim (select is_actionable (or_list memory.runbooks memory.episodes)) [
    | [] ↦ none
    | x ∷ xs ↦ some (greatest x xs)
  ]

  -- The command that takes up what a candidate has recalled
  unfoldable pub recalled_command :
      IncidentSignal → MemoryCandidate → Result Error RemediationCommand
  unfolding action_of lookup str_of uuid_text
  recalled_command signal candidate = do
    action ←
        action_of (get_or (lookup (text "action") candidate.metadata) (str (action_value rollback)))
    ok (record {
      org_id = signal.org_id;
      agent_id = signal.agent_id;
      incident_id = signal.incident_id;
      session_id = signal.session_id;
      service_id = signal.service_id;
      action = action;
      target_version = str_of b (
          get_or (lookup (text "target_version") candidate.metadata)
            (str (text "last-known-good")));
      cited_memory_id = candidate.memory_id;
      runbook_id =
          if kind_is candidate.kind procedural
          then some candidate.memory_id
          else candidate.runbook_id;
      rationale =
          text "Matched "
          ++ (kind_value candidate.kind
              ++ (text " memory "
                  ++ (uuid_text candidate.memory_id
                      ++ (text " with similarity "
                          ++ (f.fixed3 candidate.similarity ++ text ".")))));
      outcome_stub = text "remediation_started";
      requires_human_approval =
          truthy (get_or (lookup (text "requires_human_approval") candidate.metadata) (bool false));
      approved = false;
      idempotency_key = none;
    })

  -- `FakeReasoningAdapter.decide`
  unfoldable pub fake_decide : IncidentSignal → RecallBundle → Result Error AgentDecision
  unfolding best_candidate recalled_command
  fake_decide signal memory = elim (best_candidate memory) [
    | none ↦ ok (record {
      kind = escalate;
      explanation = text "No grounded memory matched this incident; page a human.";
      cited_memory_id = none;
      command = none;
      confidence = float_zero;
    })
    | some candidate ↦ recalled_command signal candidate >>= λ command. ok (record {
      kind = remediate;
      explanation = command.rationale;
      cited_memory_id = some candidate.memory_id;
      command = some command;
      confidence = candidate.similarity;
    })
  ]
