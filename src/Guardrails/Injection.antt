-- ===== src/Guardrails/Injection.antt =====
-- backend/src/postmortem_backend/guardrails/injection.py: untrusted text is scrubbed and screened
-- before it reaches the reasoner.
use ckdb_aws.Base.{
  Bool, Option, Result, err, if◌then◌else◌, leb, length, ltb, nat_eq, none, not, ok, select, some,
  string_eq, traverse, ℕ, ◌&&◌, ◌==◌, ◌>>=◌, ◌||◌,
}
use ckdb_aws.Domain.{
  Error, Fields, IncidentSignal, Items, MemoryCandidate, RecallBundle, Text, Value, bool, datetime,
  dict, end, field, float, int, item, list, nil, null, prompt_injection_detected, str, text_eq,
  tuple, uuid,
}
use ckdb_aws.Guardrails.Patterns.{contains_tool_call_injection}
use ckdb_aws.Guardrails.Unicode.{Unicode}

abbrev pub max_untrusted_field_chars : ℕ
max_untrusted_field_chars = 8000

-- `_CONTROL_CHARS`
unfoldable pub is_control : ℕ → Bool
is_control c = leb c 8 || (c == 0x0b || (c == 0x0c || ((leb 0x0e c && leb c 0x1f) || c == 0x7f)))

unfoldable pub normalize_untrusted_text : Unicode → Text → Text
normalize_untrusted_text u t = select (λ c. not (u.is_format c)) (u.nfkc t)

unfoldable pub scrub_control_characters : Unicode → Text → Text
unfolding is_control normalize_untrusted_text
scrub_control_characters u t = select (λ c. not (is_control c)) (normalize_untrusted_text u t)

-- The checks on a scrubbed text.
unfoldable pub screen : Unicode → Text → Result Error Text
screen u scrubbed =
    if ltb max_untrusted_field_chars (length scrubbed)
    then err prompt_injection_detected
    else if contains_tool_call_injection u scrubbed
    then err prompt_injection_detected
    else ok scrubbed

-- `guard_untrusted_text` of a text, and of an optional one. Its `or ""` at the callers changes
-- nothing: an empty text is kept.
unfoldable pub guard_text : Unicode → Text → Result Error Text
unfolding screen
guard_text u t = screen u (scrub_control_characters u t)

unfoldable pub guard_untrusted_text : Unicode → Option Text → Result Error (Option Text)
guard_untrusted_text u none = ok none
guard_untrusted_text u (some t) = do clean ← guard_text u t; ok (some clean)

-- The loop over `signal.metadata.items()`: a text is screened and its scrubbed form dropped.
unfoldable pub screen_metadata : Unicode → Fields → Result Error (Unit {0})
screen_metadata u end = ok tt
screen_metadata u (field k (str t) d) = guard_text u t >>= λ _. screen_metadata u d
screen_metadata u (field k v d) = screen_metadata u d

unfoldable pub sanitize_signal : Unicode → IncidentSignal → Result Error IncidentSignal
unfolding guard_untrusted_text screen_metadata
sanitize_signal u signal = do
  clean_summary ← guard_text u signal.summary
  clean_signature ← guard_untrusted_text u signal.error_signature
  clean_tags ← traverse (guard_text u) signal.service_tags
  screened ← screen_metadata u signal.metadata
  ok (record signal {
    summary = clean_summary;
    error_signature = clean_signature;
    service_tags = clean_tags;
  })

-- `_scan_untrusted_value`
unfoldable mutual
  pub scan_untrusted_value : Unicode → Value → Result Error Value
  scan_untrusted_value u null = ok null
  scan_untrusted_value u (bool b) = ok (bool b)
  scan_untrusted_value u (int n) = ok (int n)
  scan_untrusted_value u (float x) = ok (float x)
  scan_untrusted_value u (str t) = guard_text u t >>= λ clean. ok (str clean)
  scan_untrusted_value u (uuid i) = ok (uuid i)
  scan_untrusted_value u (datetime d) = ok (datetime d)
  scan_untrusted_value u (tuple xs) = scan_items u xs >>= λ ys. ok (tuple ys)
  scan_untrusted_value u (list xs) = scan_items u xs >>= λ ys. ok (list ys)
  scan_untrusted_value u (dict d) = scan_fields u d >>= λ d'. ok (dict d')

  pub scan_items : Unicode → Items → Result Error Items
  scan_items u nil = ok nil
  scan_items u (item v xs) =
      scan_untrusted_value u v >>= λ w. scan_items u xs >>= λ ys. ok (item w ys)

  pub scan_fields : Unicode → Fields → Result Error Fields
  scan_fields u end = ok end
  scan_fields u (field k v d) =
      scan_untrusted_value u v >>= λ w. scan_fields u d >>= λ d'. ok (field k w d')

unfoldable pub guard_untrusted_memory_candidate :
    Unicode → MemoryCandidate → Result Error MemoryCandidate
guard_untrusted_memory_candidate u candidate = do
  content ← guard_text u candidate.content
  steps ← traverse (scan_untrusted_value u) candidate.steps
  metadata ← scan_fields u candidate.metadata
  ok (record candidate { content = content; steps = steps; metadata = metadata })

unfoldable pub guard_untrusted_recall_bundle : Unicode → RecallBundle → Result Error RecallBundle
guard_untrusted_recall_bundle u bundle = do
  episodes ← traverse (guard_untrusted_memory_candidate u) bundle.episodes
  facts ← traverse (guard_untrusted_memory_candidate u) bundle.facts
  runbooks ← traverse (guard_untrusted_memory_candidate u) bundle.runbooks
  ok (record bundle { episodes = episodes; facts = facts; runbooks = runbooks })
