-- ===== src/Consolidation/Contracts.antt =====
-- The messages of the changefeed and of the queue in
-- consolidation/postmortem_consolidation/contracts.py. A changefeed timestamp, a decimal number of
-- nanoseconds, is counted in units of its tenth decimal place, of which a database gives no more;
-- negative numbers, exponents and NaN are left out.
use ckdb_aws.Base.{
  Bool, List, Option, Result, [], err, false, if◌then◌else◌, length, ltb, nat_eq, none, ok, some,
  string_eq, true, ℕ, ◌*◌, ◌++◌, ◌==◌, ◌>>=◌, ◌^◌, ◌∷◌,
}
use ckdb_aws.Consolidation.Grouping.{ChangeEvent, incident_eq}
use ckdb_aws.Consolidation.Repository.{key_eq}
use ckdb_aws.Domain.{
  Datetime, Error, Fields, Items, Text, Value, aware, dict, end, field, item, list, lookup, naive,
  nil, null, or_value, str, text, text_eq, truthy, tuple, value_error,
}
use ckdb_aws.Floats.{Builtins, str_of}
use ckdb_aws.Guardrails.Unicode.{strip}
use ckdb_aws.Recall.Score.{updated}

-- `datetime.fromisoformat`, `isoformat` of a time in UTC, `Decimal(text)` or `InvalidOperation`,
-- `str` of a decimal number, `json.loads`, `sha256`, and `dict(value)` of what is no mapping.
pub record Formats : Type 0 where
  pub builtins : Builtins
  pub isoformat : ℕ → Text
  pub parse_decimal : Text → Option ℕ
  pub decimal_text : ℕ → Text
  pub loads : Text → Result Error Value
  pub sha256 : Text → Text
  pub dict_of : Value → Result Error Fields

-- `value.replace("Z", "+00:00")`
unfoldable pub with_offset : Text → Text
with_offset [] = []
with_offset (c ∷ s) = if c == b'Z' then text "+00:00" ++ with_offset s else c ∷ with_offset s

abbrev pub utc_micros : Datetime → ℕ
utc_micros (naive t) = t
utc_micros (aware t) = t

-- `isinstance(value, str) and value`
abbrev pub nonempty_text : Option Value → Result Error Text
nonempty_text (some (str (c ∷ s))) = ok (c ∷ s)
nonempty_text v = err value_error

abbrev pub any_text : Option Value → Result Error Text
any_text (some (str t)) = ok t
any_text v = err value_error

-- `isinstance(value, Mapping)`
abbrev pub mapping : Option Value → Result Error Fields
mapping (some (dict d)) = ok d
mapping v = err value_error

-- `_required_text`
unfoldable pub required_text : Option Value → Result Error Text
unfolding strip
required_text v =
    any_text v >>= λ t. if ltb 0 (length (strip t)) then ok (strip t) else err value_error

pub record ClosedWindow : Type 0 where
  pub watermark : ℕ

pub data QueueMessage : Type 0 where
  row : ChangeEvent → QueueMessage
  window : ClosedWindow → QueueMessage

-- What a time is as a changefeed timestamp.
abbrev wall_time : (micros : ℕ) → ℕ
wall_time micros = micros * 1000 * 10 ^ 10

-- `envelope.get("updated") or after.get("created_at")`
abbrev pub or_option : Option Value → Option Value → Option Value
or_option none w = w
or_option (some v) w = if truthy v then some v else w

-- `value == text`
abbrev pub reads : Option Value → Text → Bool
reads (some (str s)) t = s == t
reads v t = false

-- `value is not None`
abbrev pub given : Option Value → Bool
given none = false
given (some null) = false
given (some v) = true

-- The objects of a payload
abbrev pub payload_items : Value → Result Error Items
payload_items (dict d) = ok (item (dict d) nil)
payload_items (list xs) = ok xs
payload_items (tuple xs) = ok xs
payload_items v = err value_error

abbrev pub or_itself : Option Value → Value → Value
or_itself none d = d
or_itself (some v) d = v

module _ (p : Formats) where
  unfoldable pub parse_timestamp : Option Value → Result Error ℕ
  unfolding with_offset
  parse_timestamp v =
      nonempty_text v >>= λ t. p.builtins.parse_datetime (with_offset t) >>= λ d. ok (utc_micros d)

  unfoldable pub parse_change_timestamp : Option Value → Result Error ℕ
  unfolding parse_timestamp
  parse_change_timestamp v = nonempty_text v >>= λ t. elim (p.parse_decimal t) [
    | some n ↦ ok n
    | none ↦ parse_timestamp v >>= λ micros. ok (wall_time micros)
  ]

  -- `str(value or "")`
  unfoldable pub text_or_empty : Option Value → Text
  unfolding str_of
  text_or_empty v = str_of p.builtins (or_value v (str []))

  -- `ChangeEvent(...)`, with what differs between the row of a changefeed and a message
  unfoldable pub change_event :
      Fields → (updated : Option Value) → Fields → Result Error ChangeEvent
  unfolding lookup required_text parse_timestamp parse_change_timestamp text_or_empty
  change_event source updated metadata = do
    event_id ← required_text (lookup (text "event_id") source)
    org_id ← required_text (lookup (text "org_id") source)
    agent_id ← required_text (lookup (text "agent_id") source)
    incident_id ← required_text (lookup (text "incident_id") source)
    service_id ← required_text (lookup (text "service_id") source)
    event_type ← required_text (lookup (text "event_type") source)
    occurred_at ← parse_timestamp (lookup (text "occurred_at") source)
    updated_at ← parse_change_timestamp updated
    ok (record {
      event_id = event_id;
      org_id = org_id;
      agent_id = agent_id;
      incident_id = incident_id;
      service_id = service_id;
      event_type = event_type;
      content = text_or_empty (lookup (text "content") source);
      occurred_at = occurred_at;
      updated_at = updated_at;
      metadata = metadata;
    })

  -- `after.metadata`: an object, or the text of one
  abbrev pub loaded : Value → Result Error Value
  loaded (str t) = p.loads t
  loaded v = ok v

  -- `ChangeEvent.from_changefeed`
  unfoldable pub row_of_changefeed : Fields → Result Error ChangeEvent
  unfolding lookup change_event
  row_of_changefeed envelope = do
    after ← mapping (lookup (text "after") envelope)
    let updated = or_option (lookup (text "updated") envelope) (lookup (text "created_at") after)
    decoded ← loaded (or_value (lookup (text "metadata") after) (dict end))
    metadata ← mapping (some decoded)
    change_event after updated metadata

  -- `ChangeEvent.to_dict`
  unfoldable pub row_dict : ChangeEvent → Fields
  row_dict e = field (text "event_id") (str e.event_id) (
      field (text "org_id") (str e.org_id) (
        field (text "agent_id") (str e.agent_id) (
          field (text "incident_id") (str e.incident_id) (
            field (text "service_id") (str e.service_id) (
              field (text "event_type") (str e.event_type) (
                field (text "content") (str e.content) (
                  field (text "occurred_at") (str (p.isoformat e.occurred_at)) (
                    field (text "updated_at") (str (p.decimal_text e.updated_at)) (
                      field (text "metadata") (dict e.metadata)
                        (field (text "kind") (str (text "row")) end))))))))))

  -- `dict(value)`
  abbrev pub as_dict : Value → Result Error Fields
  as_dict (dict d) = ok d
  as_dict v = p.dict_of v

  -- `ChangeEvent.from_dict`
  unfoldable pub row_of_dict : Fields → Result Error ChangeEvent
  unfolding lookup change_event
  row_of_dict d = do
    e ← change_event d (lookup (text "updated_at") d) end
    metadata ← as_dict (or_value (lookup (text "metadata") d) (dict end))
    ok (record e { metadata = metadata })

  -- `ClosedWindow.from_changefeed`, `to_dict` and `from_dict`
  unfoldable pub window_of : Option Value → Result Error ClosedWindow
  unfolding parse_change_timestamp
  window_of v = parse_change_timestamp v >>= λ n. ok (record { watermark = n })

  unfoldable pub window_dict : ClosedWindow → Fields
  window_dict w =
      field (text "kind") (str (text "window_closed"))
        (field (text "watermark") (str (p.decimal_text w.watermark)) end)

  -- `to_dict` of either
  unfoldable pub message_dict : QueueMessage → Fields
  unfolding row_dict window_dict
  message_dict (row e) = row_dict e
  message_dict (window w) = window_dict w

  -- `deduplication_id` of either
  unfoldable pub deduplication_id : QueueMessage → Text
  deduplication_id (row e) =
      p.sha256 (text "row:" ++ (e.event_id ++ (text ":" ++ p.decimal_text e.updated_at)))
  deduplication_id (window w) = p.sha256 (text "window:" ++ p.decimal_text w.watermark)

  unfoldable pub parse_queue_message : Fields → Result Error QueueMessage
  unfolding lookup row_of_dict window_of
  parse_queue_message d =
      if reads (lookup (text "kind") d) (text "row")
      then (row_of_dict d >>= λ e. ok (row e))
      else if reads (lookup (text "kind") d) (text "window_closed")
      then (window_of (lookup (text "watermark") d) >>= λ w. ok (window w))
      else err value_error

  -- One record of a batch; tombstones and records without a row are left out.
  unfoldable pub parse_record : Fields → Result Error (List QueueMessage)
  unfolding lookup row_of_changefeed window_of
  parse_record raw =
      if given (lookup (text "resolved") raw)
      then (window_of (lookup (text "resolved") raw) >>= λ w. ok (window w ∷ []))
      else if given (lookup (text "after") raw)
      then (row_of_changefeed raw >>= λ e. ok (row e ∷ []))
      else ok []

  unfoldable pub parse_records : Items → Result Error (List QueueMessage)
  unfolding parse_record
  parse_records nil = ok []
  parse_records (item v xs) = do
    raw ← mapping (some v)
    messages ← parse_record raw
    more ← parse_records xs
    ok (messages ++ more)

  unfoldable pub parse_changefeed_body : Value → Result Error (List QueueMessage)
  unfolding lookup parse_records
  parse_changefeed_body value = do
    body ← mapping (some value)
    items ← payload_items (or_itself (lookup (text "payload") body) (dict body))
    parse_records items
