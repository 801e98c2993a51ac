-- ===== src/Consolidation/Wire.antt =====
-- What is sent to the queue is read back from it
-- (consolidation/postmortem_consolidation/contracts.py).
use ckdb_aws.Base.{
  >>=-eq-ok, All, All-append, Bool-cases, List, Option, [], ap, arith, elem, false, inl, inr,
  length, ltb, nat_eq, ok, ok-injective, refl, some, string_eq, subst, suc, true, ℕ, ◌==◌, ◌∷◌, ◌≡◌,
}
use ckdb_aws.Consolidation.Contracts.{
  ClosedWindow, Formats, QueueMessage, as_dict, change_event, given, loaded, mapping, message_dict,
  nonempty_text, or_itself, parse_change_timestamp, parse_changefeed_body, parse_queue_message,
  parse_record, parse_records, parse_timestamp, payload_items, required_text, row, row_dict,
  row_of_changefeed, row_of_dict, text_or_empty, window, window_dict, window_of, with_offset,
}
use ckdb_aws.Consolidation.Grouping.{ChangeEvent, incident_eq}
use ckdb_aws.Consolidation.Repository.{key_eq}
use ckdb_aws.Consolidation.Stripped.{required_text-again}
use ckdb_aws.Domain.{
  Fields, Items, Text, Value, aware, dict, end, field, item, lookup, nil, or_value, str, text,
  text_beq, text_eq,
}
use ckdb_aws.Floats.{str_of}
use ckdb_aws.Recall.Score.{updated}

with_offset-same : (t : Text) → elem b'Z' t ≡ false → with_offset t ≡ t
unfolding with_offset
with_offset-same [] h = refl
with_offset-same (c ∷ s) h =
    let zone : (c == b'Z') ≡ false = ground arith in
    rw zone (ap (λ r. c ∷ r) (with_offset-same s (ground arith)))

nonempty_text-ok : (t : Text) → ltb 0 (length t) ≡ true → nonempty_text (some (str t)) ≡ ok t
nonempty_text-ok [] h = ground arith
nonempty_text-ok (c ∷ s) h = refl

-- What is relied on: a time that is written is read back, and so is a decimal number; a time in
-- UTC is written with an offset and without the letter Z, and neither is empty.
pub record FormatLaws (p : Formats) : Type 0 where
  pub read_time : (t : ℕ) → p.builtins.parse_datetime (p.isoformat t) ≡ ok (aware t)
  pub no_letter : (t : ℕ) → elem b'Z' (p.isoformat t) ≡ false
  pub some_time : (t : ℕ) → ltb 0 (length (p.isoformat t)) ≡ true
  pub read_decimal : (n : ℕ) → p.parse_decimal (p.decimal_text n) ≡ some n
  pub some_decimal : (n : ℕ) → ltb 0 (length (p.decimal_text n)) ≡ true

module _ (p : Formats) (laws : FormatLaws p) where
  parse_timestamp-isoformat : (t : ℕ) → parse_timestamp p (some (str (p.isoformat t))) ≡ ok t
  unfolding parse_timestamp
  parse_timestamp-isoformat t =
      rw
        (
          nonempty_text-ok (p.isoformat t) (laws.some_time t),
          with_offset-same (p.isoformat t) (laws.no_letter t),
          laws.read_time t,
        )
        refl

  parse_change_timestamp-decimal :
      (n : ℕ) → parse_change_timestamp p (some (str (p.decimal_text n))) ≡ ok n
  unfolding parse_change_timestamp
  parse_change_timestamp-decimal n =
      rw (nonempty_text-ok (p.decimal_text n) (laws.some_decimal n), laws.read_decimal n) refl

  text_or_empty-str : (t : Text) → text_or_empty p (some (str t)) ≡ t
  unfolding text_or_empty str_of
  text_or_empty-str [] = refl
  text_or_empty-str (c ∷ s) =
      let long : ltb 0 (suc (length s)) ≡ true = ground arith in rw long refl

  -- Fit to be read back.
  Fit : ChangeEvent → Type 0
  Fit e =
      (required_text (some (str e.event_id)) ≡ ok e.event_id)
      × (required_text (some (str e.org_id)) ≡ ok e.org_id)
      × (required_text (some (str e.agent_id)) ≡ ok e.agent_id)
      × (required_text (some (str e.incident_id)) ≡ ok e.incident_id)
      × (required_text (some (str e.service_id)) ≡ ok e.service_id)
      × (required_text (some (str e.event_type)) ≡ ok e.event_type)

  as_dict-metadata : (d : Fields) → as_dict p (or_value (some (dict d)) (dict end)) ≡ ok d
  as_dict-metadata end = refl
  as_dict-metadata (field k v d) = refl

  row_of_dict-row_dict : (e : ChangeEvent) → Fit e → row_of_dict p (row_dict p e) ≡ ok e
  unfolding row_of_dict change_event row_dict lookup text_beq Fit
  row_of_dict-row_dict e (h₁, h₂, h₃, h₄, h₅, h₆) =
      rw
        (
          h₁,
          h₂,
          h₃,
          h₄,
          h₅,
          h₆,
          parse_timestamp-isoformat e.occurred_at,
          parse_change_timestamp-decimal e.updated_at,
          text_or_empty-str e.content,
          as_dict-metadata e.metadata,
        )
        refl

  change_event-Fit :
      (source : Fields) (updated : Option Value) (metadata : Fields) (e : ChangeEvent)
      → change_event p source updated metadata ≡ ok e
      → Fit e
  unfolding change_event Fit
  change_event-Fit source updated metadata e h =
      let (a, e₁, k₁) = >>=-eq-ok (required_text (lookup (text "event_id") source)) _ h in
      let (b, e₂, k₂) = >>=-eq-ok (required_text (lookup (text "org_id") source)) _ k₁ in
      let (c, e₃, k₃) = >>=-eq-ok (required_text (lookup (text "agent_id") source)) _ k₂ in
      let (d, e₄, k₄) = >>=-eq-ok (required_text (lookup (text "incident_id") source)) _ k₃ in
      let (f, e₅, k₅) = >>=-eq-ok (required_text (lookup (text "service_id") source)) _ k₄ in
      let (g, e₆, k₆) = >>=-eq-ok (required_text (lookup (text "event_type") source)) _ k₅ in
      let (t, e₇, k₇) = >>=-eq-ok (parse_timestamp p (lookup (text "occurred_at") source)) _ k₆ in
      let (u, e₈, k₈) = >>=-eq-ok (parse_change_timestamp p updated) _ k₇ in
      subst Fit (ok-injective k₈) (
        required_text-again (lookup (text "event_id") source) a e₁,
        required_text-again (lookup (text "org_id") source) b e₂,
        required_text-again (lookup (text "agent_id") source) c e₃,
        required_text-again (lookup (text "incident_id") source) d e₄,
        required_text-again (lookup (text "service_id") source) f e₅,
        required_text-again (lookup (text "event_type") source) g e₆,
      )

  row_of_changefeed-Fit :
      (envelope : Fields) (e : ChangeEvent) → row_of_changefeed p envelope ≡ ok e → Fit e
  unfolding row_of_changefeed
  row_of_changefeed-Fit envelope e h =
      let (after, e₁, k₁) = >>=-eq-ok (mapping (lookup (text "after") envelope)) _ h in
      let (decoded, e₂, k₂) =
        >>=-eq-ok (loaded p (or_value (lookup (text "metadata") after) (dict end))) _ k₁ in
      let (metadata, e₃, k₃) = >>=-eq-ok (mapping (some decoded)) _ k₂ in
      change_event-Fit after _ metadata e k₃

  -- The queue gives the message back.
  Returns : QueueMessage → Type 0
  Returns m = parse_queue_message p (message_dict p m) ≡ ok m

  row-Returns : (e : ChangeEvent) → Fit e → Returns (row e)
  unfolding Returns parse_queue_message message_dict row_dict lookup text_beq
  row-Returns e h = rw (row_of_dict-row_dict e h) refl

  window-Returns : (w : ClosedWindow) → Returns (window w)
  unfolding Returns parse_queue_message message_dict window_dict window_of lookup text_beq
  window-Returns w = rw (parse_change_timestamp-decimal w.watermark) refl

  parse_record-Returns :
      (raw : Fields) (ms : List QueueMessage) → parse_record p raw ≡ ok ms → All Returns ms
  unfolding parse_record
  parse_record-Returns raw ms h = elim (Bool-cases (given (lookup (text "resolved") raw))) [
    | inl is_window ↦
        let (w, e, k) =
          >>=-eq-ok (window_of p (lookup (text "resolved") raw)) _ (rw is_window at h) in
        subst (All Returns) (ok-injective k) (window-Returns w, tt)
    | inr no_window ↦ elim (Bool-cases (given (lookup (text "after") raw))) [
      | inl is_row ↦
          let (r, e, k) = >>=-eq-ok (row_of_changefeed p raw) _ (rw (no_window, is_row) at h) in
          subst (All Returns) (ok-injective k) (row-Returns r (row_of_changefeed-Fit raw r e), tt)
      | inr no_row ↦ subst (All Returns) (ok-injective (rw (no_window, no_row) at h)) tt
    ]
  ]

  parse_records-Returns :
      (items : Items) (ms : List QueueMessage) → parse_records p items ≡ ok ms → All Returns ms
  unfolding parse_records
  parse_records-Returns nil ms h = subst (All Returns) (ok-injective h) tt
  parse_records-Returns (item v xs) ms h =
      let (raw, e₁, k₁) = >>=-eq-ok (mapping (some v)) _ h in
      let (first, e₂, k₂) = >>=-eq-ok (parse_record p raw) _ k₁ in
      let (more, e₃, k₃) = >>=-eq-ok (parse_records p xs) _ k₂ in
      subst (All Returns) (ok-injective k₃) (
        All-append Returns first more (parse_record-Returns raw first e₂)
          (parse_records-Returns xs more e₃))

  -- Whatever is parsed from a body of the changefeed is read back as it was from what is sent of it
  -- to the queue: each row and each closed window of the batch.
  pub queue_roundtrip :
      (body : Value) (ms : List QueueMessage)
      → parse_changefeed_body p body ≡ ok ms
      → All (λ m. parse_queue_message p (message_dict p m) ≡ ok m) ms
  unfolding parse_changefeed_body Returns
  queue_roundtrip body ms h =
      let (d, e₁, k₁) = >>=-eq-ok (mapping (some body)) _ h in
      let (items, e₂, k₂) =
        >>=-eq-ok (payload_items (or_itself (lookup (text "payload") d) (dict d))) _ k₁ in
      parse_records-Returns items ms k₂
