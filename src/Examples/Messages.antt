-- ===== src/Examples/Messages.antt =====
-- The theorems on the messages of the queue and on what is made fit for JSON at concrete inputs.
use ckdb_aws.Base.{
  All, List, Result, [], ap, arith, elem, err, false, length, nat_eq, ok, refl, some, string_eq,
  suc, zero, ℕ, ◌-◌, ◌∷◌, ◌≡◌,
}
use ckdb_aws.Consolidation.Contracts.{
  Formats, QueueMessage, message_dict, parse_changefeed_body, parse_queue_message,
}
use ckdb_aws.Consolidation.Grouping.{incident_eq}
use ckdb_aws.Consolidation.Repository.{key_eq}
use ckdb_aws.Consolidation.Wire.{FormatLaws, queue_roundtrip}
use ckdb_aws.Domain.{
  Error, Fields, Text, Value, aware, dict, end, field, item, list, lookup, nil, str, text, text_beq,
  text_eq, type_error, value_error,
}
use ckdb_aws.Examples.Recalls.{plain_builtins}
use ckdb_aws.Simulator.Models.{slo_key_eq}

-- A number in unary, which stands for the formats of times and decimal numbers.
tally : ℕ → Text
tally zero = b'0' ∷ []
tally (suc n) = b'1' ∷ tally n

length-tally : (n : ℕ) → length (tally n) ≡ suc n
unfolding tally
length-tally zero = omega arith
length-tally (suc n) = omega (arith, length-tally n)

no_letter_in : (n : ℕ) → elem b'Z' (tally n) ≡ false
unfolding tally
no_letter_in zero = refl
no_letter_in (suc n) = ground (arith, no_letter_in n)

abbrev count : Text → ℕ
count t = length t - 1

abbrev tallied : Formats
tallied = record {
  builtins = record plain_builtins { parse_datetime = λ t. ok (aware (count t)) };
  isoformat = tally;
  parse_decimal = λ t. some (count t);
  decimal_text = tally;
  loads = λ t. err value_error;
  sha256 = λ t. t;
  dict_of = λ v. err type_error;
}

count-tally : (n : ℕ) → count (tally n) ≡ n
count-tally n = omega (arith, length-tally n)

tallied_laws : FormatLaws tallied
tallied_laws = record {
  read_time = λ t. ap (λ n. ok (aware n)) (count-tally t);
  no_letter = no_letter_in;
  some_time = λ t. ground (arith, length-tally t);
  read_decimal = λ n. ap some (count-tally n);
  some_decimal = λ n. ground (arith, length-tally n);
}

abbrev pair : Text → Text → Fields → Fields
pair k t d = field k (str t) d

-- A row whose identifiers have spaces around them, and the closing of a window.
abbrev body : Value
body = dict (
    field (text "payload")
      (list (
        item
          (dict (
            pair (text "updated") (text "110") (
              field (text "after")
                (dict (
                  pair (text "event_id") (text " e1 ") (
                    pair (text "org_id") (text "o") (
                      pair (text "agent_id") (text "a") (
                        pair (text "incident_id") (text "i\n") (
                          pair (text "service_id") (text "s") (
                            pair (text "event_type") (text "outcome")
                              (pair (text "occurred_at") (text "10") end))))))))
                end)))
          (item (dict (pair (text "resolved") (text "1110") end)) nil)))
      end)

abbrev parsed : Result Error (List QueueMessage) → List QueueMessage
parsed (ok ms) = ms
parsed (err e) = []

messages : List QueueMessage
messages = parsed (parse_changefeed_body tallied body)

messages_lem : parse_changefeed_body tallied body ≡ ok messages
unfolding messages parse_changefeed_body lookup text_beq
messages_lem = refl

test_messages : length messages ≡ 2
unfolding messages parse_changefeed_body lookup text_beq
test_messages = refl

queue_roundtrip_example :
    All (λ m. parse_queue_message tallied (message_dict tallied m) ≡ ok m) messages
queue_roundtrip_example = queue_roundtrip tallied tallied_laws body messages messages_lem
