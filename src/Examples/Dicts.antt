-- ===== src/Examples/Dicts.antt =====
-- The theorem on the dictionaries of events at a concrete input.
use ckdb_aws.Base.{true, ◌≡◌}
use ckdb_aws.Domain.{Datetime, Text, aware, text}
use ckdb_aws.Json.{
  Dynamic, IsJson, bool, datetime, dict, end, enum_member, field, item, json_value,
  json_value_plain, negsuc, nil, tuple, uuid,
}

-- A dictionary of an event: an id, its type, a time, and a tuple.
abbrev event_data : Dynamic
event_data = dict (
    field (text "event_id") (uuid 7) (
      field (text "type") (enum_member (text "DECISION_MADE")) (
        field (text "occurred_at") (datetime (aware 5)) (
          field (text "pair") (tuple (item (uuid 8) (item (bool true) (item (negsuc 0) nil))))
            end))))

abbrev written : Datetime → Text
written d = text "now"

json_value_plain_example :
    IsJson (json_value written event_data)
    × (json_value written (json_value written event_data) ≡ json_value written event_data)
json_value_plain_example = json_value_plain written event_data
