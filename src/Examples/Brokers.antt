-- ===== src/Examples/Brokers.antt =====
-- The broker's theorems at concrete inputs.
use ckdb_aws.Base.{List, [], ◌++◌, ◌∷◌, ◌≡◌}
use ckdb_aws.Domain.{Text, Uuid, incident_received, text}
use ckdb_aws.Events.{AgentEvent, history_of, new_broker, no_data, pending, publish_all, subscribe}
use ckdb_aws.Events.History.{history_latest, of_incident, take_last}
use ckdb_aws.Events.Queues.{stream_complete, within}

abbrev note : Uuid → Text → AgentEvent
note incident message = record {
  incident_id = incident;
  event_type = incident_received;
  stage = "perceive";
  message = message;
  payload = no_data;
}

abbrev past : List AgentEvent
past = note 1 (text "a") ∷ note 2 (text "b") ∷ note 1 (text "c") ∷ []

abbrev later : List AgentEvent
later = note 2 (text "d") ∷ note 1 (text "e") ∷ []

history_latest_example :
    history_of 1 (publish_all past (new_broker 1 0)) ≡ take_last 1 (of_incident 1 past)
history_latest_example = history_latest 1 0 1 past

stream_complete_example :
    let started = subscribe 1 9 (publish_all past (new_broker 200 256)) in
    started.0 ++ pending 1 9 (publish_all later started.1)
    ≡ take_last 200 (of_incident 1 past) ++ within 256 (of_incident 1 later)
stream_complete_example = stream_complete 200 256 1 9 past later
