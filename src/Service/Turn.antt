-- ===== src/Service/Turn.antt =====
-- The ports and the state of a turn of backend/src/postmortem_backend/service.py. The embedder,
-- the recall and the reasoner act on an environment of theirs, and the remediation port on the
-- state behind it; each may raise. `transaction_started` is the local variable of `handle`.
use ckdb_aws.Floats.{Builtins}
use ckdb_aws.Action.{Action}
use ckdb_aws.Base.{
  Bool, List, Option, Result, String, [], nat_eq, none, ok, some, string_eq, ℕ, ◌++◌, ◌∷◌,
}
use ckdb_aws.Base.Dict.{Dict, get, put}
use ckdb_aws.Domain.{
  AgentDecision, Error, EventType, Float, IncidentSignal, RecallBundle, RecallQuery, ResponseResult,
  Text, Uuid, text_eq,
}
use ckdb_aws.Events.{AgentEvent, Payload}
use ckdb_aws.Guardrails.Provenance.{Port}

pub record IncidentRegistry : Type 0 where
  pub signals : Dict Uuid IncidentSignal
  pub results : Dict Uuid ResponseResult

unfoldable pub received : IncidentSignal → IncidentRegistry → IncidentRegistry
unfolding put
received signal r = record r { signals = put signal.incident_id signal r.signals }

unfoldable pub completed : ResponseResult → IncidentRegistry → IncidentRegistry
unfolding put
completed result r = record r { results = put result.incident_id result r.results }

pub record IncidentView : Type 0 where
  pub signal : IncidentSignal
  pub last_result : Option ResponseResult
  pub event_count : ℕ

unfoldable pub view : Uuid → ℕ → IncidentRegistry → Option IncidentView
unfolding get
view incident event_count r = elim (get incident r.signals) [
  | none ↦ none
  | some signal ↦
      some (record {
        signal = signal;
        last_result = get incident r.results;
        event_count = event_count;
      })
]

-- The protocols of ports.py that a responder is made of, and the conversions of Python by which
-- it turns what was recalled into data of an event.
pub record Ports (E S : Type 0) : Type 0 where
  pub embed : Text → E → Result Error (List Float) × E
  pub recall : RecallQuery → E → Result Error RecallBundle × E
  pub decide : IncidentSignal → RecallBundle → E → Result Error AgentDecision × E
  pub remediation : Port S
  pub builtins : Builtins

pub record Turn (E S : Type 0) : Type 0 where
  pub env : E
  pub backend : S
  pub registry : IncidentRegistry
  pub published : List AgentEvent
  pub transaction_started : Bool

module _ {E S : Type 0} where
  abbrev pub on_env : {A : Type 0} → (E → Result Error A × E) → Action (Turn E S) A
  on_env f w = ((f w.env).0, record w { env = (f w.env).1 })

  abbrev pub on_backend : {A : Type 0} → (S → Result Error A × S) → Action (Turn E S) A
  on_backend f w = ((f w.backend).0, record w { backend = (f w.backend).1 })

  -- `ResponderService._event`
  unfoldable pub emit_event :
      IncidentSignal
      → EventType
      → (stage : String) → (message : Text) → Payload
      → Action (Turn E S) (Unit {0})
  emit_event signal kind stage message payload w = (
    ok tt,
    record w {
      published =
          w.published
          ++ record {
            incident_id = signal.incident_id;
            event_type = kind;
            stage = stage;
            message = message;
            payload = payload;
          }
            ∷ [];
    },
  )
