-- ===== src/Service/Trace.antt =====
-- The events of a turn (backend/src/postmortem_backend/service.py).
use mathlib.Core.List.{append-nil, append_assoc}
use ckdb_aws.Base.{
  All, All-append, Bool, List, Result, String, [], any, arith, false, refl, sym, true, ◌++◌, ◌||◌,
  ◌∙◌, ◌∷◌, ◌≡◌,
}
use ckdb_aws.Domain.{
  Error, EventType, IncidentSignal, Text, Uuid, response_completed, response_failed,
  transaction_rolled_back, transaction_started,
}
use ckdb_aws.Events.{AgentEvent, Payload}
use ckdb_aws.Action.Runs.{Runs}
use ckdb_aws.Action.{lift}
use ckdb_aws.Service.Turn.{Turn, emit_event, on_backend, on_env}

abbrev pub is_final : EventType → Bool
is_final response_completed = true
is_final response_failed = true
is_final transaction_rolled_back = true
is_final _ = false

abbrev pub is_start_type : EventType → Bool
is_start_type transaction_started = true
is_start_type _ = false

abbrev pub is_start : AgentEvent → Bool
is_start e = is_start_type e.event_type

-- An event of incident `i` that does not end a turn.
abbrev pub Ongoing : Uuid → AgentEvent → Type 0
Ongoing i e = (e.incident_id ≡ i) × (is_final e.event_type ≡ false)

-- From `w` to `w'` a turn over incident `i` has published events that do not end it, and has set
-- `transaction_started` when it published TRANSACTION_STARTED.
pub record Proceeds {E S : Type 0} (i : Uuid) (w w' : Turn E S) : Type 0 where
  pub added : List AgentEvent
  pub grown : w'.published ≡ w.published ++ added
  pub ongoing : All (Ongoing i) added
  pub flagged : w'.transaction_started ≡ (w.transaction_started || any is_start added)

any-append :
    {A : Type 0} (p : A → Bool) (xs ys : List A) → any p (xs ++ ys) ≡ (any p xs || any p ys)
any-append p [] ys = refl
any-append p (x ∷ xs) ys = ground (arith, any-append p xs ys)

module _ {E S : Type 0} (i : Uuid) where
  pub quiet :
      (w w' : Turn E S)
      → w'.published ≡ w.published
      → w'.transaction_started ≡ w.transaction_started
      → Proceeds i w w'
  quiet w w' p q = record {
    added = [];
    grown = p ∙ sym (append-nil w.published);
    ongoing = tt;
    flagged = ground arith;
  }

  pub Proceeds-trans : (a b c : Turn E S) → Proceeds i a b → Proceeds i b c → Proceeds i a c
  Proceeds-trans a b c p q = record {
    added = p.added ++ q.added;
    grown = q.grown ∙ rw p.grown (append_assoc a.published p.added q.added);
    ongoing = All-append (Ongoing i) p.added q.added p.ongoing q.ongoing;
    flagged = ground (arith, any-append is_start p.added q.added);
  }

  pub emit_event-Runs :
      (signal : IncidentSignal) (kind : EventType) (stage : String) (message : Text) (d : Payload)
      → signal.incident_id ≡ i
      → is_final kind ≡ false
      → is_start_type kind ≡ false
      → Runs (Proceeds i) (emit_event {E = E} {S = S} signal kind stage message d)
  unfolding emit_event
  emit_event-Runs signal kind stage message d same goes no_start = record {
    run = λ w. record {
      added = _;
      grown = refl;
      ongoing = ((same, goes), tt);
      flagged = ground arith;
    };
  }

  pub lift-Runs : {A : Type 0} (r : Result Error A) → Runs (Proceeds i) (lift {W = Turn E S} r)
  lift-Runs r = record { run = λ w. quiet w w refl refl }

  pub on_env-Runs :
      {A : Type 0} (f : E → Result Error A × E) → Runs (Proceeds i) (on_env {E = E} {S = S} f)
  on_env-Runs f = record { run = λ w. quiet w (on_env f w).1 refl refl }

  pub on_backend-Runs :
      {A : Type 0} (f : S → Result Error A × S) → Runs (Proceeds i) (on_backend {E = E} {S = S} f)
  on_backend-Runs f = record { run = λ w. quiet w (on_backend f w).1 refl refl }
