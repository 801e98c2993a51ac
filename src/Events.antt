-- ===== src/Events.antt =====
-- backend/src/postmortem_backend/events.py: the in-process broker of agent events.
--
-- A subscriber's queue is named by a number, which stands for the identity of the `Queue` object.
-- Each operation is what the source does under its lock, or one `get` of a subscriber; the puts of
-- `publish`, which follow its locked section, are part of its step.
mod Shapes
pub mod History
pub mod Queues
pub use Shapes.*
use ckdb_aws.Base.{
  List, Option, [], drop, if◌then◌else◌, leb, length, ltb, map, nat_eq, none, some, string_eq, ℕ,
  ◌&&◌, ◌++◌, ◌+◌, ◌-◌, ◌==◌, ◌∷◌,
}
use ckdb_aws.Base.Dict.{Dict, get, put}
use ckdb_aws.Domain.{Uuid, text_eq}

-- A `Queue` with its `maxsize`, where 0 is no bound.
pub record Queue : Type 0 where
  pub name : ℕ
  pub items : List AgentEvent

pub record EventBroker : Type 0 where
  pub history_limit : ℕ
  pub subscriber_queue_limit : ℕ
  pub history : Dict Uuid (List AgentEvent)
  pub subscribers : Dict Uuid (List Queue)

unfoldable pub new_broker : ℕ → ℕ → EventBroker
new_broker history_limit subscriber_queue_limit = record {
  history_limit = history_limit;
  subscriber_queue_limit = subscriber_queue_limit;
  history = [];
  subscribers = [];
}

-- `deque(maxlen=limit).append(event)`: the oldest entries make room.
unfoldable pub append_bounded {ℓ} : {A : Type ℓ} → ℕ → List A → A → List A
append_bounded limit xs x = drop (length xs + 1 - limit) (xs ++ x ∷ [])

-- `subscriber.put_nowait(event)`, and the event is dropped if that raises `Full`.
unfoldable pub offer : ℕ → AgentEvent → Queue → Queue
offer limit event q =
    if ltb 0 limit && leb limit (length q.items)
    then q
    else record q { items = q.items ++ event ∷ [] }

abbrev pub or_empty {ℓ} : {A : Type ℓ} → Option (List A) → List A
or_empty none = []
or_empty (some xs) = xs

-- `self._subscribers[incident_id]` of a `defaultdict` adds the empty set where there is none, and
-- `put` does that too.
unfoldable pub publish : AgentEvent → EventBroker → EventBroker
unfolding get put append_bounded offer
publish event b = record b {
  history =
      put event.incident_id
        (append_bounded b.history_limit (or_empty (get event.incident_id b.history)) event)
        b.history;
  subscribers =
      put event.incident_id
        (map (offer b.subscriber_queue_limit event)
          (or_empty (get event.incident_id b.subscribers)))
        b.subscribers;
}

-- `EventBroker.history`
unfoldable pub history_of : Uuid → EventBroker → List AgentEvent
unfolding get
history_of incident b = or_empty (get incident b.history)

-- The start of `stream`: the new queue is added and the history is read in one locked step.
unfoldable pub subscribe : Uuid → (name : ℕ) → EventBroker → List AgentEvent × EventBroker
unfolding get put history_of
subscribe incident name b = (
  history_of incident b,
  record b {
    subscribers =
        put incident (record { name = name; items = [] } ∷ or_empty (get incident b.subscribers))
          b.subscribers;
  },
)

unfoldable pub find_queue : ℕ → List Queue → Option Queue
find_queue name [] = none
find_queue name (q ∷ qs) = if q.name == name then some q else find_queue name qs

-- What a stream's queue holds.
unfoldable pub pending : Uuid → ℕ → EventBroker → List AgentEvent
unfolding get find_queue
pending incident name b = elim (find_queue name (or_empty (get incident b.subscribers))) [
  | none ↦ []
  | some q ↦ q.items
]

pop_queue : ℕ → List Queue → List Queue
pop_queue name [] = []
pop_queue name (q ∷ qs) =
    if q.name == name
    then record q { items = elim q.items [ [] ↦ [] | _ ∷ rest ↦ rest ] } ∷ qs
    else q ∷ pop_queue name qs

-- One turn of the loop of `stream`: the next event, or the heartbeat `None` after the timeout.
unfoldable pub receive : Uuid → ℕ → EventBroker → Option AgentEvent × EventBroker
unfolding get put pending pop_queue
receive incident name b = (
  elim (pending incident name b) [ [] ↦ none | event ∷ _ ↦ some event ],
  record b {
    subscribers =
        put incident (pop_queue name (or_empty (get incident b.subscribers))) b.subscribers;
  },
)

without_queue : ℕ → List Queue → List Queue
without_queue name [] = []
without_queue name (q ∷ qs) =
    let rest = without_queue name qs in if q.name == name then rest else q ∷ rest

-- `self._subscribers.pop(incident_id, None)`
remove : Uuid → Dict Uuid (List Queue) → Dict Uuid (List Queue)
remove k [] = []
remove k ((j, v) ∷ d) = let rest = remove k d in if j == k then rest else (j, v) ∷ rest

-- The `finally` block of `stream`: the queue goes, and the entry of an incident with no queue.
unfoldable pub unsubscribe : Uuid → ℕ → EventBroker → EventBroker
unfolding get put without_queue remove
unsubscribe incident name b =
    let left = without_queue name (or_empty (get incident b.subscribers)) in
    record b {
      subscribers = elim left [
        | [] ↦ remove incident b.subscribers
        | q ∷ qs ↦ put incident (q ∷ qs) b.subscribers
      ];
    }

-- Events published one after another.
unfoldable pub publish_all : List AgentEvent → EventBroker → EventBroker
publish_all [] b = b
publish_all (e ∷ es) b = publish_all es (publish e b)
