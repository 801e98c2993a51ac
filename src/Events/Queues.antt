-- ===== src/Events/Queues.antt =====
-- What a subscriber of one incident is given (backend/src/postmortem_backend/events.py).
use mathlib.Core.List.{append-nil, append_assoc}
use ckdb_aws.Base.{
  Bool-cases, List, [], ap, arith, if◌then◌else◌, inl, inr, leb, length, length-append, map, nat_eq,
  refl, some, string_eq, suc, sym, take, take-full, take-short, zero, ℕ, ◌++◌, ◌==◌, ◌∙◌, ◌∷◌, ◌≡◌,
  ◌≤◌,
}
use ckdb_aws.Base.Dict.{get, get-put, get-put_self}
use ckdb_aws.Domain.{Uuid, text_eq}
use ckdb_aws.Events.{
  AgentEvent, EventBroker, Queue, find_queue, new_broker, offer, or_empty, pending, publish,
  publish_all, subscribe,
}
use ckdb_aws.Events.History.{history_latest, of_incident, take_last}

-- What a queue with a `maxsize` keeps of what it is offered, where 0 is no bound.
abbrev pub within {ℓ} : {A : Type ℓ} → ℕ → List A → List A
within zero xs = xs
within (suc n) xs = take (suc n) xs

-- No more items than the `maxsize` allows.
abbrev pub Fits {ℓ} : {A : Type ℓ} → ℕ → List A → Type 0
Fits zero xs = Unit
Fits (suc n) xs = length xs ≤ suc n

within-Fits : (limit : ℕ) (xs : List AgentEvent) → Fits limit xs → within limit xs ≡ xs
within-Fits zero xs h = refl
within-Fits (suc n) xs h = take-short (suc n) xs h

queues_of : Uuid → EventBroker → List Queue
queues_of i b = or_empty (get i b.subscribers)

find_queue-offer :
    (limit name : ℕ) (e : AgentEvent) (qs : List Queue) (q : Queue)
    → find_queue name qs ≡ some q
    → find_queue name (map (offer limit e) qs) ≡ some (offer limit e q)
unfolding find_queue offer
find_queue-offer limit name e [] q h = ground arith
find_queue-offer limit name e (p ∷ qs) q h = ground (arith, find_queue-offer limit name e qs q)

offer_full : (n : ℕ) (e : AgentEvent) (q : Queue) → length q.items ≡ suc n → offer (suc n) e q ≡ q
unfolding offer
offer_full n e q h = ground arith

offer_room :
    (n : ℕ) (e : AgentEvent) (q : Queue)
    → length q.items ≤ n
    → (offer (suc n) e q).items ≡ q.items ++ e ∷ []
unfolding offer
offer_room n e q h = ground arith

offer-keeps :
    (limit : ℕ) (e : AgentEvent) (es : List AgentEvent) (q : Queue)
    → Fits limit q.items
    → Fits limit (offer limit e q).items
      × within limit ((offer limit e q).items ++ es) ≡ within limit (q.items ++ e ∷ es)
unfolding offer
offer-keeps zero e es q h = (tt, append_assoc q.items (e ∷ []) es)
offer-keeps (suc n) e es q h = elim (Bool-cases (leb (suc n) (length q.items))) [
  | inl p ↦
      let full : length q.items ≡ suc n = ground arith in
      rw (offer_full n e q full)
        (h, take-full (suc n) q.items es full ∙ sym (take-full (suc n) q.items (e ∷ es) full))
  | inr p ↦
      let room : length q.items ≤ n = ground arith in
      rw (offer_room n e q room) (
        omega (arith, length-append q.items (e ∷ [])),
        ap (take (suc n)) (append_assoc q.items (e ∷ []) es),
      )
]

queues-publish :
    (i : Uuid) (e : AgentEvent) (b : EventBroker)
    → queues_of i (publish e b) ≡ (
        if e.incident_id == i
        then map (offer b.subscriber_queue_limit e) (queues_of i b)
        else queues_of i b)
unfolding publish queues_of
queues-publish i e b = ground (
  arith,
  get-put e.incident_id i
      (map (offer b.subscriber_queue_limit e) (or_empty (get e.incident_id b.subscribers)))
      b.subscribers,
)

subscriber_limit-publish :
    (e : AgentEvent) (b : EventBroker)
    → (publish e b).subscriber_queue_limit ≡ b.subscriber_queue_limit
unfolding publish
subscriber_limit-publish e b = refl

queue-publish :
    (i : Uuid) (name : ℕ) (e : AgentEvent) (b : EventBroker) (q : Queue)
    → find_queue name (queues_of i b) ≡ some q
    → find_queue name (queues_of i (publish e b))
      ≡ some (if e.incident_id == i then offer b.subscriber_queue_limit e q else q)
queue-publish i name e b q h =
    ap (find_queue name) (queues-publish i e b) ∙ elim (Bool-cases (e.incident_id == i)) [
      | inl p ↦ rw p (find_queue-offer b.subscriber_queue_limit name e (queues_of i b) q h)
      | inr p ↦ rw p h
    ]

-- What the queue ends with, given what it held.
queue_holds :
    (i : Uuid) (name limit : ℕ) (es : List AgentEvent) (b : EventBroker) (q : Queue)
    → b.subscriber_queue_limit ≡ limit
    → Fits limit q.items
    → find_queue name (queues_of i b) ≡ some q
    → pending i name (publish_all es b) ≡ within limit (q.items ++ of_incident i es)
unfolding publish_all pending queues_of
queue_holds i name limit [] b q same fits h =
    rw (pending, h) (rw append-nil (sym (within-Fits limit q.items fits)))
queue_holds i name limit (e ∷ es) b q same fits h =
    let kept = offer-keeps limit e (of_incident i es) q fits in
    let after = queue-publish i name e b q h in
    let still = subscriber_limit-publish e b ∙ same in
    elim (Bool-cases (e.incident_id == i)) [
      | inl p ↦ rw p (
          queue_holds i name limit es (publish e b) (offer limit e q) still kept.0
            (after ∙ rw (p, same) refl)
          ∙ kept.1)
      | inr p ↦ rw p (queue_holds i name limit es (publish e b) q still fits (after ∙ rw p refl))
    ]

empty-Fits : (limit : ℕ) → Fits limit (let e : List AgentEvent = [] in e)
empty-Fits zero = tt
empty-Fits (suc n) = omega arith

newest :
    (i : Uuid) (name : ℕ) (b : EventBroker)
    → find_queue name (queues_of i (subscribe i name b).1)
      ≡ some (record { name = name; items = [] })
unfolding subscribe queues_of find_queue
newest i name b = ground (
  arith,
  get-put_self i (record { name = name; items = [] } ∷ or_empty (get i b.subscribers))
      b.subscribers,
)

stream_queue :
    (i : Uuid) (name : ℕ) (es : List AgentEvent) (b : EventBroker)
    → pending i name (publish_all es (subscribe i name b).1)
      ≡ within b.subscriber_queue_limit (of_incident i es)
unfolding subscribe
stream_queue i name es b =
    queue_holds i name b.subscriber_queue_limit es (subscribe i name b).1
      (record { name = name; items = [] }) refl (empty-Fits b.subscriber_queue_limit)
      (newest i name b)

subscriber_limit-publish_all :
    (es : List AgentEvent) (b : EventBroker)
    → (publish_all es b).subscriber_queue_limit ≡ b.subscriber_queue_limit
unfolding publish_all
subscriber_limit-publish_all [] b = refl
subscriber_limit-publish_all (e ∷ es) b =
    subscriber_limit-publish_all es (publish e b) ∙ subscriber_limit-publish e b

-- A stream of an incident that starts after the events `past` and before the events `later` is
-- given the latest of the incident's events in `past`, as many as the history keeps, and then has
-- in its queue the first of the incident's events in `later`, as many as the queue has room for
-- (all of them where the queue has no bound). Both are in the order in which they were published.
pub stream_complete :
    (history_limit queue_limit : ℕ) (i : Uuid) (name : ℕ) (past later : List AgentEvent)
    → let started = subscribe i name (publish_all past (new_broker history_limit queue_limit)) in
      started.0 ++ pending i name (publish_all later started.1)
      ≡ take_last history_limit (of_incident i past) ++ within queue_limit (of_incident i later)
unfolding subscribe new_broker
stream_complete history_limit queue_limit i name past later =
    let start = new_broker history_limit queue_limit in
    ap (λ a. a ++ pending i name (publish_all later (subscribe i name (publish_all past start)).1))
      (history_latest history_limit queue_limit i past)
    ∙ ap (λ c. take_last history_limit (of_incident i past) ++ c)
        (stream_queue i name later (publish_all past start)
          ∙ ap (λ n. within n (of_incident i later)) (subscriber_limit-publish_all past start))
