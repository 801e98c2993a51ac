-- ===== src/Events/History.antt =====
-- The history of an incident is a window on what was published
-- (backend/src/postmortem_backend/events.py).
use native.Mathlib.Nat.{zero-add}
use mathlib.Core.List.{append-nil, append_assoc}
use ckdb_aws.Base.{
  Bool-cases, List, [], ap, arith, drop, if◌then◌else◌, inl, inr, length, length-append, nat_eq,
  refl, select, string_eq, suc, sym, zero, ℕ, ◌++◌, ◌+◌, ◌-◌, ◌==◌, ◌∙◌, ◌∷◌, ◌≡◌, ◌≤◌,
}
use ckdb_aws.Base.Dict.{get, get-put}
use ckdb_aws.Domain.{Uuid, text_eq}
use ckdb_aws.Events.{
  AgentEvent, EventBroker, append_bounded, history_of, new_broker, or_empty, publish, publish_all,
}

-- The last `n` items.
abbrev pub take_last {ℓ} : {A : Type ℓ} → ℕ → List A → List A
take_last n xs = drop (length xs - n) xs

-- The events of one incident.
abbrev pub of_incident : Uuid → List AgentEvent → List AgentEvent
of_incident i = select (λ e. e.incident_id == i)

module _ {ℓ} {A : Type ℓ} where
  drop_nil : (k : ℕ) → drop k (let e : List A = [] in e) ≡ []
  drop_nil zero = refl
  drop_nil (suc k) = refl

  drop-drop : (a b : ℕ) (xs : List A) → drop a (drop b xs) ≡ drop (b + a) xs
  drop-drop a zero xs = rw zero-add
  drop-drop a (suc b) [] = drop_nil a ∙ sym (drop_nil (suc b + a))
  drop-drop a (suc b) (x ∷ xs) =
      let e : suc b + a ≡ suc (b + a) = omega arith in rw e (drop-drop a b xs)

  drop-append : (k : ℕ) (xs ys : List A) → k ≤ length xs → drop k xs ++ ys ≡ drop k (xs ++ ys)
  drop-append zero xs ys h = refl
  drop-append (suc k) [] ys h = absurd (omega arith)
  drop-append (suc k) (x ∷ xs) ys h = drop-append k xs ys (omega arith)

  length-drop : (k : ℕ) (xs : List A) → length (drop k xs) ≡ length xs - k
  length-drop zero xs = omega arith
  length-drop (suc k) [] = omega arith
  length-drop (suc k) (x ∷ xs) = omega (arith, length-drop k xs)

  append_bounded-take_last :
      (n : ℕ) (xs : List A) (x : A)
      → append_bounded n (take_last n xs) x ≡ take_last n (xs ++ x ∷ [])
  unfolding append_bounded
  append_bounded-take_last n xs x =
      let k : ℕ = length xs - n in
      let more : ℕ = length (drop k xs) + 1 - n in
      let sum : k + more ≡ length (xs ++ x ∷ []) - n =
        omega (arith, length-drop k xs, length-append xs (x ∷ [])) in
      ap (drop more) (drop-append k xs (x ∷ []) (omega arith))
      ∙ drop-drop more k (xs ++ x ∷ [])
      ∙ ap (λ m. drop m (xs ++ x ∷ [])) sum

history-publish :
    (i : Uuid) (e : AgentEvent) (b : EventBroker)
    → history_of i (publish e b) ≡ (
        if e.incident_id == i
        then append_bounded b.history_limit (history_of i b) e
        else history_of i b)
unfolding history_of publish
history-publish i e b = ground (
  arith,
  get-put e.incident_id i
      (append_bounded b.history_limit (or_empty (get e.incident_id b.history)) e) b.history,
)

limit-publish : (e : AgentEvent) (b : EventBroker) → (publish e b).history_limit ≡ b.history_limit
unfolding publish
limit-publish e b = refl

history_window :
    (i : Uuid) (es past : List AgentEvent) (b : EventBroker)
    → history_of i b ≡ take_last b.history_limit past
    → history_of i (publish_all es b) ≡ take_last b.history_limit (past ++ of_incident i es)
unfolding publish_all publish
history_window i [] past b h = rw append-nil h
history_window i (e ∷ es) past b h = elim (Bool-cases (e.incident_id == i)) [
  | inl p ↦ rw p (
      history_window i es (past ++ e ∷ []) (publish e b)
        (history-publish i e b ∙ rw (p, h) (append_bounded-take_last b.history_limit past e))
      ∙ ap (take_last b.history_limit) (append_assoc past (e ∷ []) (of_incident i es)))
  | inr p ↦ rw p (history_window i es past (publish e b) (history-publish i e b ∙ rw p h))
]

-- After any events, the history of an incident is the latest of its events, in the order in which
-- they were published, as many as the limit allows.
pub history_latest :
    (history_limit queue_limit : ℕ) (i : Uuid) (es : List AgentEvent)
    → history_of i (publish_all es (new_broker history_limit queue_limit))
      ≡ take_last history_limit (of_incident i es)
unfolding history_of get new_broker
history_latest history_limit queue_limit i es =
    history_window i es [] (new_broker history_limit queue_limit)
      (sym (drop_nil (0 - history_limit)))
