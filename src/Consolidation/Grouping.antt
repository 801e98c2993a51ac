-- ===== src/Consolidation/Grouping.antt =====
-- consolidation/postmortem_consolidation/grouping.py, and the events and groups of contracts.py.
-- A time is its microseconds since 1970, and a changefeed timestamp, a decimal number, is counted
-- in units of its last decimal place. `str` of a metadata value, lower case and the digest are
-- parameters.
use ckdb_aws.Base.{
  Bool, Eq, List, Option, [], arith, elem, get_last?, if◌then◌else◌, ltb, map, nat_eq, none, select,
  some, string_eq, true, ℕ, ◌&&◌, ◌++◌, ◌==◌, ◌||◌, ◌↔◌, ◌∷◌, ◌≡◌,
}
use ckdb_aws.Base.Dict.{Dict, get, put}
use ckdb_aws.Base.Sort.{sort}
use ckdb_aws.Consolidation.Repository.{RunbookOutcome, failed, key_eq, no_effect, success}
use ckdb_aws.Domain.{Fields, Text, Value, lookup, text, text_beq, text_beq_iff, text_eq, text_leb}

pub record ChangeEvent : Type 0 where
  pub event_id : Text
  pub org_id : Text
  pub agent_id : Text
  pub incident_id : Text
  pub service_id : Text
  pub event_type : Text
  pub content : Text
  pub occurred_at : ℕ
  pub updated_at : ℕ
  pub metadata : Fields

pub record EpisodeGroup : Type 0 where
  pub org_id : Text
  pub agent_id : Text
  pub incident_id : Text
  pub service_id : Text
  pub episodes : List ChangeEvent
  pub outcome : RunbookOutcome

-- `(event.occurred_at, event.event_id)`
unfoldable pub event_leb : ChangeEvent → ChangeEvent → Bool
unfolding text_leb
event_leb a b =
    ltb a.occurred_at b.occurred_at
    || (a.occurred_at == b.occurred_at && text_leb a.event_id b.event_id)

pub record IncidentKey : Type 0 where
  pub org_id : Text
  pub incident_id : Text

abbrev incident_beq : IncidentKey → IncidentKey → Bool
incident_beq a b = text_beq a.org_id b.org_id && text_beq a.incident_id b.incident_id

pub incident_beq_iff : (a b : IncidentKey) → (incident_beq a b ≡ true) ↔ (a ≡ b)
incident_beq_iff a b =
    ground (arith, text_beq_iff a.org_id b.org_id, text_beq_iff a.incident_id b.incident_id)

instance abbrev pub incident_eq : Eq IncidentKey
incident_eq = record { equal = incident_beq; equal_iff = incident_beq_iff }

-- The order of `sorted(grouped.items())`. Its keys differ, so no two lists are compared.
unfoldable pub item_leb : IncidentKey × List ChangeEvent → IncidentKey × List ChangeEvent → Bool
unfolding text_leb
item_leb (a, xs) (b, ys) =
    if text_beq a.org_id b.org_id
    then text_leb a.incident_id b.incident_id
    else text_leb a.org_id b.org_id

abbrev pub listed_events : Option (List ChangeEvent) → List ChangeEvent
listed_events none = []
listed_events (some es) = es

-- `grouped[(event.org_id, event.incident_id)].append(event)` for each event
unfoldable pub group_from :
    Dict IncidentKey (List ChangeEvent) → List ChangeEvent → Dict IncidentKey (List ChangeEvent)
unfolding get put
group_from d [] = d
group_from d (e ∷ es) =
    let key : IncidentKey = record { org_id = e.org_id; incident_id = e.incident_id } in
    group_from (put key (listed_events (get key d) ++ e ∷ []) d) es

-- What `outcome` of an event's metadata says, in lower case.
unfoldable pub parse_runbook_outcome : Text → Option RunbookOutcome
parse_runbook_outcome value =
    if elem value (text "success" ∷ text "resolved" ∷ [])
    then some success
    else if elem value (text "failed" ∷ text "failure" ∷ [])
    then some failed
    else if elem value (text "no_effect" ∷ text "no-effect" ∷ [])
    then some no_effect
    else none

module _ (lower : Text → Text) (str_of : Value → Text) where
  abbrev metadata_text : Option Value → Text
  metadata_text none = []
  metadata_text (some v) = str_of v

  -- `_outcome_for`
  unfoldable pub outcome_for : List ChangeEvent → Option RunbookOutcome
  unfolding parse_runbook_outcome
  outcome_for events =
      elim (get_last? (select (λ (e : ChangeEvent). e.event_type == text "outcome") events)) [
        | none ↦ none
        | some e ↦
            parse_runbook_outcome (lower (metadata_text (lookup (text "outcome") e.metadata)))
      ]

  -- The group of one incident, if it is complete.
  unfoldable pub completed_group : List ChangeEvent → Option EpisodeGroup
  unfolding outcome_for
  completed_group [] = none
  completed_group (first ∷ rest) = elim (outcome_for (first ∷ rest)) [
    | none ↦ none
    | some outcome ↦ some (record {
      org_id = first.org_id;
      agent_id = first.agent_id;
      incident_id = first.incident_id;
      service_id = first.service_id;
      episodes = first ∷ rest;
      outcome = outcome;
    })
  ]

  unfoldable pub groups_of : List (IncidentKey × List ChangeEvent) → List EpisodeGroup
  unfolding completed_group sort
  groups_of [] = []
  groups_of ((key, events) ∷ items) =
      let rest = groups_of items in
      elim (completed_group (sort event_leb events)) [ none ↦ rest | some g ↦ g ∷ rest ]

  unfoldable pub group_completed_incidents : List ChangeEvent → List EpisodeGroup
  unfolding groups_of sort group_from
  group_completed_incidents events = groups_of (sort item_leb (group_from [] events))

-- `"|".join(texts)`
abbrev join_bars : List Text → Text
join_bars [] = []
join_bars (t ∷ []) = t
join_bars (t ∷ u ∷ ts) = t ++ (text "|" ++ join_bars (u ∷ ts))

unfoldable pub group_key : (sha256 : Text → Text) → EpisodeGroup → Text
unfolding sort
group_key sha256 g = sha256 (
    g.org_id
    ++ (text ":"
        ++ (g.incident_id
            ++ (text ":"
                ++ join_bars (sort text_leb (map (λ (e : ChangeEvent). e.event_id) g.episodes))))))
