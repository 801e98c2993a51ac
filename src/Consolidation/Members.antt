-- ===== src/Consolidation/Members.antt =====
-- The events of a group (consolidation/postmortem_consolidation/grouping.py).
use mathlib.Core.Option.{none-ne-some, some-injective}
use ckdb_aws.Base.{
  All, All-append, All-map, List, Option-cases, [], inl, inr, nat_eq, refl, some, string_eq, subst,
  sym, ◌∙◌, ◌∷◌, ◌≡◌,
}
use ckdb_aws.Base.Dict.{All-get, All-put, Dict, get}
use ckdb_aws.Base.Sort.{All-sort, sort}
use ckdb_aws.Consolidation.Grouping.{
  ChangeEvent, EpisodeGroup, IncidentKey, completed_group, event_leb, group_completed_incidents,
  group_from, groups_of, incident_eq, item_leb, listed_events, outcome_for,
}
use ckdb_aws.Consolidation.Repository.{key_eq}
use ckdb_aws.Domain.{Text, Value, text_eq}

module _ (Q : ChangeEvent → Type 0) where
  -- An event that may stand under the key.
  Filed : IncidentKey → ChangeEvent → Type 0
  Filed k e = (e.org_id ≡ k.org_id) × (e.incident_id ≡ k.incident_id) × Q e

  Shelf : IncidentKey × List ChangeEvent → Type 0
  Shelf (k, es) = All (Filed k) es

  listed-Filed :
      (k : IncidentKey) (d : Dict IncidentKey (List ChangeEvent))
      → All Shelf d
      → All (Filed k) (listed_events (get k d))
  unfolding Shelf
  listed-Filed k d hs = elim (Option-cases (get k d)) [
    | inl p ↦ rw p tt
    | inr (es, p) ↦ rw p (All-get Shelf k es d hs p)
  ]

  group_from-Shelf :
      (es : List ChangeEvent) (d : Dict IncidentKey (List ChangeEvent))
      → All Q es
      → All Shelf d
      → All Shelf (group_from d es)
  unfolding group_from Shelf Filed
  group_from-Shelf [] d qs hs = hs
  group_from-Shelf (e ∷ es) d (q, qs) hs =
      let k : IncidentKey = record { org_id = e.org_id; incident_id = e.incident_id } in
      group_from-Shelf es _ qs (
        All-put Shelf k _ d
          (All-append (Filed k) _ (e ∷ []) (listed-Filed k d hs) ((refl, refl, q), tt)) hs)

  module _ (lower : Text → Text) (str_of : Value → Text) where
    -- The members of a group fit it.
    abbrev pub Sound : EpisodeGroup → Type 0
    Sound g =
        All (λ (e : ChangeEvent). (e.org_id ≡ g.org_id) × (e.incident_id ≡ g.incident_id) × Q e)
          g.episodes
        × (outcome_for lower str_of g.episodes ≡ some g.outcome)

    completed_group-Sound :
        (k : IncidentKey) (es : List ChangeEvent) (g : EpisodeGroup)
        → All (Filed k) es
        → completed_group lower str_of es ≡ some g
        → Sound g
    unfolding completed_group Filed
    completed_group-Sound k [] g hs h = absurd (none-ne-some g h)
    completed_group-Sound k (e ∷ es) g hs h =
        elim (Option-cases (outcome_for lower str_of (e ∷ es))) [
          | inl p ↦ absurd (none-ne-some g (rw (p, completed_group) at h))
          | inr (o, p) ↦
              subst Sound (some-injective _ _ (rw (p, completed_group) at h))
                (All-map (e ∷ es) (λ x (o₁, i₁, q₁). (o₁ ∙ sym hs.0.0, i₁ ∙ sym hs.0.1, q₁)) hs, p)
        ]

    groups_of-Sound :
        (items : List (IncidentKey × List ChangeEvent))
        → All Shelf items
        → All Sound (groups_of lower str_of items)
    unfolding groups_of Shelf
    groups_of-Sound [] hs = tt
    groups_of-Sound ((k, es) ∷ items) (h, hs) =
        let rest = groups_of-Sound items hs in
        elim (Option-cases (completed_group lower str_of (sort event_leb es))) [
          | inl p ↦ rw (p, All) rest
          | inr (g, p) ↦
              rw (p, All) (completed_group-Sound k _ g (All-sort event_leb (Filed k) es h) p, rest)
        ]

    -- If every event has the property Q, then each group of the completed incidents holds only
    -- events that have it, which are of the group's organization and incident, and the group's
    -- outcome is the one that these events, as the group orders them, state.
    pub group_completed_incidents-Sound :
        (es : List ChangeEvent) → All Q es → All Sound (group_completed_incidents lower str_of es)
    unfolding group_completed_incidents
    group_completed_incidents-Sound es qs =
        groups_of-Sound _ (All-sort item_leb Shelf _ (group_from-Shelf es [] qs tt))
