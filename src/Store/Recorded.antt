-- ===== src/Store/Recorded.antt =====
-- Recording an outcome keeps memory and operational state consistent
-- (backend/src/postmortem_backend/adapters/fakes.py, `record_outcome`).
use ckdb_aws.Base.{
  List, ap, arith, inl, inr, nat_eq, none, refl, some, string_eq, sym, true, ◌∙◌, ◌≡◌, ◌≢◌, ◌⊎◌,
}
use ckdb_aws.Base.Dict.{find?-none, get, get-put_ne, get-put_self}
use ckdb_aws.Domain.{Float, OutcomeCommand, Text, Uuid, outcome_value, text_eq}
use ckdb_aws.Store.{
  ActionRow, EpisodeRow, IncidentRow, Store, Tables, action_episode, outcome_episode,
}
use ckdb_aws.Store.Linked.{Consistent, episode_outcome, episode_target, id_cases}
use ckdb_aws.Store.Outcome.{is_outcome_of, outcome_row, record_outcome, resolve}
use ckdb_aws.Store.Replay.{IsNew, outcome_cases, outcome_tables}

is_outcome_of_lem :
    (a e : Uuid) (x : EpisodeRow) (o : Text)
    → episode_outcome x ≡ some (a, o)
    → is_outcome_of a (e, x) ≡ true
is_outcome_of_lem a e (action_episode _ _ _ _ _ _ _ _ _ _ _ _) o h = cc
is_outcome_of_lem a e (outcome_episode _ _ _ _ _ _ _ _ _ _ _ _ _ _ _ _) o h = ground arith

module _ (event_id : Uuid) (c : OutcomeCommand) (embedding : List Float) (incident : IncidentRow)
    (action : ActionRow) (t : Tables) (new : IsNew c incident action t)
    (fresh : get event_id t.episodes ≡ none) (h : Consistent t) where
  abbrev after : Tables
  after = outcome_tables event_id c embedding incident action t

  -- No episode before the call holds an outcome of the action.
  none_before :
      (e : Uuid) (x : EpisodeRow) (o : Text)
      → get e t.episodes ≡ some x
      → episode_outcome x ≢ some (c.action_id, o)
  none_before e x o g q = cc (
    find?-none (is_outcome_of c.action_id) t.episodes e x new.unrecorded g,
    is_outcome_of_lem c.action_id e x o q,
  )

  kept : (e : Uuid) (x : EpisodeRow) → get e t.episodes ≡ some x → get e after.episodes ≡ some x
  kept e x g = elim (id_cases event_id e) [
    | inl p ↦ cc (fresh, p, g)
    | inr ne ↦ get-put_ne event_id e _ t.episodes ne ∙ g
  ]

  -- An outcome that stands after the call is the new one, or stood before and is of another action.
  outcome_split :
      (e : Uuid) (x : EpisodeRow) (a : Uuid) (o : Text)
      → get e after.episodes ≡ some x
      → episode_outcome x ≡ some (a, o)
      → ((event_id ≡ e) × (c.action_id ≡ a) × (outcome_value c.outcome ≡ o))
        ⊎ ((get e t.episodes ≡ some x) × (c.action_id ≢ a))
  unfolding outcome_row
  outcome_split e x a o g q = elim (id_cases event_id e) [
    | inl p ↦
        let at =
          get-put_self event_id
            (outcome_row c embedding (resolve c.outcome c.observed_at incident)
              (record action { outcome = outcome_value c.outcome }))
            t.episodes in
        inl (p, cc (at, p, g, q), cc (at, p, g, q))
    | inr ne ↦
        let old = sym (get-put_ne event_id e _ t.episodes ne) ∙ g in
        inr (old, λ same. none_before e x o old (rw same q))
  ]

  new_row :
      (j : Uuid) (row : ActionRow)
      → get j after.remediation_actions ≡ some row
      → (old : ActionRow) × (get j t.remediation_actions ≡ some old)
        × (row.memory_ref ≡ old.memory_ref)
        × (row.incident_id ≡ old.incident_id)
        × (row.target_id ≡ old.target_id)
  new_row j row g = elim (id_cases c.action_id j) [
    | inl p ↦
        let at =
          get-put_self c.action_id (record action { outcome = outcome_value c.outcome })
            t.remediation_actions in
        let same : record action { outcome = outcome_value c.outcome } ≡ row = cc (at, p, g) in
        (action, rw (← p) new.action_at, cc same, cc same, cc same)
    | inr ne ↦
        (row, sym (get-put_ne c.action_id j _ t.remediation_actions ne) ∙ g, refl, refl, refl)
  ]

  -- An action that stood before stands after, and refers to the same episode.
  old_row :
      (j : Uuid) (old : ActionRow)
      → get j t.remediation_actions ≡ some old
      → (row : ActionRow) × (get j after.remediation_actions ≡ some row)
        × (row.memory_ref ≡ old.memory_ref)
  old_row j old g = elim (id_cases c.action_id j) [
    | inl p ↦
        let same : action ≡ old = cc (new.action_at, p, g) in
        (
          record action { outcome = outcome_value c.outcome },
          rw (← p) (get-put_self c.action_id _ t.remediation_actions),
          ap (λ (r : ActionRow). r.memory_ref) same,
        )
    | inr ne ↦ (old, get-put_ne c.action_id j _ t.remediation_actions ne ∙ g, refl)
  ]

  old_recorded :
      (e : Uuid) (x : EpisodeRow) (p : Uuid × Uuid)
      → get e after.episodes ≡ some x
      → episode_target x ≡ some p
      → (a : Uuid) × (row : ActionRow) × (get a after.remediation_actions ≡ some row)
        × (row.memory_ref ≡ e)
  unfolding outcome_row
  old_recorded e x p g of = elim (id_cases event_id e) [
    | inl same ↦
        let at =
          get-put_self event_id
            (outcome_row c embedding (resolve c.outcome c.observed_at incident)
              (record action { outcome = outcome_value c.outcome }))
            t.episodes in
        absurd (cc (at, same, g, of))
    | inr ne ↦
        let (a, old, at, ref) =
          h.recorded e x p (sym (get-put_ne event_id e _ t.episodes ne) ∙ g) of in
        let (row, held, kept_ref) = old_row a old at in (a, row, held, kept_ref ∙ ref)
  ]

  outcome_tables-Consistent : Consistent after
  outcome_tables-Consistent = record {
    linked = λ j row g.
        let (old, at, ref, inc, target) = new_row j row g in
        let (x, held, of) = h.linked j old at in
        (x, rw ref (kept old.memory_ref x held), rw (inc, target) of);
    distinct = λ a b row row' g g' same.
        let (old, at, ref, _, _) = new_row a row g in
        let (old', at', ref', _, _) = new_row b row' g' in
        h.distinct a b old old' at at' (sym ref ∙ (same ∙ ref'));
    recorded = old_recorded;
    agreed = λ e x a o g q. elim (outcome_split e x a o g q) [
      | inl (_, p, v) ↦ (
        record action { outcome = outcome_value c.outcome },
        rw (← p) (get-put_self c.action_id _ t.remediation_actions),
        v,
      )
      | inr (old, ne) ↦
          let (row, at, eq) = h.agreed e x a o old q in
          (row, get-put_ne c.action_id a _ t.remediation_actions ne ∙ at, eq)
    ];
    single = λ e f x y a o p g q g' q'. elim (outcome_split e x a o g q) [
      | inl (here, same, _) ↦ elim (outcome_split f y a p g' q') [
        | inl (there, _, _) ↦ sym here ∙ there
        | inr (_, ne) ↦ absurd (ne same)
      ]
      | inr (old, ne) ↦ elim (outcome_split f y a p g' q') [
        | inl (_, same, _) ↦ absurd (ne same)
        | inr (old', _) ↦ h.single e f x y a o p old q old' q'
      ]
    ];
  }

-- Recording an outcome, on every branch, keeps the invariant.
pub outcome-Consistent :
    (event_id : Uuid) (c : OutcomeCommand) (embedding : List Float) (s : Store)
    → get event_id s.tables.episodes ≡ none
    → Consistent s.tables
    → Consistent (record_outcome event_id c embedding s).1.tables
outcome-Consistent event_id c embedding s fresh h = elim (outcome_cases event_id c embedding s) [
  | inl same ↦ rw same h
  | inr (incident, action, new, same) ↦
      rw same (outcome_tables-Consistent event_id c embedding incident action s.tables new fresh h)
]
