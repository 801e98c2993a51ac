-- ===== src/Store/Linked.antt =====
-- The invariant of the transaction store of
-- backend/src/postmortem_backend/adapters/fakes.py: memory and operational state agree.
use ckdb_aws.Base.{
  List, Option, Result-cases, ap, arith, inl, inr, nat_eq, none, some, string_eq, sym, ◌∙◌, ◌≡◌,
  ◌≢◌, ◌⊎◌,
}
use ckdb_aws.Base.Dict.{get}
use ckdb_aws.Domain.{Float, RemediationCommand, Text, Uuid, text_eq}
use ckdb_aws.Store.{ActionRow, EpisodeRow, Store, Tables, action_episode, outcome_episode}
use ckdb_aws.Store.Atomic.{remediate_error}
use ckdb_aws.Store.Committed.{Committed, remediate_commits}
use ckdb_aws.Store.Remediate.{Ids, remediate_and_record, seed_missing}

-- The incident and the service of an action episode.
abbrev pub episode_target : EpisodeRow → Option (Uuid × Uuid)
episode_target (action_episode _ _ i _ s _ _ _ _ _ _ _) = some (i, s)
episode_target (outcome_episode _ _ _ _ _ _ _ _ _ _ _ _ _ _ _ _) = none

-- The action of an outcome episode, and the outcome that it holds.
abbrev pub episode_outcome : EpisodeRow → Option (Uuid × Text)
episode_outcome (action_episode _ _ _ _ _ _ _ _ _ _ _ _) = none
episode_outcome (outcome_episode _ _ _ _ _ o a _ _ _ _ _ _ _ _ _) = some (a, o)

pub record Consistent (t : Tables) : Type 0 where
  -- an action refers to an episode of the same incident and service
  pub linked :
      (a : Uuid) (row : ActionRow)
      → get a t.remediation_actions ≡ some row
      → (x : EpisodeRow) × (get row.memory_ref t.episodes ≡ some x)
        × (episode_target x ≡ some (row.incident_id, row.target_id))
  -- no two actions refer to the same episode
  pub distinct :
      (a b : Uuid) (row row' : ActionRow)
      → get a t.remediation_actions ≡ some row
      → get b t.remediation_actions ≡ some row'
      → row.memory_ref ≡ row'.memory_ref
      → a ≡ b
  -- each episode of an action has an action that refers to it
  pub recorded :
      (e : Uuid) (x : EpisodeRow) (p : Uuid × Uuid)
      → get e t.episodes ≡ some x
      → episode_target x ≡ some p
      → (a : Uuid) × (row : ActionRow) × (get a t.remediation_actions ≡ some row)
        × (row.memory_ref ≡ e)
  -- the outcome that memory holds of an action is the outcome of the action
  pub agreed :
      (e : Uuid) (x : EpisodeRow) (a : Uuid) (o : Text)
      → get e t.episodes ≡ some x
      → episode_outcome x ≡ some (a, o)
      → (row : ActionRow) × (get a t.remediation_actions ≡ some row) × (row.outcome ≡ o)
  -- memory holds one outcome of an action at most
  pub single :
      (e f : Uuid) (x y : EpisodeRow) (a : Uuid) (o p : Text)
      → get e t.episodes ≡ some x
      → episode_outcome x ≡ some (a, o)
      → get f t.episodes ≡ some y
      → episode_outcome y ≡ some (a, p)
      → e ≡ f

-- The ids that a call draws are not in use.
pub record Fresh (ids : Ids) (t : Tables) : Type 0 where
  pub event : get ids.event_id t.episodes ≡ none
  pub action : get ids.action_id t.remediation_actions ≡ none

pub id_cases : (a b : Uuid) → (a ≡ b) ⊎ (a ≢ b)
id_cases a b = ground arith

module _ (ids : Ids) (c : RemediationCommand) (embedding : List Float) (t u : Tables)
    (w : Committed ids c embedding t u) (f : Fresh ids t) (h : Consistent t) where
  kept_episode : (e : Uuid) (x : EpisodeRow) → get e t.episodes ≡ some x → get e u.episodes ≡ some x
  kept_episode e x g = elim (id_cases ids.event_id e) [
    | inl p ↦ cc (f.event, p, g)
    | inr ne ↦ w.other_episodes e ne ∙ g
  ]

  kept_action :
      (a : Uuid) (row : ActionRow)
      → get a t.remediation_actions ≡ some row
      → get a u.remediation_actions ≡ some row
  kept_action a row g = elim (id_cases ids.action_id a) [
    | inl p ↦ cc (f.action, p, g)
    | inr ne ↦ w.other_actions a ne ∙ g
  ]

  old_outcome :
      (e : Uuid) (x : EpisodeRow) (ao : Uuid × Text)
      → get e u.episodes ≡ some x
      → episode_outcome x ≡ some ao
      → get e t.episodes ≡ some x
  old_outcome e x ao g o = elim (id_cases ids.event_id e) [
    | inl p ↦ cc (w.episode, p, g, o)
    | inr ne ↦ sym (w.other_episodes e ne) ∙ g
  ]

  new_linked :
      (row : ActionRow)
      → get ids.action_id u.remediation_actions ≡ some row
      → (x : EpisodeRow) × (get row.memory_ref u.episodes ≡ some x)
        × (episode_target x ≡ some (row.incident_id, row.target_id))
  new_linked row g =
      let (new, at, ref, inc, target, _, _) = w.action in
      let same : new ≡ row = cc (at, g) in
      (
        _,
        ap (λ r. get r u.episodes) (ap (λ (r : ActionRow). r.memory_ref) (sym same) ∙ ref)
            ∙ w.episode,
        cc (same, inc, target),
      )

  -- An action that stood before refers to no new episode.
  new_ref :
      (b : Uuid) (row : ActionRow)
      → ids.action_id ≢ b
      → get b u.remediation_actions ≡ some row
      → row.memory_ref ≢ ids.event_id
  new_ref b row ne g same =
      let (x, at, _) = h.linked b row (sym (w.other_actions b ne) ∙ g) in cc (f.event, at, same)

  ref_of_new :
      (row : ActionRow)
      → get ids.action_id u.remediation_actions ≡ some row
      → row.memory_ref ≡ ids.event_id
  ref_of_new row g = let (new, at, ref, _, _, _, _) = w.action in cc (at, g, ref)

  new_distinct :
      (a b : Uuid) (row row' : ActionRow)
      → get a u.remediation_actions ≡ some row
      → get b u.remediation_actions ≡ some row'
      → row.memory_ref ≡ row'.memory_ref
      → a ≡ b
  new_distinct a b row row' g g' same = elim (id_cases ids.action_id a) [
    | inl p ↦ elim (id_cases ids.action_id b) [
      | inl q ↦ sym p ∙ q
      | inr ne ↦ absurd (new_ref b row' ne g' (sym same ∙ ref_of_new row (rw p g)))
    ]
    | inr ne ↦ elim (id_cases ids.action_id b) [
      | inl q ↦ absurd (new_ref a row ne g (same ∙ ref_of_new row' (rw q g')))
      | inr ne' ↦
          h.distinct a b row row' (sym (w.other_actions a ne) ∙ g)
            (sym (w.other_actions b ne') ∙ g') same
    ]
  ]

  new_recorded :
      (e : Uuid) (x : EpisodeRow) (p : Uuid × Uuid)
      → get e u.episodes ≡ some x
      → episode_target x ≡ some p
      → (a : Uuid) × (row : ActionRow) × (get a u.remediation_actions ≡ some row)
        × (row.memory_ref ≡ e)
  new_recorded e x p g of = elim (id_cases ids.event_id e) [
    | inl same ↦ let (row, at, ref, _, _, _, _) = w.action in (ids.action_id, row, at, ref ∙ same)
    | inr ne ↦
        let (a, row, at, ref) = h.recorded e x p (sym (w.other_episodes e ne) ∙ g) of in
        (a, row, kept_action a row at, ref)
  ]

  Committed-Consistent : Consistent u
  Committed-Consistent = record {
    linked = λ a row g. elim (id_cases ids.action_id a) [
      | inl p ↦ new_linked row (rw p g)
      | inr ne ↦
          let (x, at, target) = h.linked a row (sym (w.other_actions a ne) ∙ g) in
          (x, kept_episode _ x at, target)
    ];
    distinct = new_distinct;
    recorded = new_recorded;
    agreed = λ e x a o g q.
        let (row, at, eq) = h.agreed e x a o (old_outcome e x (a, o) g q) q in
        (row, kept_action a row at, eq);
    single = λ e f' x y a o p g q g' q'.
        h.single e f' x y a o p (old_outcome e x (a, o) g q) q (old_outcome f' y (a, p) g' q') q';
  }

-- Rows of `services` and `incidents`, and counts, are not part of it.
pub Consistent-of :
    (t u : Tables)
    → t.episodes ≡ u.episodes
    → t.remediation_actions ≡ u.remediation_actions
    → Consistent t
    → Consistent u
Consistent-of t u e a h = record {
  linked = rw (← e, ← a) h.linked;
  distinct = rw (← a) h.distinct;
  recorded = rw (← e, ← a) h.recorded;
  agreed = rw (← e, ← a) h.agreed;
  single = rw (← e) h.single;
}

seed_missing-episodes :
    (c : RemediationCommand) (s : Store)
    → ((seed_missing c s).tables.episodes ≡ s.tables.episodes)
      × ((seed_missing c s).tables.remediation_actions ≡ s.tables.remediation_actions)
unfolding seed_missing
seed_missing-episodes c s = ground arith

-- A remediation, committed or not, keeps the invariant.
pub remediate-Consistent :
    (ids : Ids) (c : RemediationCommand) (embedding : List Float) (s : Store)
    → Fresh ids s.tables
    → Consistent s.tables
    → Consistent (remediate_and_record ids c embedding s).1.tables
remediate-Consistent ids c embedding s f h =
    let (episodes, actions) = seed_missing-episodes c s in
    let seeded = Consistent-of s.tables (seed_missing c s).tables (sym episodes) (sym actions) h in
    elim (Result-cases (remediate_and_record ids c embedding s).0) [
      | inl (r, e) ↦
          let (_, w, _, _) = remediate_commits ids c embedding s r e in
          Committed-Consistent ids c embedding (seed_missing c s).tables _ w
            (record { event = rw episodes f.event; action = rw actions f.action }) seeded
      | inr (x, e) ↦ elim (remediate_error ids c embedding s x e) [
        | inl (_, same) ↦ rw same h
        | inr (_, same) ↦ rw same seeded
      ]
    ]
