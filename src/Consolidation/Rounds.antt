-- ===== src/Consolidation/Rounds.antt =====
-- What one round of the loop over the groups does to the runbooks (consolidation/postmortem_consolidation/pipeline.py).
use ckdb_aws.Action.{return, then_with, ◌>>=◌, ◌>>◌}
use ckdb_aws.Base.{
  List, Option-cases, Result, Result-cases, ap, err, inl, inr, nat_eq, ok, ok-injective, ok-ne-err,
  refl, some, string_eq, subst, sym, ◌∙◌, ◌≡◌, ◌⊎◌,
}
use ckdb_aws.Base.Dict.{get}
use ckdb_aws.Consolidation.Apply.{apply}
use ckdb_aws.Consolidation.Grouping.{EpisodeGroup, group_key, incident_eq}
use ckdb_aws.Consolidation.Pipeline.{Outside, World, on_outside, process_group}
use ckdb_aws.Consolidation.Replay.{apply-kept, apply_fresh, apply_old, change_kept}
use ckdb_aws.Consolidation.Repository.{CandidateRunbook, Repository, RunbookMutation, key_eq, noop}
use ckdb_aws.Domain.{Error, Text, Value, text_eq}

-- The key has been applied.
abbrev pub Has : Text → Repository → Type 0
Has k s = (m : RunbookMutation) × (get k s.processed ≡ some m)

module _ (hash : List Value → Text) where
  apply-persists :
      (c : CandidateRunbook) (k j : Text) (s : Repository) → Has j s → Has j (apply hash c k s).1
  apply-persists c k j s (m, h) = (m, apply-kept hash c k j s m h)

  apply-Has :
      (c : CandidateRunbook) (k : Text) (s : Repository) (m : RunbookMutation)
      → (apply hash c k s).0 ≡ ok m
      → Has k (apply hash c k s).1
  apply-Has c k s m h = elim (Option-cases (get k s.processed)) [
    | inr (old, p) ↦ (old, ap (λ x. get k x.1.processed) (apply_old hash c k s old p) ∙ p)
    | inl p ↦
        let e = apply_fresh hash c k s p in
        (m, ap (λ x. get k x.1.processed) e ∙ change_kept hash c k s m (rw e at h))
  ]

-- What follows the candidate in a round leaves the repository as it is.
archived :
    {E : Type 0} (f : E → Result Error (Unit {0}) × E) (r : Result Error RunbookMutation)
    (t : World E)
    → let out = then_with (r, t) (λ mutation. on_outside f >> return {W = World E} mutation) in
      (out.1.repository ≡ t.repository) × ((m : RunbookMutation) → out.0 ≡ ok m → r ≡ ok m)
unfolding ◌>>=◌
archived f (err e) t = (refl, λ m h. h)
archived f (ok n) t = elim (Result-cases (f t.outside).0) [
  | inl (u, p) ↦ (rw p refl, rw p (λ m h. h))
  | inr (e, p) ↦ (rw p refl, rw p (λ m h. absurd (ok-ne-err (sym h))))
]

module _ {E : Type 0} (outside : Outside E) (sha256 : Text → Text) (hash : List Value → Text) where
  -- What a round does to the repository: nothing if it raises before the candidate is applied.
  GroupRound : EpisodeGroup → World E → Type 0
  GroupRound g w =
      let out = process_group outside sha256 hash g w in
      (((e : Error) × (out.0 ≡ err e)) × (out.1.repository ≡ w.repository))
      ⊎ ((c : CandidateRunbook) × (out.1.repository
            ≡ (apply hash c (group_key sha256 g) w.repository).1)
          × ((m : RunbookMutation)
              → out.0 ≡ ok m
              → (apply hash c (group_key sha256 g) w.repository).0 ≡ ok m))

  group_round : (g : EpisodeGroup) (w : World E) → GroupRound g w
  unfolding process_group GroupRound ◌>>=◌
  group_round g w = elim (Result-cases (outside.consolidate g w.outside).0) [
    | inr (e, p) ↦ inl ((e, rw p refl), rw p refl)
    | inl (result, p) ↦
        let w₁ = (outside.consolidate g w.outside).1 in
        elim (Result-cases (outside.embed result.candidate.trigger_desc w₁).0) [
          | inr (e, q) ↦ inl ((e, rw (p, q) refl), rw (p, q) refl)
          | inl (embedding, q) ↦ inr (
            record (result.candidate) { embedding = embedding },
            rw (p, q) (archived (outside.archive _ (group_key sha256 g)) _ _).0,
            rw (p, q) (archived (outside.archive _ (group_key sha256 g)) _ _).1,
          )
        ]
  ]

  pub group_persists :
      (g : EpisodeGroup) (j : Text) (w : World E)
      → Has j w.repository
      → Has j (process_group outside sha256 hash g w).1.repository
  unfolding GroupRound
  group_persists g j w h = elim (group_round g w) [
    | inl (_, same) ↦ subst (Has j) (sym same) h
    | inr (c, is, _) ↦
        subst (Has j) (sym is) (apply-persists hash c (group_key sha256 g) j w.repository h)
  ]

  pub process_group-Has :
      (g : EpisodeGroup) (w : World E) (m : RunbookMutation)
      → (process_group outside sha256 hash g w).0 ≡ ok m
      → Has (group_key sha256 g) (process_group outside sha256 hash g w).1.repository
  unfolding GroupRound
  process_group-Has g w m h = elim (group_round g w) [
    | inl ((e, raised), _) ↦ absurd (ok-ne-err (sym h ∙ raised))
    | inr (c, is, from) ↦
        subst (Has (group_key sha256 g)) (sym is)
          (apply-Has hash c (group_key sha256 g) w.repository m (from m h))
  ]

  pub group_again :
      (g : EpisodeGroup) (w : World E)
      → Has (group_key sha256 g) w.repository
      → ((process_group outside sha256 hash g w).1.repository ≡ w.repository)
        × ((m : RunbookMutation)
            → (process_group outside sha256 hash g w).0 ≡ ok m
            → m.operation ≡ noop)
  unfolding GroupRound
  group_again g w (old, p) = elim (group_round g w) [
    | inl ((e, raised), same) ↦ (same, λ m h. absurd (ok-ne-err (sym h ∙ raised)))
    | inr (c, is, from) ↦
        let e = apply_old hash c (group_key sha256 g) w.repository old p in
        (
          is ∙ ap (λ x. x.1) e,
          λ m h.
              ap (λ (x : RunbookMutation). x.operation)
                (sym (ok-injective (sym (ap (λ x. x.0) e) ∙ from m h))),
        )
  ]
