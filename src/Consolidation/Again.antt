-- ===== src/Consolidation/Again.antt =====
-- A window that is processed again (consolidation/postmortem_consolidation/pipeline.py).
use ckdb_aws.Base.{
  All, List, Result, [], ap, err, inl, inr, map_ok, map_ok-eq-ok, ok, ok-injective, ok-ne-err, refl,
  subst, sym, ◌∙◌, ◌∷◌, ◌≡◌, ◌⊎◌,
}
use ckdb_aws.Consolidation.Grouping.{EpisodeGroup, group_key}
use ckdb_aws.Consolidation.Pipeline.{Outside, World, process_group, process_groups}
use ckdb_aws.Consolidation.Repository.{Repository, RunbookMutation, key_eq, noop}
use ckdb_aws.Consolidation.Rounds.{Has, group_again, process_group-Has, group_persists}
use ckdb_aws.Domain.{Error, Text, Value}
use ckdb_aws.Action.Runs.{>>=-cases, >>=-return}
use ckdb_aws.Action.{return, ◌>>=◌}

abbrev pub Noop : RunbookMutation → Type 0
Noop m = m.operation ≡ noop

-- Whatever the pass returns, its mutations are no-ops.
abbrev pub OnlyNoops : Result Error (List RunbookMutation) → Type 0
OnlyNoops (ok ms) = All Noop ms
OnlyNoops (err e) = Unit

only_noops :
    (r : Result Error (List RunbookMutation))
    → ((ms : List RunbookMutation) → r ≡ ok ms → All Noop ms)
    → OnlyNoops r
only_noops (ok ms) h = h ms refl
only_noops (err e) h = tt

module _ {E : Type 0} (outside : Outside E) (sha256 : Text → Text) (hash : List Value → Text) where
  -- A round of the loop: it raises, or the loop goes on from where it returned.
  groups_step :
      (g : EpisodeGroup) (gs : List EpisodeGroup) (w : World E)
      → ((e : Error) × (w₁ : World E) × (process_group outside sha256 hash g w ≡ (err e, w₁))
          × (process_groups outside sha256 hash (g ∷ gs) w ≡ (err e, w₁)))
        ⊎ ((m : RunbookMutation) × (w₁ : World E) × (process_group outside sha256 hash g w
              ≡ (ok m, w₁))
            × (process_groups outside sha256 hash (g ∷ gs) w ≡ (
              map_ok (λ ms. m ∷ ms) (process_groups outside sha256 hash gs w₁).0,
              (process_groups outside sha256 hash gs w₁).1,
            )))
  unfolding process_groups
  groups_step g gs w =
      let run = process_groups outside sha256 hash gs in
      elim (>>=-cases (process_group outside sha256 hash g) (λ m. run >>= (λ ms. return (m ∷ ms)))
        w) [
          | inl (e, w₁, p, q) ↦ inl (e, w₁, p, q)
          | inr (m, w₁, p, q) ↦ inr (m, w₁, p, q ∙ >>=-return run (λ ms. m ∷ ms) w₁)
        ]

  groups_persist :
      (gs : List EpisodeGroup) (j : Text) (w : World E)
      → Has j w.repository
      → Has j (process_groups outside sha256 hash gs w).1.repository
  unfolding process_groups
  groups_persist [] j w h = h
  groups_persist (g ∷ gs) j w h =
      let kept = group_persists outside sha256 hash g j w h in
      elim (groups_step g gs w) [
        | inl (e, w₁, p, q) ↦ rw q (rw p at kept)
        | inr (m, w₁, p, q) ↦ rw q (groups_persist gs j w₁ (rw p at kept))
      ]

  -- Every group has been applied.
  abbrev pub Done : List EpisodeGroup → Repository → Type 0
  Done gs s = All (λ g. Has (group_key sha256 g) s) gs

  process_groups-Done :
      (gs : List EpisodeGroup) (w : World E) (ms : List RunbookMutation)
      → (process_groups outside sha256 hash gs w).0 ≡ ok ms
      → Done gs (process_groups outside sha256 hash gs w).1.repository
  process_groups-Done [] w ms h = tt
  process_groups-Done (g ∷ gs) w ms h = elim (groups_step g gs w) [
    | inl (e, w₁, p, q) ↦ absurd (ok-ne-err (sym h ∙ ap (λ x. x.0) q))
    | inr (m, w₁, p, q) ↦
        let k = group_key sha256 g in
        let (ms₁, r, _) = map_ok-eq-ok _ _ (sym (ap (λ x. x.0) q) ∙ h) in
        subst (λ x. Done (g ∷ gs) x.1.repository) (sym q)
          (
            groups_persist gs k w₁ (
                subst (λ x. Has k x.1.repository) p
                  (process_group-Has outside sha256 hash g w m (ap (λ x. x.0) p))),
            process_groups-Done gs w₁ ms₁ r,
          )
  ]

  groups_again :
      (gs : List EpisodeGroup) (w : World E)
      → Done gs w.repository
      → ((process_groups outside sha256 hash gs w).1.repository ≡ w.repository)
        × ((ms : List RunbookMutation)
            → (process_groups outside sha256 hash gs w).0 ≡ ok ms
            → All Noop ms)
  unfolding process_groups
  groups_again [] w d = (refl, λ ms h. subst (All Noop) (ok-injective h) tt)
  groups_again (g ∷ gs) w (d, ds) =
      let (same, noops) = group_again outside sha256 hash g w d in
      elim (groups_step g gs w) [
        | inl (e, w₁, p, q) ↦
            (rw q (rw p at same), λ ms h. absurd (ok-ne-err (sym h ∙ ap (λ x. x.0) q)))
        | inr (m, w₁, p, q) ↦
            let same₁ : w₁.repository ≡ w.repository = rw p at same in
            let (rest, rest_noops) = groups_again gs w₁ (subst (Done gs) (sym same₁) ds) in
            (
              rw q (rest ∙ same₁),
              λ ms h.
                  let (ms₁, r, is) = map_ok-eq-ok _ _ (sym (ap (λ x. x.0) q) ∙ h) in
                  subst (All Noop) is (noops m (ap (λ x. x.0) p), rest_noops ms₁ r),
            )
      ]

  -- Once a pass over the groups has returned, another pass, whatever the window store, the model
  -- and the embedder have become, leaves the repository as it is, and if it returns, each of its
  -- mutations is a no-op.
  pub process_again :
      (gs : List EpisodeGroup) (w : World E) (ms : List RunbookMutation) (later : E)
      → (process_groups outside sha256 hash gs w).0 ≡ ok ms
      → let after = (process_groups outside sha256 hash gs w).1 in
        let again = process_groups outside sha256 hash gs (record after { outside = later }) in
        (again.1.repository ≡ after.repository) × OnlyNoops again.0
  process_again gs w ms later h =
      let (same, noops) = groups_again gs _ (process_groups-Done gs w ms h) in
      (same, only_noops _ noops)
