-- ===== src/Consolidation/Replay.antt =====
-- What a candidate never does (consolidation/postmortem_consolidation/repository.py).
use mathlib.Core.Option.{none-ne-some}
use ckdb_aws.Base.{
  Bool-cases, List, Option-cases, Result, [], ap, err, false, get_last?, inl, inr, length, map,
  nat_eq, none, ok, ok-injective, refl, some, string_eq, sym, true, ℕ, ◌==◌, ◌∙◌, ◌∷◌, ◌≡◌, ◌≢◌,
}
use ckdb_aws.Base.Dict.{get, get-put, get-put_ne, get-put_self, set_default}
use ckdb_aws.Consolidation.Apply.{
  apply, apply_all, change, is_success, keep, key_of, listed, revised, set_last, versions_of,
  weakened, with_key,
}
use ckdb_aws.Consolidation.Grouping.{incident_eq}
use ckdb_aws.Consolidation.Repository.{
  CandidateRunbook, LocalRunbook, Repository, RunbookId, RunbookKey, RunbookMutation, key_eq, noop,
}
use ckdb_aws.Domain.{Error, Text, Value, text_eq}

keep-kept :
    (key : RunbookKey) (k : Text) (m : RunbookMutation)
    (r : Result Error (RunbookMutation × List LocalRunbook)) (t : Repository)
    → (keep key k r t).0 ≡ ok m
    → get k (keep key k r t).1.processed ≡ some m
unfolding keep
keep-kept key k m (ok (n, versions)) t e = get-put_self k n t.processed ∙ ap some (ok-injective e)
keep-kept key k m (err x) t e = absurd cc

keep-persists :
    (key : RunbookKey) (k j : Text) (r : Result Error (RunbookMutation × List LocalRunbook))
    (t : Repository) (m : RunbookMutation)
    → k ≢ j
    → get j t.processed ≡ some m
    → get j (keep key k r t).1.processed ≡ some m
unfolding keep
keep-persists key k j (ok (n, versions)) t m ne h = get-put_ne k j n t.processed ne ∙ h
keep-persists key k j (err e) t m ne h = h

-- The answer to a key that has been applied.
abbrev pub again : RunbookMutation → RunbookMutation
again m = record m { operation = noop; idempotent_replay = true }

module _ (hash : List Value → Text) where
  pub change_kept :
      (c : CandidateRunbook) (k : Text) (s : Repository) (m : RunbookMutation)
      → (change hash c k s).0 ≡ ok m
      → get k (change hash c k s).1.processed ≡ some m
  unfolding change
  change_kept c k s m h = keep-kept (key_of c) k m _ _ h

  pub apply_fresh :
      (c : CandidateRunbook) (k : Text) (s : Repository)
      → get k s.processed ≡ none
      → apply hash c k s ≡ change hash c k s
  unfolding apply
  apply_fresh c k s p = rw (apply, p) refl

  pub apply_old :
      (c : CandidateRunbook) (k : Text) (s : Repository) (m : RunbookMutation)
      → get k s.processed ≡ some m
      → apply hash c k s ≡ (ok (again m), s)
  unfolding apply
  apply_old c k s m p = rw (apply, p) refl

  -- What is kept under a key stays, whatever is applied.
  pub apply-kept :
      (c : CandidateRunbook) (k j : Text) (s : Repository) (m : RunbookMutation)
      → get j s.processed ≡ some m
      → get j (apply hash c k s).1.processed ≡ some m
  unfolding change
  apply-kept c k j s m h = elim (Option-cases (get k s.processed)) [
    | inr (old, p) ↦ ap (λ x. get j x.1.processed) (apply_old c k s old p) ∙ h
    | inl p ↦
        ap (λ x. get j x.1.processed) (apply_fresh c k s p)
        ∙ keep-persists (key_of c) k j _ _ m
            (λ e. none-ne-some m (sym p ∙ (ap (λ x. get x s.processed) e ∙ h))) h
  ]

  apply_all-kept :
      (rest : List (CandidateRunbook × Text)) (j : Text) (s : Repository) (m : RunbookMutation)
      → get j s.processed ≡ some m
      → get j (apply_all hash rest s).processed ≡ some m
  unfolding apply_all
  apply_all-kept [] j s m h = h
  apply_all-kept ((c, k) ∷ rest) j s m h =
      apply_all-kept rest j (apply hash c k s).1 m (apply-kept c k j s m h)

  -- What a call that did not raise leaves under its key.
  left_under :
      (c : CandidateRunbook) (k : Text) (s : Repository) (m : RunbookMutation)
      → (apply hash c k s).0 ≡ ok m
      → (n : RunbookMutation) × (again n ≡ again m)
        × (get k (apply hash c k s).1.processed ≡ some n)
  left_under c k s m h = elim (Option-cases (get k s.processed)) [
    | inl p ↦
        let e = apply_fresh c k s p in
        (m, refl, ap (λ x. get k x.1.processed) e ∙ change_kept c k s m (rw e at h))
    | inr (old, p) ↦
        let e = apply_old c k s old p in
        (old, ap again (ok-injective (rw e at h)), ap (λ x. get k x.1.processed) e ∙ p)
  ]

  -- A candidate that was applied under a key and did not raise is not applied again under it:
  -- after any further calls, under this and other keys, a call under that key answers with the
  -- same mutation, marked as a replay that does nothing, and leaves the repository as it is,
  -- whatever candidate it brings.
  pub apply_again :
      (c d : CandidateRunbook) (k : Text) (rest : List (CandidateRunbook × Text)) (s : Repository)
      (m : RunbookMutation)
      → (apply hash c k s).0 ≡ ok m
      → let s' = apply_all hash rest (apply hash c k s).1 in
        apply hash d k s' ≡ (ok (record m { operation = noop; idempotent_replay = true }), s')
  apply_again c d k rest s m h =
      let (n, same, left) = left_under c k s m h in
      let s' = apply_all hash rest (apply hash c k s).1 in
      apply_old d k s' n (apply_all-kept rest k _ n left) ∙ ap (λ x. (ok x, s')) same

-- What names a version, and the proof that it has.
abbrev pub identity : LocalRunbook → RunbookId × ℕ × Text × ℕ
identity r = (r.runbook_id, r.version, r.steps_hash, r.success_count)

set_last-identity :
    (rs : List LocalRunbook) (old new : LocalRunbook)
    → get_last? rs ≡ some old
    → identity new ≡ identity old
    → map identity (set_last rs new) ≡ map identity rs
set_last-identity [] old new h e = refl
set_last-identity (x ∷ []) old new h e =
    let same : old ≡ x = cc h in ap (λ i. i ∷ []) (e ∙ ap identity same)
set_last-identity (x ∷ y ∷ rs) old new h e =
    ap (λ is. identity x ∷ is) (set_last-identity (y ∷ rs) old new h e)

revised-identity :
    (hash : List Value → Text) (needed : ℕ) (c : CandidateRunbook) (keys : ℕ)
    (versions after : List LocalRunbook) (m : RunbookMutation)
    → is_success c.outcome ≡ false
    → revised hash needed c keys versions (get_last? versions) ≡ ok (m, after)
    → map identity after ≡ map identity versions
unfolding revised weakened
revised-identity hash needed c keys versions after m bad e =
    elim (Option-cases (get_last? versions)) [
      | inl p ↦ ap (map identity) (sym (ap (λ x. x.1) (ok-injective (rw (p, bad) at e))))
      | inr (latest, p) ↦
          ap (map identity) (sym (ap (λ x. x.1) (ok-injective (rw (p, bad) at e))))
          ∙ set_last-identity versions latest (weakened latest) p refl
    ]

versions-with_key :
    (key j : RunbookKey) (s : Repository) → versions_of j (with_key key s) ≡ versions_of j s
unfolding set_default
versions-with_key key j s = elim (Option-cases (get key s.runbooks)) [
  | inl p ↦
      rw (set_default, p)
        (elim (Bool-cases (key == j)) [
          | inl q ↦
              rw (get-put key j [] s.runbooks, q)
                (let same : key ≡ j = (key_eq.equal_iff key j).0 q in
                  ap listed (sym p ∙ ap (λ x. get x s.runbooks) same))
          | inr q ↦ rw (get-put key j [] s.runbooks, q) refl
        ])
  | inr (old, p) ↦ rw (set_default, p) refl
]

versions-keep :
    (key j : RunbookKey) (k : Text) (m : RunbookMutation) (after : List LocalRunbook)
    (t : Repository)
    → map identity after ≡ map identity (versions_of key t)
    → map identity (versions_of j (keep key k (ok (m, after)) t).1) ≡ map identity (versions_of j t)
unfolding keep
versions-keep key j k m after t h = elim (Bool-cases (key == j)) [
  | inl q ↦
      let same : key ≡ j = (key_eq.equal_iff key j).0 q in
      rw (get-put key j after t.runbooks, q) (h ∙ ap (λ x. map identity (versions_of x t)) same)
  | inr q ↦ rw (get-put key j after t.runbooks, q) refl
]

versions-keep_any :
    (key j : RunbookKey) (k : Text) (r : Result Error (RunbookMutation × List LocalRunbook))
    (t : Repository)
    → ((m : RunbookMutation) (after : List LocalRunbook)
        → r ≡ ok (m, after)
        → map identity after ≡ map identity (versions_of key t))
    → map identity (versions_of j (keep key k r t).1) ≡ map identity (versions_of j t)
unfolding keep
versions-keep_any key j k (ok (m, after)) t h = versions-keep key j k m after t (h m after refl)
versions-keep_any key j k (err e) t h = refl

-- A candidate whose outcome is not a success creates no version and proves none: under every key
-- there are the same versions as before, by id, number, steps and successes, in their order.
pub failed-creates_nothing :
    (hash : List Value → Text) (c : CandidateRunbook) (k : Text) (s : Repository) (j : RunbookKey)
    → is_success c.outcome ≡ false
    → map identity (versions_of j (apply hash c k s).1) ≡ map identity (versions_of j s)
unfolding change
failed-creates_nothing hash c k s j bad = elim (Option-cases (get k s.processed)) [
  | inr (old, p) ↦ ap (λ x. map identity (versions_of j x.1)) (apply_old hash c k s old p)
  | inl p ↦
      let s' = with_key (key_of c) s in
      let versions = versions_of (key_of c) s' in
      ap (λ x. map identity (versions_of j x.1)) (apply_fresh hash c k s p)
      ∙ versions-keep_any (key_of c) j k
          (revised hash s.reinforcements_to_activate c (length s'.runbooks) versions
            (get_last? versions))
          s'
          (λ m after e.
            revised-identity hash s.reinforcements_to_activate c (length s'.runbooks) versions after
              m bad e)
      ∙ ap (map identity) (versions-with_key (key_of c) j s)
]
