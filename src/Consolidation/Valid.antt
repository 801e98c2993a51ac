-- ===== src/Consolidation/Valid.antt =====
-- The whole repository (consolidation/postmortem_consolidation/repository.py).
use ckdb_aws.Base.{
  Bool-cases, List, Option-cases, Result-cases, [], arith, get_last?, inl, inr, length, ltb, nat_eq,
  ok, ok-injective, some, string_eq, subst, sym, ℕ, ◌==◌, ◌∷◌, ◌≡◌, ◌≤◌,
}
use ckdb_aws.Base.Dict.{Dict, get, get-put, put, set_default}
use ckdb_aws.Consolidation.Apply.{
  apply, apply_all, change, keep, key_of, listed, revised, versions_of, with_key,
}
use ckdb_aws.Consolidation.Repository.{
  CandidateRunbook, LocalRunbook, Repository, RunbookKey, RunbookMutation, key_eq, new_repository,
}
use ckdb_aws.Consolidation.Versions.{Numbered, revised-Numbered}
use ckdb_aws.Domain.{Text, Value, text_eq}

-- The versions under every key are numbered from 1 in order, and sound.
pub record Valid (s : Repository) : Type 0 where
  pub positive : 1 ≤ s.reinforcements_to_activate
  pub versions :
      (key : RunbookKey) (rs : List LocalRunbook)
      → get key s.runbooks ≡ some rs
      → Numbered s.reinforcements_to_activate 0 rs

under-put :
    (needed : ℕ) (key : RunbookKey) (rs : List LocalRunbook)
    (d : Dict RunbookKey (List LocalRunbook))
    → ((j : RunbookKey) (vs : List LocalRunbook) → get j d ≡ some vs → Numbered needed 0 vs)
    → Numbered needed 0 rs
    → (j : RunbookKey) (vs : List LocalRunbook) → get j (put key rs d) ≡ some vs
    → Numbered needed 0 vs
under-put needed key rs d h n j vs g = elim (Bool-cases (key == j)) [
  | inl p ↦
      let same : rs ≡ vs = ground (arith, get-put key j rs d) in subst (Numbered needed 0) same n
  | inr p ↦ h j vs (ground (arith, get-put key j rs d))
]

with_key-Valid : (key : RunbookKey) (s : Repository) → Valid s → Valid (with_key key s)
unfolding set_default
with_key-Valid key s h = elim (Option-cases (get key s.runbooks)) [
  | inl p ↦ record {
    positive = h.positive;
    versions = λ j rs g.
        under-put s.reinforcements_to_activate key [] s.runbooks h.versions tt j rs
          (rw (set_default, p) at g);
  }
  | inr (old, p) ↦ record {
    positive = h.positive;
    versions = λ j rs g. h.versions j rs (rw (set_default, p) at g);
  }
]

kept-Valid :
    (key : RunbookKey) (k : Text) (m : RunbookMutation) (rs : List LocalRunbook) (s : Repository)
    → Valid s
    → Numbered s.reinforcements_to_activate 0 rs
    → Valid (keep key k (ok (m, rs)) s).1
unfolding keep
kept-Valid key k m rs s h n = record {
  positive = h.positive;
  versions = under-put s.reinforcements_to_activate key rs s.runbooks h.versions n;
}

current :
    (key : RunbookKey) (s : Repository)
    → Valid s
    → Numbered s.reinforcements_to_activate 0 (versions_of key s)
current key s h = elim (Option-cases (get key s.runbooks)) [
  | inl p ↦ subst (λ o. Numbered s.reinforcements_to_activate 0 (listed o)) (sym p) tt
  | inr (rs, p) ↦
      subst (λ o. Numbered s.reinforcements_to_activate 0 (listed o)) (sym p) (h.versions key rs p)
]

module _ (hash : List Value → Text) where
  change-Valid :
      (c : CandidateRunbook) (k : Text) (s : Repository) → Valid s → Valid (change hash c k s).1
  unfolding change
  change-Valid c k s h =
      let s' = with_key (key_of c) s in
      let h' = with_key-Valid (key_of c) s h in
      let versions = versions_of (key_of c) s' in
      elim (Result-cases (
        revised hash s.reinforcements_to_activate c (length s'.runbooks) versions
          (get_last? versions))) [
            | inr (e, p) ↦ rw p h'
            | inl ((m, after), p) ↦ rw p (
                kept-Valid (key_of c) k m after s' h' (
                  revised-Numbered hash s.reinforcements_to_activate c (length s'.runbooks) versions
                    m after h.positive (current (key_of c) s' h') p))
          ]

  apply-Valid :
      (c : CandidateRunbook) (k : Text) (s : Repository) → Valid s → Valid (apply hash c k s).1
  unfolding apply
  apply-Valid c k s h = elim (Option-cases (get k s.processed)) [
    | inl p ↦ rw (apply, p) (change-Valid c k s h)
    | inr (m, p) ↦ rw (apply, p) h
  ]

  applied-Valid :
      (cs : List (CandidateRunbook × Text)) (s : Repository) → Valid s → Valid (apply_all hash cs s)
  unfolding apply_all
  applied-Valid [] s h = h
  applied-Valid ((c, k) ∷ cs) s h = applied-Valid cs (apply hash c k s).1 (apply-Valid c k s h)

  -- In a new repository, after any candidates, the versions under each key are numbered from 1 in
  -- their order; each has a success and an embedding of 1024 dimensions; a draft has at most as
  -- many successes as reinforcements are needed to activate, an active version has more; and one
  -- that is not deprecated has more successes than failures.
  pub apply_all-Valid :
      (needed : ℕ) (cs : List (CandidateRunbook × Text)) (s : Repository)
      → new_repository needed ≡ ok s
      → Valid (apply_all hash cs s)
  unfolding new_repository get
  apply_all-Valid needed cs s h = applied-Valid cs s (elim (Bool-cases (ltb needed 1)) [
    | inl p ↦ absurd (ground arith)
    | inr p ↦
        subst Valid (ok-injective (rw p at h))
          (record { positive = ground arith; versions = λ key rs g. absurd cc })
  ])
