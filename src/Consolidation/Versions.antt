-- ===== src/Consolidation/Versions.antt =====
-- The versions of a runbook (consolidation/postmortem_consolidation/repository.py).
use ckdb_aws.Base.{
  Bool-cases, List, Option-cases, [], ap, arith, get_last?, inl, inr, leb, length, none, ok,
  ok-injective, refl, some, subst, suc, ℕ, ◌&&◌, ◌++◌, ◌+◌, ◌<◌, ◌∷◌, ◌≡◌, ◌≢◌, ◌≤◌,
}
use ckdb_aws.Consolidation.Apply.{
  created, is_draft, is_success, new_runbook, reinforced, revised, set_last, weakened,
}
use ckdb_aws.Consolidation.Repository.{
  CandidateRunbook, LocalRunbook, RunbookMutation, absent, active, deprecated, draft, key_eq,
}
use ckdb_aws.Domain.{Text, Value, text_beq}

-- A version: its number, and what its counts and its status say of each other.
pub record Sound (needed n : ℕ) (r : LocalRunbook) : Type 0 where
  pub numbered : r.version ≡ n
  pub proven : 1 ≤ r.success_count
  pub embedded : length r.embedding ≡ 1024
  pub present : r.status ≢ absent
  pub drafted : r.status ≡ draft → r.success_count ≤ needed
  pub activated : r.status ≡ active → needed < r.success_count
  pub standing : r.status ≢ deprecated → r.failure_count < r.success_count

-- The versions after the first `k`, with their numbers in order.
abbrev pub Numbered : (needed k : ℕ) → List LocalRunbook → Type 0
Numbered needed k [] = Unit
Numbered needed k (r ∷ rs) = Sound needed (suc k) r × Numbered needed (suc k) rs

renumber : {needed a b : ℕ} {r : LocalRunbook} → a ≡ b → Sound needed a r → Sound needed b r
renumber {needed = needed} {r = r} e h = subst (λ n. Sound needed n r) e h

Numbered-last :
    (needed k : ℕ) (rs : List LocalRunbook) (r : LocalRunbook)
    → get_last? rs ≡ some r
    → Numbered needed k rs
    → Sound needed (k + length rs) r
Numbered-last needed k [] r e h = absurd cc
Numbered-last needed k (x ∷ []) r e h =
    let same : x ≡ r = cc e in subst (Sound needed (k + 1)) same (renumber (omega arith) h.0)
Numbered-last needed k (x ∷ y ∷ rs) r e h =
    renumber (omega arith) (Numbered-last needed (suc k) (y ∷ rs) r e h.1)

Numbered-append :
    (needed k : ℕ) (rs : List LocalRunbook) (r : LocalRunbook)
    → Numbered needed k rs
    → Sound needed (k + length rs + 1) r
    → Numbered needed k (rs ++ r ∷ [])
Numbered-append needed k [] r h s = (renumber (omega arith) s, tt)
Numbered-append needed k (x ∷ rs) r h s =
    (h.0, Numbered-append needed (suc k) rs r h.1 (renumber (omega arith) s))

Numbered-set_last :
    (needed k : ℕ) (rs : List LocalRunbook) (r : LocalRunbook)
    → Numbered needed k rs
    → Sound needed (k + length rs) r
    → Numbered needed k (set_last rs r)
Numbered-set_last needed k [] r h s = tt
Numbered-set_last needed k (x ∷ []) r h s = (renumber (omega arith) s, tt)
Numbered-set_last needed k (x ∷ y ∷ rs) r h s =
    (h.0, Numbered-set_last needed (suc k) (y ∷ rs) r h.1 (renumber (omega arith) s))

last-none : (rs : List LocalRunbook) → get_last? rs ≡ none → length rs ≡ 0
last-none [] h = refl
last-none (x ∷ []) h = absurd cc
last-none (x ∷ y ∷ rs) h = absurd (ground (arith, last-none (y ∷ rs) h))

weakened-Sound : (needed n : ℕ) (r : LocalRunbook) → Sound needed n r → Sound needed n (weakened r)
unfolding weakened
weakened-Sound needed n r h = elim (Bool-cases (leb r.success_count (r.failure_count + 1))) [
  | inl p ↦ record {
    numbered = h.numbered;
    proven = h.proven;
    embedded = h.embedded;
    present = rw p (λ e. cc);
    drafted = rw p (λ e. absurd cc);
    activated = rw p (λ e. absurd cc);
    standing = rw p (λ ne. absurd (ne refl));
  }
  | inr p ↦ record {
    numbered = h.numbered;
    proven = h.proven;
    embedded = h.embedded;
    present = rw p h.present;
    drafted = rw p h.drafted;
    activated = rw p h.activated;
    standing = rw p (λ ne. ground arith);
  }
]

reinforced-Sound :
    (needed n : ℕ) (r : LocalRunbook) → Sound needed n r → Sound needed n (reinforced needed r)
unfolding reinforced
reinforced-Sound needed n r h =
    elim (Bool-cases (is_draft r.status && leb (needed + 1) (r.success_count + 1))) [
      | inl p ↦ record {
        numbered = h.numbered;
        proven = omega (arith, h.proven);
        embedded = h.embedded;
        present = rw p (λ e. cc);
        drafted = rw p (λ e. absurd cc);
        activated = rw p (λ e. ground arith);
        standing = rw p (λ ne.
            let low : r.failure_count < r.success_count =
              h.standing (λ e. let q = rw e at p in ground arith) in
            omega arith);
      }
      | inr p ↦ record {
        numbered = h.numbered;
        proven = omega (arith, h.proven);
        embedded = h.embedded;
        present = rw p h.present;
        drafted = rw p (λ e. let q = rw e at p in ground arith);
        activated = rw p (λ e. omega (arith, h.activated e));
        standing = rw p (λ ne. omega (arith, h.standing ne));
      }
    ]

module _ (hash : List Value → Text) (needed : ℕ) (c : CandidateRunbook) where
  created_cases :
      (keys : ℕ) (versions : List LocalRunbook) (m : RunbookMutation) (after : List LocalRunbook)
      → created hash c keys versions ≡ ok (m, after)
      → (length c.embedding ≡ 1024) × (versions ++ new_runbook hash c keys versions ∷ [] ≡ after)
  unfolding created
  created_cases keys versions m after e = ground arith

  new_version :
      (keys : ℕ) (versions : List LocalRunbook)
      → Numbered needed 0 versions
      → (new_runbook hash c keys versions).version ≡ 0 + length versions + 1
  unfolding new_runbook
  new_version keys versions h = elim (Option-cases (get_last? versions)) [
    | inl p ↦ rw (new_runbook, p) (omega (arith, last-none versions p))
    | inr (latest, p) ↦
        rw (new_runbook, p) (omega (arith, (Numbered-last needed 0 versions latest p h).numbered))
  ]

  created-Numbered :
      (keys : ℕ) (versions : List LocalRunbook) (m : RunbookMutation) (after : List LocalRunbook)
      → 1 ≤ needed
      → Numbered needed 0 versions
      → created hash c keys versions ≡ ok (m, after)
      → Numbered needed 0 after
  unfolding new_runbook
  created-Numbered keys versions m after positive h e =
      let (fits, same) = created_cases keys versions m after e in
      subst (Numbered needed 0) same (
        Numbered-append needed 0 versions (new_runbook hash c keys versions) h (record {
          numbered = new_version keys versions h;
          proven = omega arith;
          embedded = fits;
          present = λ q. cc;
          drafted = λ q. positive;
          activated = λ q. absurd cc;
          standing = λ q. omega arith;
        }))

  -- What a candidate makes of sound versions is sound.
  pub revised-Numbered :
      (keys : ℕ) (versions : List LocalRunbook) (m : RunbookMutation) (after : List LocalRunbook)
      → 1 ≤ needed
      → Numbered needed 0 versions
      → revised hash needed c keys versions (get_last? versions) ≡ ok (m, after)
      → Numbered needed 0 after
  unfolding revised
  revised-Numbered keys versions m after positive h e = elim (Option-cases (get_last? versions)) [
    | inl p ↦ elim (Bool-cases (is_success c.outcome)) [
      | inl q ↦ created-Numbered keys versions m after positive h (rw (p, q) at e)
      | inr q ↦ let same : versions ≡ after = ground arith in subst (Numbered needed 0) same h
    ]
    | inr (latest, p) ↦
        let old = Numbered-last needed 0 versions latest p h in
        elim (Bool-cases (is_success c.outcome)) [
          | inr q ↦
              let same : set_last versions (weakened latest) ≡ after =
                ap (λ x. x.1) (ok-injective (rw (p, q) at e)) in
              subst (Numbered needed 0) same (
                Numbered-set_last needed 0 versions (weakened latest) h
                  (weakened-Sound needed _ latest old))
          | inl q ↦ elim (Bool-cases (text_beq latest.steps_hash (hash c.steps))) [
            | inl t ↦
                let same : set_last versions (reinforced needed latest) ≡ after =
                  ap (λ x. x.1) (ok-injective (rw (p, q, t) at e)) in
                subst (Numbered needed 0) same (
                  Numbered-set_last needed 0 versions (reinforced needed latest) h
                    (reinforced-Sound needed _ latest old))
            | inr t ↦ created-Numbered keys versions m after positive h (rw (p, q, t) at e)
          ]
        ]
  ]
