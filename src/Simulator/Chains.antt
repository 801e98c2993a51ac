-- ===== src/Simulator/Chains.antt =====
-- The history of a setting: its revisions in the order in which they were written
-- (simulator/postmortem_sim/conductor.py, `_set_config`).
use ckdb_aws.Base.{
  All, Bool, Bool-cases, List, [], any, arith, false, inl, inr, none, refl, select, some, subst,
  true, ℕ, ◌++◌, ◌||◌, ◌∷◌, ◌≡◌, ◌≤◌, ◌⊎◌,
}
use ckdb_aws.Domain.{Text}
use ckdb_aws.Simulator.Conductor.{close_current}
use ckdb_aws.Simulator.Models.{ConfigRevision, current, of_key, slo_key_eq}

-- Each revision is valid until the next one is, and the last is open.
abbrev pub Chain : List ConfigRevision → Type 0
Chain [] = Unit
Chain (r ∷ []) = r.valid_to ≡ none
Chain (r ∷ r' ∷ rs) =
    (r.valid_to ≡ some r'.valid_from) × (r.valid_from ≤ r'.valid_from) × Chain (r' ∷ rs)

abbrev pub history : (service key : Text) → List ConfigRevision → List ConfigRevision
history service key = select (of_key service key)

Chain-tail : (r : ConfigRevision) (rs : List ConfigRevision) → Chain (r ∷ rs) → Chain rs
Chain-tail r [] c = tt
Chain-tail r (r' ∷ rs) c = c.2

-- The last revision, closed.
unfoldable pub closed_last : (now : ℕ) → List ConfigRevision → List ConfigRevision
closed_last now [] = []
closed_last now (r ∷ []) = record r { valid_to = some now } ∷ []
closed_last now (r ∷ r' ∷ rs) = r ∷ closed_last now (r' ∷ rs)

pub Chain-closed_last :
    (new : ConfigRevision) (rs : List ConfigRevision)
    → Chain rs
    → All (λ (r : ConfigRevision). r.valid_from ≤ new.valid_from) rs
    → new.valid_to ≡ none
    → Chain (closed_last new.valid_from rs ++ new ∷ [])
unfolding closed_last
Chain-closed_last new [] c early o = o
Chain-closed_last new (r ∷ []) c early o = (refl, early.0, o)
Chain-closed_last new (r ∷ r' ∷ []) c early o =
    (c.0, c.1, Chain-closed_last new (r' ∷ []) c.2 early.1 o)
Chain-closed_last new (r ∷ r' ∷ r'' ∷ rs) c early o =
    (c.0, c.1, Chain-closed_last new (r' ∷ r'' ∷ rs) c.2 early.1 o)

or_true : (b : Bool) → (b || true) ≡ true
or_true true = refl
or_true false = refl

module _ (service key : Text) where
  current_of_open :
      (r : ConfigRevision)
      → of_key service key r ≡ true
      → r.valid_to ≡ none
      → current service key r ≡ true
  current_of_open r same o = rw (same, o)

  -- A history that is a chain has an open revision if it has any.
  any-current :
      (rs : List ConfigRevision)
      → Chain (history service key rs)
      → ((history service key rs ≡ []) × (any (current service key) rs ≡ false))
        ⊎ ((r : ConfigRevision) × (rest : List ConfigRevision) × (history service key rs ≡ r ∷ rest)
            × (any (current service key) rs ≡ true))
  any-current [] c = inl (refl, refl)
  any-current (r ∷ rs) c = elim (Bool-cases (of_key service key r)) [
    | inr other ↦ elim (any-current rs (rw other at c)) [
      | inl (p, q) ↦ inl (rw other p, rw other q)
      | inr (r', rest, p, q) ↦ inr (r', rest, rw other p, rw other q)
    ]
    | inl same ↦
        let c' : Chain (r ∷ history service key rs) = rw same at c in
        elim (any-current rs (Chain-tail r _ c')) [
          | inl (p, q) ↦ inr (
            r,
            history service key rs,
            rw same refl,
            rw (current_of_open r same (subst (λ xs. Chain (r ∷ xs)) p c')),
          )
          | inr (r', rest, p, q) ↦
              inr (r, history service key rs, rw same refl, rw q (or_true (current service key r)))
        ]
  ]

  pub history-close_current :
      (now : ℕ) (rs : List ConfigRevision)
      → Chain (history service key rs)
      → history service key (close_current service key now rs)
        ≡ closed_last now (history service key rs)
  unfolding close_current closed_last
  history-close_current now [] c = refl
  history-close_current now (r ∷ rs) c = elim (Bool-cases (of_key service key r)) [
    | inr other ↦
        let c' : Chain (history service key rs) = rw other at c in
        elim (any-current rs c') [
          | inl (p, q) ↦ rw (q, other) (rw (other, p))
          | inr (r', rest, p, q) ↦ rw (q, other) (history-close_current now rs c')
        ]
    | inl same ↦
        let c' : Chain (r ∷ history service key rs) = rw same at c in
        elim (any-current rs (Chain-tail r _ c')) [
          | inl (p, q) ↦
              rw (q, current_of_open r same (subst (λ xs. Chain (r ∷ xs)) p c'), same) (rw p)
          | inr (r', rest, p, q) ↦
              rw (q, same) (rw (history-close_current now rs (Chain-tail r _ c')) (rw p))
        ]
  ]

-- The histories of other settings stay as they are.
pub history-close_current_ne :
    (service key service' key' : Text) (now : ℕ) (rs : List ConfigRevision)
    → ((r : ConfigRevision) → of_key service key r ≡ true → of_key service' key' r ≡ false)
    → history service' key' (close_current service key now rs) ≡ history service' key' rs
unfolding close_current
history-close_current_ne service key service' key' now [] apart = refl
history-close_current_ne service key service' key' now (r ∷ rs) apart =
    ground (arith, history-close_current_ne service key service' key' now rs apart, apart r)
