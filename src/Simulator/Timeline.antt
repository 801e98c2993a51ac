-- ===== src/Simulator/Timeline.antt =====
-- The settings of the world over time (simulator/postmortem_sim/conductor.py).
use mathlib.Core.List.{append-nil}
use ckdb_aws.Base.{
  All, All-append, All-select_of, Bool, Bool-cases, List, [], any, ap, arith, false, inl, inr,
  length, map, nat_eq, none, refl, select, string_eq, subst, sym, true, ℕ, ◌&&◌, ◌++◌, ◌==◌, ◌∙◌,
  ◌∷◌, ◌≡◌, ◌≤◌,
}
use ckdb_aws.Base.Dict.{Dict}
use ckdb_aws.Domain.{Text, Value, text_beq_iff, text_eq}
use ckdb_aws.Simulator.Chains.{
  Chain, Chain-closed_last, closed_last, history, history-close_current, history-close_current_ne,
}
use ckdb_aws.Simulator.Conductor.{Conductor, Policy, Script, close_current, new_revision, revised}
use ckdb_aws.Simulator.Kept.{Invariant}
use ckdb_aws.Simulator.Load.{ConfigItem, Fixture, config_of, new_conductor, new_script}
use ckdb_aws.Simulator.Models.{ConfigRevision, WorldState, current, of_key, slo_key_eq}
use ckdb_aws.Simulator.Settled.{apply_action-Keeps}
use ckdb_aws.Simulator.Steps.{Reach, Reach-keeps}

-- The revisions of every setting form a chain, and none begins in the future.
pub record Timeline (w : WorldState) : Type 0 where
  pub chains : (service key : Text) → Chain (history service key w.configs)
  pub begun : All (λ (r : ConfigRevision). r.valid_from ≤ w.now) w.configs

All-weaken :
    {t t' : ℕ} (rs : List ConfigRevision)
    → t ≤ t'
    → All (λ (r : ConfigRevision). r.valid_from ≤ t) rs
    → All (λ (r : ConfigRevision). r.valid_from ≤ t') rs
All-weaken [] le h = tt
All-weaken (r ∷ rs) le (h, hs) = (omega arith, All-weaken rs le hs)

module _ (now : ℕ) where
  All-close_current :
      (s k : Text) (rs : List ConfigRevision)
      → All (λ (r : ConfigRevision). r.valid_from ≤ now) rs
      → All (λ (r : ConfigRevision). r.valid_from ≤ now) (close_current s k now rs)
  unfolding close_current
  All-close_current s k [] hs = tt
  All-close_current s k (r ∷ rs) (h, hs) = elim (Bool-cases (any (current s k) rs)) [
    | inl e ↦ rw e (h, All-close_current s k rs hs)
    | inr e ↦ elim (Bool-cases (current s k r)) [
      | inl o ↦ rw (e, o) (h, hs)
      | inr o ↦ rw (e, o) (h, hs)
    ]
  ]

select-append :
    (test : ConfigRevision → Bool) (xs ys : List ConfigRevision)
    → select test (xs ++ ys) ≡ select test xs ++ select test ys
select-append test [] ys = refl
select-append test (x ∷ xs) ys = elim (Bool-cases (test x)) [
  | inl e ↦ rw e (ap (λ r. x ∷ r) (select-append test xs ys))
  | inr e ↦ rw e (select-append test xs ys)
]

of_key_self : (s k : Text) (r : ConfigRevision) → r.service ≡ s → r.key ≡ k → of_key s k r ≡ true
of_key_self s k r p q = ground (arith, text_beq_iff r.service s, text_beq_iff r.key k)

of_key_eq : (s k : Text) (r : ConfigRevision) → of_key s k r ≡ true → (r.service ≡ s) × (r.key ≡ k)
of_key_eq s k r h = ground (arith, text_beq_iff r.service s, text_beq_iff r.key k)

-- What the new revision of a setting does to the histories.
module _ (s k : Text) (new : ConfigRevision) (configs : List ConfigRevision)
    (own : of_key s k new ≡ true) where
  history_same :
      Chain (history s k configs)
      → history s k (close_current s k new.valid_from configs ++ new ∷ [])
        ≡ closed_last new.valid_from (history s k configs) ++ new ∷ []
  history_same c =
      select-append (of_key s k) (close_current s k new.valid_from configs) (new ∷ [])
      ∙ rw (own, history-close_current s k new.valid_from configs c)

  history_other :
      (s' k' : Text)
      → of_key s' k' new ≡ false
      → history s' k' (close_current s k new.valid_from configs ++ new ∷ []) ≡ history s' k' configs
  history_other s' k' other =
      select-append (of_key s' k') (close_current s k new.valid_from configs) (new ∷ [])
      ∙ rw (
        other,
        append-nil,
        history-close_current_ne s k s' k' new.valid_from configs λ r e.
            let (p, q) = of_key_eq s k r e in
            let (p', q') = of_key_eq s k new own in
            ap (λ x. x == s' && r.key == k') (p ∙ sym p')
            ∙ (ap (λ x. new.service == s' && x == k') (q ∙ sym q') ∙ other),
      )

  Chain-history :
      (s' k' : Text)
      → new.valid_to ≡ none
      → ((s k : Text) → Chain (history s k configs))
      → All (λ (r : ConfigRevision). r.valid_from ≤ new.valid_from) configs
      → Chain (history s' k' (close_current s k new.valid_from configs ++ new ∷ []))
  Chain-history s' k' o chains early = elim (Bool-cases (of_key s' k' new)) [
    | inr other ↦ subst Chain (sym (history_other s' k' other)) (chains s' k')
    | inl e ↦
        let (p, q) = of_key_eq s k new own in
        let (p', q') = of_key_eq s' k' new e in
        let mine : Chain (history s k (close_current s k new.valid_from configs ++ new ∷ [])) =
          subst Chain (sym (history_same (chains s k))) (
            Chain-closed_last new (history s k configs) (chains s k)
              (All-select_of (λ (r : ConfigRevision). r.valid_from ≤ new.valid_from) (of_key s k)
                configs early)
              o) in
        subst (λ x. Chain (history x k' (close_current s k new.valid_from configs ++ new ∷ [])))
          (sym p ∙ p')
          (subst (λ x. Chain (history s x (close_current s k new.valid_from configs ++ new ∷ [])))
            (sym q ∙ q') mine)
  ]

module _ (uuid5 : Text → Text) (script : Script) where
  revised-Timeline :
      (s k : Text) (value : Value) (source : Text) (w : WorldState)
      → Timeline w
      → Timeline (revised uuid5 script s k value source w)
  unfolding revised new_revision
  revised-Timeline s k value source w t = record {
    chains = λ s' k'.
        Chain-history s k (new_revision uuid5 script s k value source w.now (length w.configs))
          w.configs
          (of_key_self s k (new_revision uuid5 script s k value source w.now (length w.configs))
            refl refl)
          s' k' refl t.chains t.begun;
    begun = All-append _ _ _ (All-close_current w.now s k w.configs t.begun) (omega arith, tt);
  }

  Timeline-Invariant : Invariant uuid5 script Timeline
  Timeline-Invariant = record {
    frame = record {
      framed = λ w w' n c i t. record { chains = rw c t.chains; begun = rw (n, c) t.begun };
      on_config = revised-Timeline;
      on_later = λ t w le h. record { chains = h.chains; begun = All-weaken w.configs le h.begun };
    };
    on_opened = λ i w new h. record { chains = h.chains; begun = h.begun };
  }

Chain-short :
    (rs : List ConfigRevision)
    → All (λ (r : ConfigRevision). r.valid_to ≡ none) rs
    → length rs ≤ 1
    → Chain rs
Chain-short [] o le = tt
Chain-short (r ∷ []) o le = o.0
Chain-short (r ∷ r' ∷ rs) o le = absurd (omega arith)

module _ (uuid5 : Text → Text) (same : Value → Value → Bool) (fixture : Fixture)
    (oracle scenario_oracle : Dict Text Policy) where
  abbrev script : Script
  script = new_script fixture oracle scenario_oracle

  loaded_open :
      (items : List ConfigItem)
      → All (λ (r : ConfigRevision). r.valid_to ≡ none) (map (config_of uuid5 script) items)
  unfolding config_of
  loaded_open [] = tt
  loaded_open (i ∷ items) = (refl, loaded_open items)

  loaded_begun :
      (items : List ConfigItem)
      → All
          (λ (r : ConfigRevision). r.valid_from ≤ script.start_time)
          (map (config_of uuid5 script) items)
  unfolding config_of new_script
  loaded_begun [] = tt
  loaded_begun (i ∷ items) = (omega arith, loaded_begun items)

  load_world-Timeline :
      ((s k : Text) → length (history s k (map (config_of uuid5 script) fixture.configs)) ≤ 1)
      → Timeline (new_conductor uuid5 script fixture).state
  unfolding new_conductor
  load_world-Timeline once = record {
    chains = λ s k.
        Chain-short _
          (All-select_of (λ (r : ConfigRevision). r.valid_to ≡ none) (of_key s k) _
            (loaded_open fixture.configs))
          (once s k);
    begun = loaded_begun fixture.configs;
  }

  -- If the fixture sets no setting of a service twice, then in every world that calls reach,
  -- whatever they raise, the revisions of each setting form a chain without gaps or overlaps: each
  -- is valid until the next one is, not before it begins, only the last is open, and none begins
  -- in the future.
  pub Reach-Timeline :
      {c : Conductor}
      → ((s k : Text) → length (history s k (map (config_of uuid5 script) fixture.configs)) ≤ 1)
      → Reach uuid5 same script (new_conductor uuid5 script fixture) c
      → Timeline c.state
  Reach-Timeline once =
      let inv = Timeline-Invariant uuid5 script in
      Reach-keeps uuid5 same script inv
        (apply_action-Keeps uuid5 script inv.frame
          (λ k i w h. record { chains = h.chains; begun = h.begun }) same)
        (load_world-Timeline once)
