-- ===== src/Fakes/Grounded.antt =====
-- What the reasoner of backend/src/postmortem_backend/adapters/fakes.py decides passes the
-- provenance gate.
use mathlib.Core.List.{cons≢nil}
use ckdb_aws.Base.{
  >>=-eq-ok, All, All-Among, Among, Bool, Bool-cases, List, Option, [], ap, arith, elem, false, inl,
  inr, map, nat_eq, none, ok, ok-injective, refl, select, some, string_eq, subst, sym, true, ◌++◌,
  ◌==◌, ◌∷◌, ◌≡◌, ◌⊎◌,
}
use ckdb_aws.Domain.{
  AgentDecision, Datetime, DecisionKind, IncidentSignal, MemoryCandidate, RecallBundle,
  RemediationCommand, Uuid, all_candidates, escalate, remediate, text_eq,
}
use ckdb_aws.Fakes.{
  action_of, best_candidate, fake_decide, greatest, is_actionable, or_list, rating,
  recalled_command,
}
use ckdb_aws.Floats.{Builtins, FloatOps}
use ckdb_aws.Guardrails.Allowlist.{enforce_tool_allowlist, resolve_decision_tool}
use ckdb_aws.Guardrails.Provenance.{require_grounded_action, verify_citation_resolves}
use ckdb_aws.Guardrails.Unicode.{Unicode}
use ckdb_aws.Service.Stages.{gate}
use ckdb_aws.Service.Turn.{Ports}

module _ {A : Type 0} where
  Among-of_select :
      (test : A → Bool) (x : A) (xs : List A)
      → Among x (select test xs)
      → Among x xs × (test x ≡ true)
  Among-of_select test x [] m = elim m [ ]
  Among-of_select test x (y ∷ ys) m = elim (Bool-cases (test y)) [
    | inl e ↦
        let here : (x ≡ y) ⊎ Among x (select test ys) = rw e at m in
        elim here [
          | inl p ↦ (inl p, cc (e, p))
          | inr n ↦ let (among, good) = Among-of_select test x ys n in (inr among, good)
        ]
    | inr e ↦ let (among, good) = Among-of_select test x ys (rw e at m) in (inr among, good)
  ]

  Among-left : (x : A) (xs ys : List A) → Among x xs → Among x (xs ++ ys)
  Among-left x [] ys m = elim m [ ]
  Among-left x (z ∷ xs) ys (inl p) = inl p
  Among-left x (z ∷ xs) ys (inr m) = inr (Among-left x xs ys m)

  Among-right : (x : A) (xs ys : List A) → Among x ys → Among x (xs ++ ys)
  Among-right x [] ys m = m
  Among-right x (z ∷ xs) ys m = inr (Among-right x xs ys m)

  none_selected :
      (test : A → Bool) (xs : List A) → select test xs ≡ [] → All (λ x. test x ≡ false) xs
  none_selected test [] h = tt
  none_selected test (x ∷ xs) h = elim (Bool-cases (test x)) [
    | inl e ↦ absurd (cons≢nil (rw e at h))
    | inr e ↦ (e, none_selected test xs (rw e at h))
  ]

or_list-Among :
    (x : MemoryCandidate) (rs es : List MemoryCandidate)
    → Among x (or_list rs es)
    → Among x rs ⊎ Among x es
or_list-Among x [] es m = inr m
or_list-Among x (r ∷ rs) es m = inl m

recalled-Among :
    (x : MemoryCandidate) (memory : RecallBundle)
    → Among x (or_list memory.runbooks memory.episodes)
    → Among x (all_candidates memory)
recalled-Among x memory m = elim (or_list-Among x memory.runbooks memory.episodes m) [
  | inl in_runbooks ↦
      Among-right x memory.episodes _ (Among-right x memory.facts memory.runbooks in_runbooks)
  | inr in_episodes ↦ Among-left x memory.episodes _ in_episodes
]

elem-Among :
    (x : MemoryCandidate) (xs : List MemoryCandidate)
    → Among x xs
    → elem x.memory_id (map (λ y. y.memory_id) xs) ≡ true
elem-Among x [] m = elim m [ ]
elem-Among x (y ∷ ys) (inl p) =
    let same : (x.memory_id == y.memory_id) ≡ true =
      (nat_eq.equal_iff x.memory_id y.memory_id).1 (ap (λ z. z.memory_id) p) in
    ground arith
elem-Among x (y ∷ ys) (inr m) = ground (arith, elem-Among x ys m)

Among-second :
    (z x y : MemoryCandidate) (ys : List MemoryCandidate) → Among z (x ∷ ys) → Among z (x ∷ y ∷ ys)
Among-second z x y ys (inl p) = inl p
Among-second z x y ys (inr m) = inr (inr m)

List-cases : {A : Type 0} (xs : List A) → (xs ≡ []) ⊎ ((y : A) × (ys : List A) × (xs ≡ y ∷ ys))
List-cases [] = inl refl
List-cases (y ∷ ys) = inr (y, ys, refl)

module _ (f : FloatOps) (b : Builtins) where
  greatest-Among :
      (x : MemoryCandidate) (xs : List MemoryCandidate) → Among (greatest f b x xs) (x ∷ xs)
  unfolding greatest
  greatest-Among x [] = inl refl
  greatest-Among x (y ∷ ys) = elim (Bool-cases (f.lt (rating f b x) (rating f b y))) [
    | inl e ↦
        let same : greatest f b x (y ∷ ys) ≡ greatest f b y ys = rw e refl in
        inr (subst (λ z. Among z (y ∷ ys)) (sym same) (greatest-Among y ys))
    | inr e ↦
        let same : greatest f b x (y ∷ ys) ≡ greatest f b x ys = rw e refl in
        subst (λ z. Among z (x ∷ y ∷ ys)) (sym same) (Among-second _ x y ys (greatest-Among x ys))
  ]

  best_candidate-cases :
      (memory : RecallBundle)
      → ((best_candidate f b memory ≡ none)
          × All (λ x. is_actionable x ≡ false) (or_list memory.runbooks memory.episodes))
        ⊎ ((x : MemoryCandidate) × (best_candidate f b memory ≡ some x)
            × Among x (all_candidates memory))
  unfolding best_candidate
  best_candidate-cases memory =
      let usable = or_list memory.runbooks memory.episodes in
      elim (List-cases (select is_actionable usable)) [
        | inl e ↦ inl (rw (e, best_candidate) refl, none_selected is_actionable usable e)
        | inr (y, ys, e) ↦
            let among = subst (Among (greatest f b y ys)) (sym e) (greatest-Among y ys) in
            inr (
              greatest f b y ys,
              rw (e, best_candidate) refl,
              recalled-Among _ memory (Among-of_select is_actionable _ usable among).0,
            )
      ]

  -- A grounded command of a remediation passes both gates of a turn.
  grounded-gate :
      {E S : Type 0} (ports : Ports E S) (u : Unicode) (now : Datetime) (c : RemediationCommand)
      (kind : DecisionKind) (memory : RecallBundle)
      → kind ≡ remediate
      → require_grounded_action c (some (map (λ x. x.memory_id) (all_candidates memory))) ≡ ok tt
      → gate ports u now c kind memory ≡ ok tt
  unfolding gate resolve_decision_tool enforce_tool_allowlist
  grounded-gate ports u now c kind memory e h = rw (e, h) refl

  cited_resolves :
      (x : MemoryCandidate) (memory : RecallBundle) (cited : Option Uuid)
      → cited ≡ some x.memory_id
      → (x.memory_id == 0) ≡ false
      → elem x.memory_id (map (λ x. x.memory_id) (all_candidates memory)) ≡ true
      → verify_citation_resolves cited (map (λ x. x.memory_id) (all_candidates memory)) ≡ true
  unfolding verify_citation_resolves
  cited_resolves x memory cited e real held = rw (e, real, held) refl

  cited_passes :
      (x : MemoryCandidate) (memory : RecallBundle) (c : RemediationCommand)
      → c.cited_memory_id ≡ x.memory_id
      → (x.memory_id == 0) ≡ false
      → elem x.memory_id (map (λ x. x.memory_id) (all_candidates memory)) ≡ true
      → require_grounded_action c (some (map (λ x. x.memory_id) (all_candidates memory))) ≡ ok tt
  unfolding require_grounded_action
  cited_passes x memory c e real held = rw (e, real, held) refl

  -- The decision cites what was recalled: with nothing that can be acted on, it escalates without a
  -- command. Otherwise it remediates the incident and the service of the signal, unapproved, and its
  -- citation resolves among the recalled memory and passes the gates of a turn, the tool allowlist and
  -- the provenance gate. No recalled id may
  -- be nil.
  pub fake_decide_grounded :
      {E S : Type 0} (ports : Ports E S) (u : Unicode) (now : Datetime) (signal : IncidentSignal)
      (memory : RecallBundle) (decision : AgentDecision)
      → All (λ x. (x.memory_id == 0) ≡ false) (all_candidates memory)
      → fake_decide f b signal memory ≡ ok decision
      → ((decision.kind ≡ escalate)
          × (decision.command ≡ none)
          × All (λ x. is_actionable x ≡ false) (or_list memory.runbooks memory.episodes))
        ⊎ ((c : RemediationCommand) × (decision.kind ≡ remediate)
            × (decision.command ≡ some c)
            × (c.incident_id ≡ signal.incident_id)
            × (c.service_id ≡ signal.service_id)
            × (c.approved ≡ false)
            × (verify_citation_resolves decision.cited_memory_id
                  (map (λ x. x.memory_id) (all_candidates memory))
                ≡ true)
            × (gate ports u now c decision.kind memory ≡ ok tt))
  unfolding fake_decide recalled_command
  fake_decide_grounded ports u now signal memory decision nonnil h =
      elim (best_candidate-cases memory) [
        | inl (e, unusable) ↦
            let same = ok-injective (rw (e, fake_decide) at h) in
            inl (ap (λ d. d.kind) (sym same), ap (λ d. d.command) (sym same), unusable)
        | inr (x, e, among) ↦
            let (c, e₁, k) =
              >>=-eq-ok (recalled_command f b signal x) _ (rw (e, fake_decide) at h) in
            let (action, e₂, k₁) = >>=-eq-ok (action_of _) _ e₁ in
            let made = sym (ok-injective k₁) in
            let same = sym (ok-injective k) in
            let held = elem-Among x (all_candidates memory) among in
            let real = All-Among _ x (all_candidates memory) nonnil among in
            inr (
              c,
              ap (λ d. d.kind) same,
              ap (λ d. d.command) same,
              ap (λ m. m.incident_id) made,
              ap (λ m. m.service_id) made,
              ap (λ m. m.approved) made,
              cited_resolves x memory decision.cited_memory_id (ap (λ d. d.cited_memory_id) same)
                  real held,
              grounded-gate ports u now c decision.kind memory (ap (λ d. d.kind) same)
                  (cited_passes x memory c (ap (λ m. m.cited_memory_id) made) real held),
            )
      ]
