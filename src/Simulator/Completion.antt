-- ===== src/Simulator/Completion.antt =====
-- The steps of an oracle's policy resolve an incident (simulator/postmortem_sim/conductor.py,
-- `apply_action`).
use ckdb_aws.Action.{Action, return, ◌>>=◌}
use ckdb_aws.Action.Ensures.{Ensures-returned}
use ckdb_aws.Action.Runs.{>>=-returns}
use ckdb_aws.Base.{
  All, Bool, List, [], ap, arith, false, length, nat_eq, ok, ok-injective, refl, some, string_eq,
  subst, sym, true, ◌+◌, ◌-◌, ◌/◌, ◌==◌, ◌∙◌, ◌∷◌, ◌≡◌,
}
use ckdb_aws.Base.Dict.{get}
use ckdb_aws.Domain.{Text, Value, text, text_eq}
use ckdb_aws.Simulator.Apply.{ActionResult, Call, advanced, apply_action, call_outcome, closed_at}
use ckdb_aws.Simulator.Conductor.{Policy, Script}
use ckdb_aws.Simulator.Models.{Incident, WorldState, resolved, slo_key_eq}
use ckdb_aws.Simulator.Progress.{Called, Done, apply_action-Called}
use ckdb_aws.Simulator.Remedy.{oracle_for}
use ckdb_aws.Simulator.Resolution.{oracle_for-advanced}

module _ (uuid5 : Text → Text) (same : Value → Value → Bool) (script : Script) where
  -- Calls one after another, up to the first that raises.
  unfoldable pub play : List Call → Action WorldState (List ActionResult)
  play [] = return []
  play (call ∷ calls) = do
    result ← apply_action uuid5 same script call
    results ← play calls
    return (result ∷ results)

  abbrev pub Succeeded : ActionResult → Type 0
  Succeeded r = r.outcome ≡ text "success"

  was_expected : (b : Bool) (r : ActionResult) → r.outcome ≡ call_outcome b → Succeeded r → b ≡ true
  was_expected true r p s = refl
  was_expected false r p s = ground arith

  success-Done :
      (call : Call) (policy : Policy) (i : Incident) (r : ActionResult) (w : WorldState)
      → Called uuid5 script same call i r w
      → oracle_for script i ≡ ok policy
      → Succeeded r
      → Done uuid5 script same call policy i true w
  success-Done call policy i r w c mine s =
      subst (λ b. Done uuid5 script same call policy i b w)
        (was_expected c.expected r c.outcome_is s)
        (subst (λ p. Done uuid5 script same call p i c.expected w)
          (ok-injective (sym c.mine ∙ mine)) c.done)

  -- What the first of the calls leaves, and the run of the others.
  record First (policy : Policy) (call : Call) (calls : List Call) (i : Incident) (w' : WorldState)
      : Type 0 where
    after : WorldState
    results : List ActionResult
    is_done : Done uuid5 script same call policy i true after
    rest : play calls after ≡ (ok results, w')
    rest_good : All Succeeded results

  First-call :
      (policy : Policy) (call : Call) (calls : List Call) (i : Incident) (w w' : WorldState)
      (results : List ActionResult)
      → get call.incident_id w.incidents ≡ some i
      → oracle_for script i ≡ ok policy
      → play (call ∷ calls) w ≡ (ok results, w')
      → All Succeeded results
      → First policy call calls i w'
  unfolding play
  First-call policy call calls i w w' results at mine run good =
      let (r, w₁, p, q) = >>=-returns (apply_action uuid5 same script call) _ run in
      let (rs, w₂, p₂, q₂) = >>=-returns (play calls) _ q in
      let same_results : r ∷ rs ≡ results = ok-injective (ap (λ x. x.0) q₂) in
      let good' : All Succeeded (r ∷ rs) = subst (All Succeeded) (sym same_results) good in
      record {
        after = w₁;
        results = rs;
        is_done =
            success-Done call policy i r w₁
              (Ensures-returned (apply_action-Called uuid5 script same call i) w w₁ r at p) mine
              good'.0;
        rest = p₂ ∙ ap (λ x. (ok rs, x)) (ap (λ x. x.1) q₂);
        rest_good = good'.1;
      }

  -- Let an incident be unresolved, and let as many calls on it as its oracle's policy has steps
  -- left return, each with the outcome of a step of the policy. Then the incident is resolved, and
  -- the time that the clock shows after the calls, and the whole seconds since it was opened, are
  -- in it.
  pub policy_resolves :
      (policy : Policy) (incident_id : Text) (call : Call) (calls : List Call) (i : Incident)
      (w w' : WorldState) (results : List ActionResult)
      → All (λ (c : Call). c.incident_id ≡ incident_id) (call ∷ calls)
      → get incident_id w.incidents ≡ some i
      → oracle_for script i ≡ ok policy
      → i.oracle_step + length (call ∷ calls) ≡ length policy.required_actions
      → play (call ∷ calls) w ≡ (ok results, w')
      → All (λ (r : ActionResult). r.outcome ≡ text "success") results
      → (j : Incident) × (get incident_id w'.incidents ≡ some j)
        × (j.status ≡ resolved)
        × (j.resolved_at ≡ some w'.now)
        × (j.mttr_seconds ≡ some ((w'.now - i.opened_at) / 1000000))
  unfolding play advanced closed_at
  policy_resolves policy incident_id call [] i w w' results (own, owns) at mine steps run good =
      let f =
        First-call policy call [] i w w' results
          (subst (λ k. get k w.incidents ≡ some i) (sym own) at) mine run good in
      let last =
        (nat_eq.equal_iff (i.oracle_step + 1) (length policy.required_actions)).1 (omega arith) in
      let same : f.after ≡ w' = ap (λ x. x.1) f.rest in
      (
        closed_at w'.now (advanced true i),
        subst (λ k. get k w'.incidents ≡ some (closed_at w'.now (advanced true i))) own
            (subst
              (λ (x : WorldState).
                get call.incident_id x.incidents ≡ some (closed_at x.now (advanced true i)))
              same (f.is_done.at_last last)),
        refl,
        refl,
        refl,
      )
  policy_resolves policy incident_id call (c ∷ cs) i w w' results (own, owns) at mine steps run
        good =
      let f =
        First-call policy call (c ∷ cs) i w w' results
          (subst (λ k. get k w.incidents ≡ some i) (sym own) at) mine run good in
      let more : (i.oracle_step + 1 == length policy.required_actions) ≡ false = ground arith in
      policy_resolves policy incident_id c cs (advanced true i) f.after w' f.results owns
        (subst (λ k. get k f.after.incidents ≡ some (advanced true i)) own (f.is_done.before more))
        (oracle_for-advanced script true i ∙ mine) (omega arith) f.rest f.rest_good
