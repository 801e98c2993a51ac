-- ===== src/Simulator/Progress.antt =====
-- How actions bring an incident to its resolution (simulator/postmortem_sim/conductor.py,
-- `apply_action`).
use mathlib.Core.Option.{some-injective}
use ckdb_aws.Action.{Action, ◌>>=◌}
use ckdb_aws.Action.Ensures.{
  Ensures, Ensures->>=, Ensures-kept, Ensures-modify, Ensures-read, Ensures-weaken, Post,
}
use ckdb_aws.Base.{
  Bool, Bool-cases, false, inl, inr, length, nat_eq, ok, refl, some, string_eq, subst, sym, true, ℕ,
  ◌==◌, ◌∙◌, ◌≡◌,
}
use ckdb_aws.Base.Dict.{get, get-put_self}
use ckdb_aws.Domain.{Text, Value, text_eq}
use ckdb_aws.Simulator.Apply.{
  ActionResult, Call, advanced, apply_action, call_outcome, carry_out, closed_at, finish,
  is_expected, progress, resolve_incident, target_incident,
}
use ckdb_aws.Simulator.Conductor.{Policy, Script, add_failed_orders, revised}
use ckdb_aws.Simulator.Incidents.{target_incident_ok}
use ckdb_aws.Simulator.Kept.{Frame}
use ckdb_aws.Simulator.Models.{Incident, WorldState, slo_key_eq}
use ckdb_aws.Simulator.Mutations.{mutate_action-Keeps}
use ckdb_aws.Simulator.Remedy.{oracle_for}
use ckdb_aws.Simulator.Settled.{after_closing-Keeps}

-- The incident under an id.
abbrev pub At : (incident_id : Text) → Incident → WorldState → Type 0
At incident_id i w = get incident_id w.incidents ≡ some i

abbrev pub Any : WorldState → Type 0
Any w = Unit

module _ (uuid5 : Text → Text) (script : Script) where
  At-Frame : (incident_id : Text) (i : Incident) → Frame uuid5 script (At incident_id i)
  unfolding revised
  At-Frame incident_id i = record {
    framed = λ w w' n c d h. rw d h;
    on_config = λ s k v src w h. h;
    on_later = λ t w le h. h;
  }

  progress_at :
      (same : Value → Value → Bool) (call : Call) (i : Incident) (b : Bool)
      → Ensures
          (At call.incident_id i)
          (progress uuid5 same script call b i)
          (λ _. At call.incident_id (advanced b i))
          Any
  unfolding progress advanced add_failed_orders
  progress_at same call i false = Ensures-modify λ w h. h
  progress_at same call i true =
      Ensures-modify λ w h. get-put_self call.incident_id (advanced true i) w.incidents

  module _ (same : Value → Value → Bool) (call : Call) (policy : Policy) (i : Incident)
      (b : Bool) where
    abbrev pub moved : Incident
    moved = advanced b i

    abbrev pub is_last : Bool
    is_last = moved.oracle_step == length policy.required_actions

    -- The incident after the call: resolved by the last step of its policy, else moved.
    pub record Done (w : WorldState) : Type 0 where
      pub at_last : is_last ≡ true → At call.incident_id (closed_at w.now moved) w
      pub before : is_last ≡ false → At call.incident_id moved w

    progress-At :
        Ensures
          (At call.incident_id i)
          (progress uuid5 same script call b i)
          (λ _. At call.incident_id moved)
          Any
    progress-At = progress_at same call i b

    -- The clock reads the time, and the incident was closed at it.
    ClosedAt : ℕ → WorldState → Type 0
    ClosedAt t w = (w.now ≡ t) × At call.incident_id (closed_at t moved) w

    resolve-Done :
        is_last ≡ true
        → Ensures
            (At call.incident_id moved)
            (resolve_incident call.incident_id moved)
            (λ _. Done)
            Any
    unfolding resolve_incident ◌>>=◌ ClosedAt
    resolve-Done last = record {
      run = λ w h.
          let j = closed_at w.now moved in
          (Ensures-weaken
              (Ensures-kept
                (after_closing-Keeps {P = ClosedAt w.now}
                  (λ v v' at_now c is h. (at_now ∙ h.0, rw is h.1)) moved j)
                (λ w h. tt))
              (λ _ w' k. record {
                at_last =
                    λ _. subst (λ t. At call.incident_id (closed_at t moved) w') (sym k.0) k.1;
                before = λ more. absurd (cc (last, more));
              })).run
            _ (refl, get-put_self call.incident_id j w.incidents);
    }

    finish-Done : Ensures (At call.incident_id moved) (finish call policy moved) (λ _. Done) Any
    unfolding finish
    finish-Done = elim (Bool-cases is_last) [
      | inl last ↦ rw last (resolve-Done last)
      | inr more ↦ rw more (record {
        run = λ w h. record { at_last = λ last. absurd (cc (last, more)); before = λ _. h };
      })
    ]

    carry_out-Done :
        Ensures
          (At call.incident_id i)
          (carry_out uuid5 same script call policy b i)
          (λ r w. (r.outcome ≡ call_outcome b) × Done w)
          Any
    unfolding carry_out
    carry_out-Done =
        let frame = At-Frame call.incident_id i in
        Ensures->>= (Ensures-kept (mutate_action-Keeps uuid5 script frame _ _ _) (λ w h. tt)) λ _.
          Ensures->>= (Ensures-modify λ w h. h) λ _. Ensures->>= progress-At λ _.
            Ensures->>= {Q = λ _. At call.incident_id moved} (record { run = λ w h. h })
              λ action.
                Ensures->>= (Ensures-modify λ w h. h)
                  λ _. Ensures->>= finish-Done λ last. record { run = λ w h. (refl, h) }

  -- A call on an incident that returned was one with a policy, and is done.
  pub record Called (same : Value → Value → Bool) (call : Call) (i : Incident) (r : ActionResult)
      (w : WorldState) : Type 0 where
    pub policy : Policy
    pub expected : Bool
    pub mine : oracle_for script i ≡ ok policy
    pub outcome_is : r.outcome ≡ call_outcome expected
    pub done : Done same call policy i expected w

  pub apply_action-Called :
      (same : Value → Value → Bool) (call : Call) (i : Incident)
      → Ensures
          (At call.incident_id i)
          (apply_action uuid5 same script call)
          (Called same call i)
          Any
  unfolding apply_action
  apply_action-Called same call i =
      Ensures->>= {Q = λ j w. (j ≡ i) × At call.incident_id i w}
        (Ensures-read (target_incident call)
          (λ w j h e. (some-injective _ _ (sym (target_incident_ok call w j e).0 ∙ h), h))
          (λ w h. tt))
        λ j. record {
          run = λ w h.
              subst (λ k. Post (Called same call i) Any (rest k w)) (sym h.0) ((known).run w h.1);
        }
    where
      rest : Incident → Action WorldState ActionResult
      rest k = (λ (w : WorldState). (oracle_for script k, w)) >>= λ policy.
          (λ (w : WorldState). (is_expected uuid5 same script call policy k w, w)) >>= λ b.
          carry_out uuid5 same script call policy b k

      known : Ensures (At call.incident_id i) (rest i) (Called same call i) Any
      known =
          Ensures->>= {Q = λ policy w. (oracle_for script i ≡ ok policy) × At call.incident_id i w}
            (Ensures-read (λ _. oracle_for script i) (λ w policy h e. (e, h)) (λ w h. tt))
            λ policy.
              Ensures->>= {Q = λ b w. (oracle_for script i ≡ ok policy) × At call.incident_id i w}
                (Ensures-read (is_expected uuid5 same script call policy i) (λ w b h e. h)
                  (λ w h. tt))
                λ b. record {
                  run = λ w h.
                      (Ensures-weaken (carry_out-Done same call policy i b) (λ r w' k. record {
                        policy = policy;
                        expected = b;
                        mine = h.0;
                        outcome_is = k.0;
                        done = k.1;
                      })).run
                        w h.1;
                }
