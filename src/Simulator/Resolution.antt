-- ===== src/Simulator/Resolution.antt =====
-- What follows the checks of an action keeps the incidents' life cycle
-- (simulator/postmortem_sim/conductor.py, `apply_action` and `_resolve`).
use ckdb_aws.Action.{◌>>=◌}
use ckdb_aws.Action.Ensures.{Ensures, Ensures->>=, Ensures-kept, Ensures-modify}
use ckdb_aws.Base.{
  Bool, Bool-cases, arith, false, inl, inr, length, nat_eq, none, ok, refl, string_eq, true, ℕ, ◌<◌,
  ◌==◌, ◌∙◌, ◌≡◌, ◌≤◌,
}
use ckdb_aws.Base.Dict.{All-put, put, put-put}
use ckdb_aws.Domain.{Text, Value, text_eq}
use ckdb_aws.Simulator.Apply.{
  Call, advanced, carry_out, closed_at, finish, is_resolved, progress, resolve_incident,
}
use ckdb_aws.Simulator.Conductor.{Policy, Script, add_failed_orders}
use ckdb_aws.Simulator.Lifecycle.{
  Beside, Beside-Invariant, Fits, Lifecycle, Lifecycle-Invariant, Sane,
}
use ckdb_aws.Simulator.Models.{
  Incident, IncidentStatus, WorldState, mitigating, open_incident, resolved, slo_key_eq,
}
use ckdb_aws.Simulator.Mutations.{mutate_action-Keeps}
use ckdb_aws.Simulator.Remedy.{oracle_for}
use ckdb_aws.Simulator.Settled.{after_closing-Keeps}

module _ (script : Script) where
  unresolved_of_live :
      (now : ℕ) (i : Incident) (s : IncidentStatus)
      → is_resolved s ≡ false
      → Fits script now i s
      → (i.resolved_at ≡ none) × (i.mttr_seconds ≡ none)
  unresolved_of_live now i open_incident live f = (f.1, f.2)
  unresolved_of_live now i mitigating live f = (f.4, f.5)
  unresolved_of_live now i resolved live f = absurd (cc)

  pub oracle_for-advanced :
      (b : Bool) (i : Incident) → oracle_for script (advanced b i) ≡ oracle_for script i
  unfolding advanced oracle_for
  oracle_for-advanced false i = refl
  oracle_for-advanced true i = refl

  advanced_opened : (b : Bool) (i : Incident) → (advanced b i).opened_at ≡ i.opened_at
  unfolding advanced
  advanced_opened false i = refl
  advanced_opened true i = refl

  Sane-advanced :
      (now : ℕ) (i : Incident) (policy : Policy)
      → oracle_for script i ≡ ok policy
      → is_resolved i.status ≡ false
      → i.oracle_step < length policy.required_actions
      → ((advanced true i).oracle_step == length policy.required_actions) ≡ false
      → Sane script now i
      → Sane script now (advanced true i)
  unfolding advanced oracle_for
  Sane-advanced now i policy mine live left more h =
      let (r, m) = unresolved_of_live now i i.status live h.1 in
      (h.0, (policy, mine, omega arith, ground arith, r, m))

  Sane-closed :
      (now : ℕ) (i : Incident) (policy : Policy)
      → oracle_for script i ≡ ok policy
      → i.opened_at ≤ now
      → i.oracle_step ≡ length policy.required_actions
      → Sane script now (closed_at now i)
  unfolding closed_at oracle_for
  Sane-closed now i policy mine begun last =
      (begun, (policy, now, mine, last, refl, begun, omega arith, refl))

module _ (uuid5 : Text → Text) (script : Script) (call : Call) (policy : Policy) (i : Incident)
    (mine : oracle_for script i ≡ ok policy) where
  abbrev last_step : (expected : Bool) → Bool
  last_step expected = (advanced expected i).oracle_step == length policy.required_actions

  -- Between the write of the step and the resolution: any write of a sane incident will do.
  record Between (expected : Bool) (w : WorldState) : Type 0 where
    begun : (advanced expected i).opened_at ≤ w.now
    before_last :
        (j : Incident)
        → Sane script w.now j
        → Lifecycle script (record w { incidents = put call.incident_id j w.incidents })
    else_kept : last_step expected ≡ false → Lifecycle script w

  Lifecycle-put :
      (j : Incident) (w : WorldState)
      → Sane script w.now j
      → Lifecycle script w
      → Lifecycle script (record w { incidents = put call.incident_id j w.incidents })
  Lifecycle-put j w s h = record {
    each =
        All-put (λ (x : Text × Incident). Sane script w.now x.1) call.incident_id j w.incidents s
          h.each;
  }

  progress-Between :
      (same : Value → Value → Bool) (b : Bool)
      → is_resolved i.status ≡ false
      → (b ≡ true → i.oracle_step < length policy.required_actions)
      → Ensures
          (Beside script uuid5 i)
          (progress uuid5 same script call b i)
          (λ _. Between b)
          (Lifecycle script)
  unfolding progress add_failed_orders advanced
  progress-Between same false live left = Ensures-modify λ w h. record {
    begun = h.sane.0;
    before_last = λ j s. record { each = (Lifecycle-put j w s h.lifecycle).each };
    else_kept = λ _. record { each = h.lifecycle.each };
  }
  progress-Between same true live left = Ensures-modify λ w h. record {
    begun = h.sane.0;
    before_last = λ j s. record {
      each =
          rw (put-put call.incident_id (advanced true i) j w.incidents)
            (Lifecycle-put j w s h.lifecycle).each;
    };
    else_kept = λ more.
        Lifecycle-put (advanced true i) w
          (Sane-advanced script w.now i policy mine live (left refl) more h.sane) h.lifecycle;
  }

  resolve-Lifecycle :
      (b : Bool)
      → last_step b ≡ true
      → Ensures
          (Between b)
          (resolve_incident call.incident_id (advanced b i))
          (λ _. Lifecycle script)
          (Lifecycle script)
  unfolding resolve_incident ◌>>=◌
  resolve-Lifecycle b last = record {
    run = λ w h.
        let j = advanced b i in
        let closed =
          Sane-closed script w.now j policy (oracle_for-advanced script b i ∙ mine) h.begun
            ((nat_eq.equal_iff j.oracle_step (length policy.required_actions)).0 last) in
        (Ensures-kept
            (after_closing-Keeps (Lifecycle-Invariant script uuid5).frame.framed j
              (closed_at w.now j))
            (λ w h. h)).run
          _ (h.before_last (closed_at w.now j) closed);
  }

  finish-Lifecycle :
      (b : Bool)
      → Ensures
          (Between b)
          (finish call policy (advanced b i))
          (λ _. Lifecycle script)
          (Lifecycle script)
  unfolding finish
  finish-Lifecycle b = elim (Bool-cases (last_step b)) [
    | inl last ↦ rw last (resolve-Lifecycle b last)
    | inr more ↦ rw more (record { run = λ w h. h.else_kept more })
  ]

  pub carry_out-Lifecycle :
      (same : Value → Value → Bool) (b : Bool)
      → is_resolved i.status ≡ false
      → (b ≡ true → i.oracle_step < length policy.required_actions)
      → Ensures
          (Beside script uuid5 i)
          (carry_out uuid5 same script call policy b i)
          (λ _. Lifecycle script)
          (Lifecycle script)
  unfolding carry_out
  carry_out-Lifecycle same b live left =
      let inv = Beside-Invariant script uuid5 i in
      Ensures->>=
        (Ensures-kept (mutate_action-Keeps uuid5 script inv.frame _ _ _) (λ w h. h.lifecycle))
        λ _. Ensures->>= (Ensures-modify λ w h. inv.frame.on_later _ w (omega arith) h) λ _.
          Ensures->>= (progress-Between same b live left) λ _.
            Ensures->>= {Q = λ _. Between b} (record { run = λ w h. h })
              λ action.
                Ensures->>=
                  (Ensures-modify λ w h. record {
                    begun = h.begun;
                    before_last = λ j s. record { each = (h.before_last j s).each };
                    else_kept = λ more. record { each = (h.else_kept more).each };
                  })
                  λ _. Ensures->>= (finish-Lifecycle b) λ last. record { run = λ w h. h }
