-- ===== src/Simulator/Incidents.antt =====
-- The life cycle of incidents in every world that is reached
-- (simulator/postmortem_sim/conductor.py).
use ckdb_aws.Action.Ensures.{Ensures, Ensures->>=, Ensures-either, Ensures-read}
use ckdb_aws.Base.{
  Bool, Option-cases, ap, arith, false, get_elem?, get_elem?-lt_length, inl, inr, length, nat_eq,
  ok, some, string_eq, true, ◌<◌, ◌∙◌, ◌≡◌,
}
use ckdb_aws.Base.Dict.{All-get, get}
use ckdb_aws.Domain.{Text, Value, text_eq}
use ckdb_aws.Simulator.Apply.{Call, apply_action, is_expected, is_resolved, target_incident}
use ckdb_aws.Simulator.Conductor.{Conductor, Policy, Script}
use ckdb_aws.Simulator.Lifecycle.{Beside, Lifecycle, Lifecycle-Invariant, Sane}
use ckdb_aws.Simulator.Load.{Fixture, new_conductor}
use ckdb_aws.Simulator.Models.{Incident, WorldState, slo_key_eq}
use ckdb_aws.Simulator.Remedy.{oracle_for}
use ckdb_aws.Simulator.Resolution.{carry_out-Lifecycle}
use ckdb_aws.Simulator.Steps.{Reach, Reach-keeps}

pub target_incident_ok :
    (call : Call) (w : WorldState) (i : Incident)
    → target_incident call w ≡ ok i
    → (get call.incident_id w.incidents ≡ some i) × (is_resolved i.status ≡ false)
unfolding target_incident
target_incident_ok call w i e = (ground arith, ground arith)

-- What the checks of a call find.
record Found (script : Script) (uuid5 : Text → Text) (i : Incident) (w : WorldState) : Type 0 where
  beside : Beside script uuid5 i w
  live : is_resolved i.status ≡ false

module _ (uuid5 : Text → Text) (same : Value → Value → Bool) (script : Script) where
  target_incident-Found :
      (call : Call) (w : WorldState) (i : Incident)
      → Lifecycle script w
      → target_incident call w ≡ ok i
      → Found script uuid5 i w
  unfolding target_incident
  target_incident-Found call w i h e =
      let (held, live) = target_incident_ok call w i e in
      record {
        beside = record {
          lifecycle = h;
          sane =
              All-get (λ (x : Text × Incident). Sane script w.now x.1) call.incident_id i
                w.incidents h.each held;
        };
        live = live;
      }

  pub is_expected-left :
      (call : Call) (policy : Policy) (i : Incident) (w : WorldState)
      → is_expected uuid5 same script call policy i w ≡ ok true
      → i.oracle_step < length policy.required_actions
  unfolding is_expected
  is_expected-left call policy i w e =
      elim (Option-cases (get_elem? policy.required_actions i.oracle_step)) [
        | inl p ↦ absurd (cc (rw (p, is_expected) at e))
        | inr (a, p) ↦ get_elem?-lt_length policy.required_actions i.oracle_step a p
      ]

  apply_action-Lifecycle :
      (call : Call)
      → Ensures
          (Lifecycle script)
          (apply_action uuid5 same script call)
          (λ _. Lifecycle script)
          (Lifecycle script)
  unfolding apply_action
  apply_action-Lifecycle call =
      Ensures->>= {Q = Found script uuid5}
        (Ensures-read (target_incident call) (λ w i. target_incident-Found call w i) (λ w h. h))
        λ i.
          Ensures->>= {Q = λ policy w. Found script uuid5 i w × (oracle_for script i ≡ ok policy)}
            (Ensures-read (λ _. oracle_for script i) (λ w policy h e. (h, e))
              (λ w h. h.beside.lifecycle))
            λ policy.
              Ensures->>=
                {Q = λ b w.
                  Found script uuid5 i w
                  × (oracle_for script i ≡ ok policy)
                  × (b ≡ true → i.oracle_step < length policy.required_actions)}
                (Ensures-read (is_expected uuid5 same script call policy i)
                  (λ w b h e.
                    (h.0, h.1, λ t. is_expected-left call policy i w (e ∙ ap (λ x. ok x) t)))
                  (λ w h. h.0.beside.lifecycle))
                λ b. record {
                  run = λ w h.
                      (carry_out-Lifecycle uuid5 script call policy i h.1 same b h.0.live h.2).run w
                        h.0.beside;
                }

  -- In every world that calls reach, whatever they raise, each incident is open with no step of its
  -- oracle's policy done, or mitigating with some of the steps done and not all, or resolved with
  -- all of them done. A resolved one has a time of resolution, which is neither before it was
  -- opened nor in the future, and the seconds between; no other has either.
  pub Reach-Lifecycle :
      {c : Conductor} (fixture : Fixture)
      → Reach uuid5 same script (new_conductor uuid5 script fixture) c
      → Lifecycle script c.state
  unfolding new_conductor
  Reach-Lifecycle fixture =
      Reach-keeps uuid5 same script (Lifecycle-Invariant script uuid5)
        (λ call. record { run = Ensures-either (apply_action-Lifecycle call) })
        (record { each = tt })
