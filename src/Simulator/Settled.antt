-- ===== src/Simulator/Settled.antt =====
-- An action of a responder keeps an invariant that no write of an incident breaks
-- (simulator/postmortem_sim/conductor.py, `apply_action`).
use ckdb_aws.Action.{gets, return, ◌>>=◌, ◌>>◌}
use ckdb_aws.Base.{Bool, [], arith, false, nat_eq, refl, string_eq, true, ◌∷◌}
use ckdb_aws.Base.Dict.{Dict, put}
use ckdb_aws.Domain.{Text, Value, text_eq}
use ckdb_aws.Simulator.Apply.{
  Call, apply_action, carry_out, clear_alert, clear_alerts, clear_if, finish, progress,
  resolve_incident,
}
use ckdb_aws.Simulator.Conductor.{Policy, Script, set_health}
use ckdb_aws.Simulator.Framed.{add_failed_orders-Frame, set_health-Frame}
use ckdb_aws.Simulator.Kept.{
  Frame, Framed, Keeps, Keeps->>=, Keeps-demand, Keeps-if, Keeps-modify, Keeps-read,
}
use ckdb_aws.Simulator.Models.{Alert, Incident, WorldState, healthy, slo_key_eq}
use ckdb_aws.Simulator.Mutations.{mutate_action-Keeps}

module _ {P : WorldState → Type 0} (framed : Framed P) where
  clear_if-Keeps : (b : Bool) (key : Text) (a : Alert) → Keeps P (clear_if b key a)
  unfolding clear_if clear_alert
  clear_if-Keeps false key a = Keeps-read _
  clear_if-Keeps true key a = Keeps->>= (Keeps-modify λ w h. framed w _ refl refl refl h) λ _.
      Keeps->>= (Keeps-read _) λ held.
        Keeps->>= (Keeps-demand _ held) λ slo. Keeps-modify λ w h. framed w _ refl refl refl h

  pub clear_alerts-Keeps :
      (i : Incident) (alerts : Dict Text Alert) → Keeps P (clear_alerts i alerts)
  unfolding clear_alerts
  clear_alerts-Keeps i [] = Keeps-read _
  clear_alerts-Keeps i ((key, a) ∷ alerts) =
      Keeps->>= (clear_if-Keeps _ key a) λ _. clear_alerts-Keeps i alerts

  -- What `_resolve` does after its write of the incident.
  pub after_closing-Keeps :
      (i j : Incident)
      → Keeps P (
          set_health i.service healthy
          >> (gets (λ (w : WorldState). w.alerts) >>= λ alerts. clear_alerts i alerts >> return j))
  after_closing-Keeps i j = Keeps->>= (set_health-Frame framed i.service healthy) λ _.
      Keeps->>= (Keeps-read _) λ alerts. Keeps->>= (clear_alerts-Keeps i alerts) λ _. Keeps-read _

module _ (uuid5 : Text → Text) (script : Script) {P : WorldState → Type 0}
    (frame : Frame uuid5 script P) where
  module _
      (free : (k : Text) (i : Incident) (w : WorldState)
        → P w
        → P (record w { incidents = put k i w.incidents }))
      (same : Value → Value → Bool) where
    resolve_incident-Keeps : (k : Text) (i : Incident) → Keeps P (resolve_incident k i)
    unfolding resolve_incident
    resolve_incident-Keeps k i =
        Keeps->>= (Keeps-read _)
          λ now. Keeps->>= (Keeps-modify (free k _)) λ _. after_closing-Keeps frame.framed i _

    progress-Keeps :
        (c : Call) (b : Bool) (i : Incident) → Keeps P (progress uuid5 same script c b i)
    unfolding progress
    progress-Keeps c true i = Keeps-modify (free _ _)
    progress-Keeps c false i = add_failed_orders-Frame uuid5 script frame i 2 _

    finish-Keeps : (c : Call) (p : Policy) (i : Incident) → Keeps P (finish c p i)
    unfolding finish
    finish-Keeps c p i = search (Keeps-if, Keeps-read, resolve_incident-Keeps)

    carry_out-Keeps :
        (c : Call) (p : Policy) (b : Bool) (i : Incident)
        → Keeps P (carry_out uuid5 same script c p b i)
    unfolding carry_out
    carry_out-Keeps c p b i = Keeps->>= (mutate_action-Keeps uuid5 script frame _ _ _) λ _.
        Keeps->>= (Keeps-modify λ w h. frame.on_later _ w (omega arith) h) λ _.
          Keeps->>= (progress-Keeps c b i) λ _. Keeps->>= (Keeps-read _) λ action.
            Keeps->>= (Keeps-modify λ w h. frame.framed w _ refl refl refl h)
              λ _. Keeps->>= (finish-Keeps c p _) λ last. Keeps-read _

    pub apply_action-Keeps : (c : Call) → Keeps P (apply_action uuid5 same script c)
    unfolding apply_action
    apply_action-Keeps c = search (Keeps->>=, Keeps-read, carry_out-Keeps)
