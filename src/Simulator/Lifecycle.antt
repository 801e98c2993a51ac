-- ===== src/Simulator/Lifecycle.antt =====
-- The incidents of the world over time (simulator/postmortem_sim/conductor.py).
use ckdb_aws.Base.{
  All, [], arith, length, nat_eq, none, ok, some, string_eq, subst, sym, ℕ, ◌-◌, ◌/◌, ◌<◌, ◌∷◌, ◌≡◌,
  ◌≤◌,
}
use ckdb_aws.Base.Dict.{All-put, Dict}
use ckdb_aws.Domain.{Text, text_eq}
use ckdb_aws.Simulator.Conductor.{Policy, Script, revised}
use ckdb_aws.Simulator.Kept.{Fresh, Invariant}
use ckdb_aws.Simulator.Models.{
  Incident, IncidentStatus, WorldState, mitigating, open_incident, resolved, slo_key_eq,
}
use ckdb_aws.Simulator.Remedy.{oracle_for}

module _ (script : Script) where
  -- What an incident's status says of its other fields.
  abbrev pub Fits : (now : ℕ) → Incident → IncidentStatus → Type 0
  Fits now i open_incident = (i.oracle_step ≡ 0) × (i.resolved_at ≡ none) × (i.mttr_seconds ≡ none)
  Fits now i mitigating =
      (policy : Policy) × (oracle_for script i ≡ ok policy)
      × (0 < i.oracle_step)
      × (i.oracle_step < length policy.required_actions)
      × (i.resolved_at ≡ none)
      × (i.mttr_seconds ≡ none)
  Fits now i resolved =
      (policy : Policy) × (t : ℕ) × (oracle_for script i ≡ ok policy)
      × (i.oracle_step ≡ length policy.required_actions)
      × (i.resolved_at ≡ some t)
      × (i.opened_at ≤ t)
      × (t ≤ now)
      × (i.mttr_seconds ≡ some ((t - i.opened_at) / 1000000))

  abbrev pub Sane : (now : ℕ) → Incident → Type 0
  Sane now i = (i.opened_at ≤ now) × Fits now i i.status

  pub record Lifecycle (w : WorldState) : Type 0 where
    pub each : All (λ (x : Text × Incident). Sane w.now x.1) w.incidents

  Fits-later : {t t' : ℕ} (i : Incident) (s : IncidentStatus) → t ≤ t' → Fits t i s → Fits t' i s
  Fits-later i open_incident le h = h
  Fits-later i mitigating le h = h
  Fits-later i resolved le (p, t, a, b, c, d, e, f) = (p, t, a, b, c, d, omega arith, f)

  Sane-later : {t t' : ℕ} (i : Incident) → t ≤ t' → Sane t i → Sane t' i
  Sane-later i le (o, f) = (omega arith, Fits-later i i.status le f)

  All-later :
      {t t' : ℕ} (d : Dict Text Incident)
      → t ≤ t'
      → All (λ (x : Text × Incident). Sane t x.1) d
      → All (λ (x : Text × Incident). Sane t' x.1) d
  All-later [] le hs = tt
  All-later ((k, i) ∷ d) le (h, hs) = (Sane-later i le h, All-later d le hs)

  Sane-Fresh : (now : ℕ) (i : Incident) → Fresh now i → Sane now i
  Sane-Fresh now i f = (
    omega (arith, f.opened_now),
    subst (Fits now i) (sym f.status_open) (f.no_step, f.unresolved, f.untimed),
  )

  module _ (uuid5 : Text → Text) where
    pub Lifecycle-Invariant : Invariant uuid5 script Lifecycle
    unfolding revised
    Lifecycle-Invariant = record {
      frame = record {
        framed = λ w w' n c i h. record { each = rw (n, i) h.each };
        on_config = λ s k v src w h. record { each = h.each };
        on_later = λ t w le h. record { each = All-later w.incidents le h.each };
      };
      on_opened = λ i w new h. record {
        each =
            All-put (λ (x : Text × Incident). Sane w.now x.1) i.incident_id i w.incidents
              (Sane-Fresh w.now i new) h.each;
      };
    }

    -- The same, with an incident beside it.
    pub record Beside (i : Incident) (w : WorldState) : Type 0 where
      pub lifecycle : Lifecycle w
      pub sane : Sane w.now i

    pub Beside-Invariant : (i : Incident) → Invariant uuid5 script (Beside i)
    unfolding revised
    Beside-Invariant i =
        let inv = Lifecycle-Invariant in
        record {
          frame = record {
            framed = λ w w' n c d h. record {
              lifecycle = inv.frame.framed w w' n c d h.lifecycle;
              sane = rw n h.sane;
            };
            on_config = λ s k v src w h. record {
              lifecycle = inv.frame.on_config s k v src w h.lifecycle;
              sane = h.sane;
            };
            on_later = λ t w le h. record {
              lifecycle = inv.frame.on_later t w le h.lifecycle;
              sane = Sane-later i le h.sane;
            };
          };
          on_opened =
              λ j w new h. record { lifecycle = inv.on_opened j w new h.lifecycle; sane = h.sane };
        }
