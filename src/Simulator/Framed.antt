-- ===== src/Simulator/Framed.antt =====
-- The shared writes of simulator/postmortem_sim/conductor.py keep what is about the time, the
-- settings and the incidents.
use ckdb_aws.Base.{refl, ℕ}
use ckdb_aws.Domain.{Text, Value}
use ckdb_aws.Simulator.Conductor.{Script, add_failed_orders, set_config, set_health}
use ckdb_aws.Simulator.Kept.{
  Frame, Framed, Keeps, Keeps->>=, Keeps-demand, Keeps-modify, Keeps-read,
}
use ckdb_aws.Simulator.Models.{Health, Incident, WorldState, slo_key_eq}

pub set_health-Frame :
    {P : WorldState → Type 0}
    → Framed P
    → (name : Text) (to : Health) → Keeps P (set_health name to)
unfolding set_health
set_health-Frame framed name to =
    Keeps->>= (Keeps-read _)
      λ held. Keeps->>= (Keeps-demand _ held) λ s. Keeps-modify λ w h. framed w _ refl refl refl h

module _ (uuid5 : Text → Text) (script : Script) {P : WorldState → Type 0}
    (frame : Frame uuid5 script P) where
  pub set_config-Frame :
      (service key : Text) (value : Value) (source : Text)
      → Keeps P (set_config uuid5 script service key value source)
  unfolding set_config
  set_config-Frame service key value source =
      Keeps-modify λ w h. frame.on_config service key value source w h

  pub add_failed_orders-Frame :
      (i : Incident) (count : ℕ) (code : Text)
      → Keeps P (add_failed_orders uuid5 script i count code)
  unfolding add_failed_orders
  add_failed_orders-Frame i count code = Keeps-modify λ w h. frame.framed w _ refl refl refl h
