-- ===== src/Simulator/Mutations.antt =====
-- The mutations and the resolution of simulator/postmortem_sim/conductor.py keep every invariant.
use ckdb_aws.Action.{modify}
use ckdb_aws.Base.{refl, ◌≡◌}
use ckdb_aws.Domain.{Fields, Text}
use ckdb_aws.Simulator.Conductor.{Script}
use ckdb_aws.Simulator.Framed.{set_config-Frame}
use ckdb_aws.Simulator.Kept.{
  Frame, Keeps, Keeps->>=, Keeps-demand, Keeps-if, Keeps-modify, Keeps-read,
}
use ckdb_aws.Simulator.Models.{Service, WorldState, slo_key_eq}
use ckdb_aws.Simulator.Remedy.{
  fail_over_dependency, move_dependency, mutate_action, mutation, put_service, reconfigure,
  roll_back, roll_back_deploy, scale_service, throttle_traffic,
}

module _ (uuid5 : Text → Text) (script : Script) {P : WorldState → Type 0}
    (frame : Frame uuid5 script P) where
  framed-Keeps :
      (f : WorldState → WorldState)
      → ((w : WorldState) → (f w).now ≡ w.now)
      → ((w : WorldState) → (f w).configs ≡ w.configs)
      → ((w : WorldState) → (f w).incidents ≡ w.incidents)
      → Keeps P (modify f)
  framed-Keeps f a b c = Keeps-modify λ w. frame.framed w (f w) (a w) (b w) (c w)

  roll_back_deploy-Keeps :
      (target : Text) (s : Service) (params : Fields)
      → Keeps P (roll_back_deploy uuid5 script target s params)
  unfolding roll_back_deploy roll_back
  roll_back_deploy-Keeps target s params =
      Keeps->>= (Keeps-demand _ _) λ version. framed-Keeps _ (λ w. refl) (λ w. refl) (λ w. refl)

  reconfigure-Keeps :
      (target : Text) (params : Fields) → Keeps P (reconfigure uuid5 script target params)
  unfolding reconfigure
  reconfigure-Keeps target params =
      search (Keeps->>=, Keeps-demand, set_config-Frame uuid5 script frame)

  fail_over_dependency-Keeps :
      (params : Fields) → Keeps P (fail_over_dependency uuid5 script params)
  unfolding fail_over_dependency move_dependency
  fail_over_dependency-Keeps params = Keeps->>= (Keeps-read _) λ dependency.
      Keeps->>= (Keeps-read _) λ destination. framed-Keeps _ (λ w. refl) (λ w. refl) (λ w. refl)

  put_service-Keeps :
      (name : Text) (s : Service) → Keeps P (modify (put_service uuid5 script name s))
  unfolding put_service
  put_service-Keeps name s = framed-Keeps _ (λ w. refl) (λ w. refl) (λ w. refl)

  scale_service-Keeps :
      (target : Text) (s : Service) (params : Fields)
      → Keeps P (scale_service uuid5 script target s params)
  unfolding scale_service
  scale_service-Keeps target s params =
      search (Keeps->>=, Keeps-demand, Keeps-if, Keeps-read, put_service-Keeps)

  throttle_traffic-Keeps :
      (target : Text) (params : Fields) → Keeps P (throttle_traffic uuid5 script target params)
  unfolding throttle_traffic
  throttle_traffic-Keeps target params =
      search (Keeps->>=, Keeps-demand, Keeps-if, Keeps-read, set_config-Frame uuid5 script frame)

  mutation-Keeps :
      (action target : Text) (s : Service) (params : Fields)
      → Keeps P (mutation uuid5 script action target s params)
  unfolding mutation
  mutation-Keeps action target s params =
      search
        (
          Keeps-if, Keeps-read, roll_back_deploy-Keeps, reconfigure-Keeps, put_service-Keeps,
          fail_over_dependency-Keeps, scale_service-Keeps, throttle_traffic-Keeps,
        )
        depth 12

  pub mutate_action-Keeps :
      (action target : Text) (params : Fields)
      → Keeps P (mutate_action uuid5 script action target params)
  unfolding mutate_action
  mutate_action-Keeps action target params =
      search (Keeps->>=, Keeps-demand, Keeps-read, mutation-Keeps)
