-- ===== src/Simulator/Refused.antt =====
-- What a refused action leaves behind (simulator/postmortem_sim/conductor.py, `apply_action`).
use ckdb_aws.Action.{Action, demand, found, gets, modify, return, ◌>>=◌}
use ckdb_aws.Action.Runs.{>>=-cases}
use ckdb_aws.Base.{
  Bool, Option, Result, [], ap, err, false, if◌then◌else◌, inl, inr, none, ok-ne-err, refl, some,
  sym, true, ◌∙◌, ◌∷◌, ◌≡◌, ◌≢◌, ◌⊎◌,
}
use ckdb_aws.Base.Dict.{Dict}
use ckdb_aws.Domain.{Error, Fields, Text, Value, key_error}
use ckdb_aws.Simulator.Apply.{
  Call, apply_action, carry_out, clear_alert, clear_alerts, clear_if, finish, progress,
  resolve_incident,
}
use ckdb_aws.Simulator.Conductor.{Policy, Script, add_failed_orders, set_config, set_health}
use ckdb_aws.Simulator.Models.{Alert, Health, Incident, Service, WorldState, slo_key_eq}
use ckdb_aws.Simulator.Remedy.{
  fail_over_dependency, mutate_action, mutation, reconfigure, roll_back_deploy, scale_service,
  throttle_traffic,
}

-- The call changes nothing.
record Reads {A : Type 0} (m : Action WorldState A) : Type 0 where
  unchanged : (w : WorldState) → (m w).1 ≡ w

-- The call raises no other error than `KeyError`.
record Late {A : Type 0} (m : Action WorldState A) : Type 0 where
  key_only : (w : WorldState) (e : Error) → (m w).0 ≡ err e → e ≡ key_error

-- The call raises before it changes anything, or raises `KeyError`.
record Clean {A : Type 0} (m : Action WorldState A) : Type 0 where
  refused : (w : WorldState) (e : Error) → (m w).0 ≡ err e → ((m w).1 ≡ w) ⊎ (e ≡ key_error)

raised_as :
    {A B : Type 0} {x e : Error}
    → ◌≡◌ {A = Result Error B} (err x) (err e)
    → ◌≡◌ {A = Result Error A} (err x) (err e)
raised_as h = cc

module _ {A B : Type 0} {m : Action WorldState A} {f : A → Action WorldState B} where
  Reads->>= : Reads m → ((a : A) → Clean (f a)) → Clean (m >>= f)
  Reads->>= r c = record {
    refused = λ w e h. elim (>>=-cases m f w) [
      | inl (x, w', p, q) ↦ inl (ap (λ y. y.1) q ∙ (ap (λ y. y.1) (sym p) ∙ r.unchanged w))
      | inr (a, w', p, q) ↦
          let same : w' ≡ w = ap (λ y. y.1) (sym p) ∙ r.unchanged w in
          elim ((c a).refused w' e (sym (ap (λ y. y.0) q) ∙ h)) [
            | inl s ↦ inl (ap (λ y. y.1) q ∙ (s ∙ same))
            | inr k ↦ inr k
          ]
    ];
  }

  Clean->>= : Clean m → ((a : A) → Late (f a)) → Clean (m >>= f)
  Clean->>= c l = record {
    refused = λ w e h. elim (>>=-cases m f w) [
      | inl (x, w', p, q) ↦
          elim (c.refused w e (ap (λ y. y.0) p ∙ raised_as (sym (ap (λ y. y.0) q) ∙ h))) [
            | inl s ↦ inl (ap (λ y. y.1) q ∙ (ap (λ y. y.1) (sym p) ∙ s))
            | inr k ↦ inr k
          ]
      | inr (a, w', p, q) ↦ inr ((l a).key_only w' e (sym (ap (λ y. y.0) q) ∙ h))
    ];
  }

  Late->>= : Late m → ((a : A) → Late (f a)) → Late (m >>= f)
  Late->>= k l = record {
    key_only = λ w e h. elim (>>=-cases m f w) [
      | inl (x, w', p, q) ↦ k.key_only w e (ap (λ y. y.0) p ∙ raised_as (sym (ap (λ y. y.0) q) ∙ h))
      | inr (a, w', p, q) ↦ (l a).key_only w' e (sym (ap (λ y. y.0) q) ∙ h)
    ];
  }

Reads-read : {A : Type 0} (f : WorldState → Result Error A) → Reads (λ w. (f w, w))
Reads-read f = record { unchanged = λ w. refl }

Reads-demand : {A : Type 0} (e : Error) (o : Option A) → Reads (demand e o)
Reads-demand e none = record { unchanged = λ w. refl }
Reads-demand e (some a) = record { unchanged = λ w. refl }

Late-modify : (f : WorldState → WorldState) → Late (modify f)
Late-modify f = record { key_only = λ w e h. absurd (ok-ne-err h) }

Late-gets : {A : Type 0} (f : WorldState → A) → Late (gets f)
Late-gets f = record { key_only = λ w e h. absurd (ok-ne-err h) }

Late-return : {A : Type 0} (a : A) → Late (return {W = WorldState} a)
Late-return a = record { key_only = λ w e h. absurd (ok-ne-err h) }

Late-found : {A : Type 0} (o : Option A) → Late (found o)
Late-found none = record { key_only = λ w e h. cc }
Late-found (some a) = record { key_only = λ w e h. absurd (ok-ne-err h) }

Clean-Late : {A : Type 0} {m : Action WorldState A} → Late m → Clean m
Clean-Late l = record { refused = λ w e h. inr (l.key_only w e h) }

Clean-Reads : {A : Type 0} {m : Action WorldState A} → Reads m → Clean m
Clean-Reads r = record { refused = λ w e h. inl (r.unchanged w) }

Clean-if :
    {A : Type 0} (b : Bool) {m n : Action WorldState A}
    → Clean m
    → Clean n
    → Clean (if b then m else n)
Clean-if true c d = c
Clean-if false c d = d

Late-if :
    {A : Type 0} (b : Bool) {m n : Action WorldState A}
    → Late m
    → Late n
    → Late (if b then m else n)
Late-if true c d = c
Late-if false c d = d

ruleset lates = (Late->>=, Late-modify, Late-gets, Late-return, Late-found, Late-if)

ruleset cleans = (Clean-if, Reads->>=, Reads-read, Reads-demand)

set_health-Late : (name : Text) (to : Health) → Late (set_health name to)
unfolding set_health
set_health-Late name to = search lates

clear_if-Late : (b : Bool) (k : Text) (a : Alert) → Late (clear_if b k a)
unfolding clear_if clear_alert
clear_if-Late false k a = search lates
clear_if-Late true k a = search lates

clear_alerts-Late : (i : Incident) (d : Dict Text Alert) → Late (clear_alerts i d)
unfolding clear_alerts
clear_alerts-Late i [] = search lates
clear_alerts-Late i ((k, a) ∷ d) = Late->>= (clear_if-Late _ k a) λ _. clear_alerts-Late i d

finish-Late : (c : Call) (p : Policy) (i : Incident) → Late (finish c p i)
unfolding finish resolve_incident
finish-Late c p i = search (lates, set_health-Late, clear_alerts-Late) depth 9

module _ (uuid5 : Text → Text) (same : Value → Value → Bool) (script : Script) where
  set_config-Clean :
      (s k : Text) (v : Value) (source : Text) → Clean (set_config uuid5 script s k v source)
  unfolding set_config
  set_config-Clean s k v source = Clean-Late (Late-modify _)

  roll_back_deploy-Clean :
      (t : Text) (s : Service) (params : Fields) → Clean (roll_back_deploy uuid5 script t s params)
  unfolding roll_back_deploy
  roll_back_deploy-Clean t s params = search (cleans, Clean-Late, Late-modify)

  reconfigure-Clean : (t : Text) (params : Fields) → Clean (reconfigure uuid5 script t params)
  unfolding reconfigure
  reconfigure-Clean t params = search (cleans, set_config-Clean)

  fail_over_dependency-Clean : (params : Fields) → Clean (fail_over_dependency uuid5 script params)
  unfolding fail_over_dependency
  fail_over_dependency-Clean params = search (cleans, Clean-Late, Late-modify)

  scale_service-Clean :
      (t : Text) (s : Service) (params : Fields) → Clean (scale_service uuid5 script t s params)
  unfolding scale_service
  scale_service-Clean t s params = search (cleans, Clean-Reads, Clean-Late, Late-modify)

  throttle_traffic-Clean :
      (t : Text) (params : Fields) → Clean (throttle_traffic uuid5 script t params)
  unfolding throttle_traffic
  throttle_traffic-Clean t params = search (cleans, Clean-Reads, set_config-Clean)

  mutate_action-Clean :
      (action t : Text) (params : Fields) → Clean (mutate_action uuid5 script action t params)
  unfolding mutate_action mutation
  mutate_action-Clean action t params =
      search
        (
          cleans, Clean-Reads, Clean-Late, Late-modify, roll_back_deploy-Clean, reconfigure-Clean,
          fail_over_dependency-Clean, scale_service-Clean, throttle_traffic-Clean,
        )
        depth 14

  progress-Late : (c : Call) (b : Bool) (i : Incident) → Late (progress uuid5 same script c b i)
  unfolding progress add_failed_orders
  progress-Late c true i = Late-modify _
  progress-Late c false i = Late-modify _

  carry_out-Clean :
      (c : Call) (p : Policy) (b : Bool) (i : Incident)
      → Clean (carry_out uuid5 same script c p b i)
  unfolding carry_out
  carry_out-Clean c p b i =
      Clean->>= (mutate_action-Clean _ _ _) λ _. search (lates, progress-Late, finish-Late) depth 9

  -- An action that is refused, for whatever reason but a missing key, changes nothing in the world.
  pub apply_action_refused :
      (call : Call) (w : WorldState) (e : Error)
      → (apply_action uuid5 same script call w).0 ≡ err e
      → e ≢ key_error
      → (apply_action uuid5 same script call w).1 ≡ w
  unfolding apply_action
  apply_action_refused call w e h ne =
      let clean : Clean (apply_action uuid5 same script call) =
        search (Reads->>=, Reads-read, carry_out-Clean) in
      elim (clean.refused w e h) [ inl s ↦ s | inr k ↦ absurd (ne k) ]
