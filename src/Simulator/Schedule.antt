-- ===== src/Simulator/Schedule.antt =====
-- The schedule of injections (simulator/postmortem_sim/conductor.py, `inject_next` and
-- `remaining_scenarios`).
use ckdb_aws.Base.{
  Option-cases, arith, err, get_elem?, get_elem?-lt_length, inl, inr, length-le_of_get_elem?, refl,
  suc, zero, ℕ, ◌≡◌,
}
use ckdb_aws.Domain.{Text, simulation_error}
use ckdb_aws.Simulator.Conductor.{Conductor, Script}
use ckdb_aws.Simulator.Families.{inject_next, remaining_scenarios}
use ckdb_aws.Simulator.Models.{slo_key_eq}

module _ (uuid5 : Text → Text) (script : Script) where
  inject_next_none :
      (c : Conductor)
      → remaining_scenarios uuid5 script c ≡ 0
      → inject_next uuid5 script c ≡ (err simulation_error, c)
  unfolding inject_next
  inject_next_none c h = elim (Option-cases (get_elem? script.scenarios c.next_scenario)) [
    | inl p ↦ rw (p, inject_next) refl
    | inr (s, p) ↦ absurd (omega (arith, get_elem?-lt_length script.scenarios c.next_scenario s p))
  ]

  inject_next_some :
      (c : Conductor) (n : ℕ)
      → remaining_scenarios uuid5 script c ≡ suc n
      → remaining_scenarios uuid5 script (inject_next uuid5 script c).1 ≡ n
  unfolding inject_next
  inject_next_some c n h = elim (Option-cases (get_elem? script.scenarios c.next_scenario)) [
    | inl p ↦ absurd (omega (arith, length-le_of_get_elem? script.scenarios c.next_scenario p))
    | inr (s, p) ↦ rw (p, inject_next) (omega arith)
  ]

  -- `n` calls of `inject_next`, whatever they return
  abbrev pub injections : ℕ → Conductor → Conductor
  injections zero c = c
  injections (suc n) c = injections n (inject_next uuid5 script c).1

  -- Each call of `inject_next` uses up one scenario, also when the injection raises: after as many
  -- calls as scenarios remained, none remains, and every further call raises `SimulationError`
  -- and changes nothing.
  pub injections_drain :
      (c : Conductor) (n : ℕ)
      → remaining_scenarios uuid5 script c ≡ n
      → (remaining_scenarios uuid5 script (injections n c) ≡ 0)
        × (inject_next uuid5 script (injections n c) ≡ (err simulation_error, injections n c))
  injections_drain c zero h = (h, inject_next_none c h)
  injections_drain c (suc n) h =
      injections_drain (inject_next uuid5 script c).1 n (inject_next_some c n h)
