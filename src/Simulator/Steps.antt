-- ===== src/Simulator/Steps.antt =====
-- The worlds that the calls of a conductor can reach, in any order and whatever they raise
-- (simulator/postmortem_sim/conductor.py).
use ckdb_aws.Base.{Bool, Option-cases, arith, get_elem?, inl, inr}
use ckdb_aws.Domain.{Text, Value}
use ckdb_aws.Simulator.Apply.{Call, apply_action}
use ckdb_aws.Simulator.Conductor.{Conductor, Script}
use ckdb_aws.Simulator.Families.{inject_next, injected}
use ckdb_aws.Simulator.Keeping.{inject_family-Keeps}
use ckdb_aws.Simulator.Kept.{Invariant, Keeps, Keeps-modify, Keeps-read}
use ckdb_aws.Simulator.Models.{WorldState, slo_key_eq}
use ckdb_aws.Simulator.Observe.{advance_time, negsuc, pos, ℤ}

module _ (uuid5 : Text → Text) (same : Value → Value → Bool) (script : Script) where
  pub data Step : Conductor → Conductor → Type 0 where
    wait :
        (c : Conductor) (seconds : ℤ)
        → Step c (record c { state = (advance_time seconds c.state).1 })
    inject : (c : Conductor) → Step c (inject_next uuid5 script c).1
    act :
        (c : Conductor) (call : Call)
        → Step c (record c { state = (apply_action uuid5 same script call c.state).1 })

  pub data Reach (first : Conductor) : Conductor → Type 0 where
    here : Reach first first
    next : {c d : Conductor} → Reach first c → Step c d → Reach first d

  -- An invariant of the world that injections and actions keep holds in every world reached.
  module _ {P : WorldState → Type 0} (inv : Invariant uuid5 script P)
      (acts : (call : Call) → Keeps P (apply_action uuid5 same script call)) where
    advance_time-Keeps : (n : ℤ) → Keeps P (advance_time n)
    unfolding advance_time
    advance_time-Keeps (pos n) = Keeps-modify λ w h. inv.frame.on_later _ w (omega arith) h
    advance_time-Keeps (negsuc n) = Keeps-read _

    inject_next-keeps : (c : Conductor) → P c.state → P (inject_next uuid5 script c).1.state
    unfolding inject_next injected
    inject_next-keeps c h = elim (Option-cases (get_elem? script.scenarios c.next_scenario)) [
      | inl p ↦ rw (p, inject_next) h
      | inr (s, p) ↦
          rw (p, inject_next)
            ((inject_family-Keeps uuid5 script inv s.family_id s).run _
              (inv.frame.on_later _ c.state (omega arith) h))
    ]

    Step-keeps : {c d : Conductor} → Step c d → P c.state → P d.state
    Step-keeps (wait c n) h = (advance_time-Keeps n).run c.state h
    Step-keeps (inject c) h = inject_next-keeps c h
    Step-keeps (act c call) h = (acts call).run c.state h

    pub Reach-keeps : {first c : Conductor} → P first.state → Reach first c → P c.state
    Reach-keeps h here = h
    Reach-keeps h (next r st) = Step-keeps st (Reach-keeps h r)
