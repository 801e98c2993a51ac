-- ===== src/Simulator/Kept.antt =====
-- An invariant of the world, and that injections and mutations keep it whatever they return or
-- raise (simulator/postmortem_sim/conductor.py).
use ckdb_aws.Action.{Action, demand, modify, ◌>>=◌}
use ckdb_aws.Action.Runs.{Runs, Runs->>=}
use ckdb_aws.Base.{
  Bool, Option, Result, false, if◌then◌else◌, nat_eq, none, some, string_eq, true, ℕ, ◌≡◌, ◌≤◌,
}
use ckdb_aws.Base.Dict.{put}
use ckdb_aws.Domain.{Error, Text, Value, text_eq}
use ckdb_aws.Simulator.Conductor.{Script, revised}
use ckdb_aws.Simulator.Models.{Incident, WorldState, open_incident, slo_key_eq}

-- An incident as `_open_incident` makes it.
pub record Fresh (now : ℕ) (i : Incident) : Type 0 where
  pub status_open : i.status ≡ open_incident
  pub opened_now : i.opened_at ≡ now
  pub no_step : i.oracle_step ≡ 0
  pub unresolved : i.resolved_at ≡ none
  pub untimed : i.mttr_seconds ≡ none

-- A predicate that is about the time, the settings and the incidents alone.
abbrev pub Framed : (WorldState → Type 0) → Type 0
Framed P =
    (w w' : WorldState)
    → w'.now ≡ w.now
    → w'.configs ≡ w.configs
    → w'.incidents ≡ w.incidents
    → P w
    → P w'

module _ (uuid5 : Text → Text) (script : Script) where
  -- A predicate of that kind that is kept by the writes of the time and the settings.
  pub record Frame (P : WorldState → Type 0) : Type 0 where
    pub framed : Framed P
    pub on_config :
        (service key : Text) (value : Value) (source : Text) (w : WorldState)
        → P w
        → P (revised uuid5 script service key value source w)
    pub on_later : (t : ℕ) (w : WorldState) → w.now ≤ t → P w → P (record w { now = t })

  -- One that the write of a new incident keeps too.
  pub record Invariant (P : WorldState → Type 0) : Type 0 where
    pub frame : Frame P
    pub on_opened :
        (i : Incident) (w : WorldState)
        → Fresh w.now i
        → P w
        → P (record w { incidents = put i.incident_id i w.incidents })

-- What a call keeps.
abbrev pub Keeps : {A : Type 0} → (WorldState → Type 0) → Action WorldState A → Type 0
Keeps P m = Runs (λ w w'. P w → P w') m

module _ {P : WorldState → Type 0} where
  pub Keeps->>= :
      {A B : Type 0} {m : Action WorldState A} {f : A → Action WorldState B}
      → Keeps P m
      → ((a : A) → Keeps P (f a))
      → Keeps P (m >>= f)
  Keeps->>= = Runs->>= (λ a b c p q h. q (p h))

  pub Keeps-modify :
      {f : WorldState → WorldState} → ((w : WorldState) → P w → P (f w)) → Keeps P (modify f)
  Keeps-modify h = record { run = h }

  pub Keeps-read : {A : Type 0} (f : WorldState → Result Error A) → Keeps P (λ w. (f w, w))
  Keeps-read f = record { run = λ w h. h }

  pub Keeps-demand : {A : Type 0} (e : Error) (o : Option A) → Keeps P (demand e o)
  Keeps-demand e none = record { run = λ w h. h }
  Keeps-demand e (some a) = record { run = λ w h. h }

  pub Keeps-if :
      {A : Type 0} (b : Bool) {m n : Action WorldState A}
      → Keeps P m
      → Keeps P n
      → Keeps P (if b then m else n)
  Keeps-if true k l = k
  Keeps-if false k l = l
