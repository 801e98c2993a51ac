-- ===== src/Examples/Runbooks.antt =====
-- The theorems on runbooks at concrete inputs.
use ckdb_aws.Action.{◌>>=◌}
use ckdb_aws.Base.{All, List, Result, [], err, map, nat_eq, ok, refl, string_eq, true, ℕ, ◌∷◌, ◌≡◌}
use ckdb_aws.Base.Dict.{get, put, set_default}
use ckdb_aws.Base.Sort.{insert, sort}
use ckdb_aws.Consolidation.Again.{OnlyNoops, process_again}
use ckdb_aws.Consolidation.Apply.{
  apply, apply_all, change, created, keep, key_of, mutation_of, new_runbook, reinforced, revised,
  versions_of,
}
use ckdb_aws.Consolidation.Grouping.{
  ChangeEvent, EpisodeGroup, completed_group, event_leb, group_completed_incidents, group_from,
  group_key, groups_of, incident_eq, item_leb, outcome_for, parse_runbook_outcome,
}
use ckdb_aws.Consolidation.Members.{Sound, group_completed_incidents-Sound}
use ckdb_aws.Consolidation.Pipeline.{Outside, World, process_group, process_groups}
use ckdb_aws.Consolidation.Replay.{apply_again, failed-creates_nothing, identity}
use ckdb_aws.Consolidation.Repository.{
  CandidateRunbook, LocalRunbook, Repository, RunbookMutation, RunbookOutcome, create, key_eq,
  new_repository, noop, rb,
}
use ckdb_aws.Consolidation.Valid.{Valid, apply_all-Valid}
use ckdb_aws.Domain.{Error, Text, Value, end, lookup, str, text, text_beq, text_eq, text_leb}
use ckdb_aws.Examples.Data.{vector}
use ckdb_aws.Simulator.Models.{slo_key_eq}

abbrev hash : List Value → Text
hash steps = text "h"

abbrev candidate : CandidateRunbook
candidate = record {
  org_id = text "org";
  agent_id = text "agent";
  incident_id = text "i";
  service_id = text "s";
  name = text "roll back";
  trigger_desc = text "timeouts";
  steps = str (text "roll back") ∷ [];
  preconditions = [];
  postconditions = [];
  service_tags = [];
  error_signatures = [];
  outcome = RunbookOutcome.success;
  source_event_ids = [];
  embedding = vector;
}

abbrev empty_repository : Repository
empty_repository = record { reinforcements_to_activate = 2; runbooks = []; processed = [] }

abbrev once : Repository
once = (apply hash candidate (text "k") empty_repository).1

abbrev counterexample : CandidateRunbook
counterexample = record candidate { outcome = RunbookOutcome.failed }

apply_all-Valid_example :
    Valid
      (apply_all hash ((candidate, text "k") ∷ (counterexample, text "l") ∷ []) empty_repository)
unfolding new_repository
apply_all-Valid_example =
    apply_all-Valid hash 2 ((candidate, text "k") ∷ (counterexample, text "l") ∷ [])
      empty_repository refl

abbrev other : CandidateRunbook
other = record candidate { name = text "restart" }

-- Calls under another key and, again, under the same.
abbrev further : List (CandidateRunbook × Text)
further = (other, text "l") ∷ (counterexample, text "k") ∷ []

apply_again_example : apply hash counterexample (text "k") (apply_all hash further once) ≡ (
  ok (record (mutation_of create (new_runbook hash candidate 1 [])) {
    operation = noop;
    idempotent_replay = true;
  }),
  apply_all hash further once,
)
unfolding apply change revised created new_runbook keep get put set_default text_beq
apply_again_example =
    apply_again hash candidate counterexample (text "k") further empty_repository
      (mutation_of create (new_runbook hash candidate 1 [])) refl

failed-creates_nothing_example :
    map identity (versions_of (key_of candidate) (apply hash counterexample (text "l") once).1)
    ≡ map identity (versions_of (key_of candidate) once)
failed-creates_nothing_example =
    failed-creates_nothing hash counterexample (text "l") once (key_of candidate) refl

-- Two runbooks get one id: the second versions under two keys.
abbrev second : CandidateRunbook → CandidateRunbook
second c = record c { steps = [] }

abbrev by_steps : List Value → Text
by_steps [] = text "none"
by_steps (x ∷ xs) = text "some"

abbrev collided : Repository
collided =
    apply_all by_steps
      ((candidate, text "a")
        ∷ (other, text "b")
        ∷ (second candidate, text "c")
        ∷ (second other, text "d")
        ∷ [])
      empty_repository

same_id :
    map (λ (r : LocalRunbook). r.runbook_id) (versions_of (key_of candidate) collided)
      ≡ rb 1 1 ∷ rb 2 2 ∷ []
    × map (λ (r : LocalRunbook). r.runbook_id) (versions_of (key_of other) collided)
      ≡ rb 2 1 ∷ rb 2 2 ∷ []
unfolding apply_all apply change revised created new_runbook keep get put set_default text_beq
same_id = (refl, refl)

-- A window store, a model and an embedder that answer alike each time.
abbrev outside : Outside (Unit {0})
outside = record {
  put_event = λ event u. (ok tt, u);
  read_through = λ watermark u. (ok [], u);
  archive = λ result key u. (ok tt, u);
  mark_processed = λ events watermark u. (ok tt, u);
  consolidate = λ group u. (
    ok (record { candidate = candidate; model_id = text "model"; prompt = []; raw_response = [] }),
    u,
  );
  embed = λ words u. (ok vector, u);
}

abbrev group : EpisodeGroup
group = record {
  org_id = text "org";
  agent_id = text "agent";
  incident_id = text "i";
  service_id = text "s";
  episodes = [];
  outcome = RunbookOutcome.success;
}

abbrev other_group : EpisodeGroup
other_group = record group { incident_id = text "j" }

abbrev sha256 : Text → Text
sha256 t = t

abbrev groups : List EpisodeGroup
groups = group ∷ other_group ∷ []

abbrev before : World (Unit {0})
before = record { repository = empty_repository; outside = tt }

abbrev pass : World (Unit {0}) → Result Error (List RunbookMutation) × World (Unit {0})
pass = process_groups outside sha256 hash groups

abbrev returned : Result Error (List RunbookMutation) → List RunbookMutation
returned (ok ms) = ms
returned (err e) = []

process_again_example :
    ((pass (pass before).1).1.repository ≡ (pass before).1.repository)
    × OnlyNoops (pass (pass before).1).0
unfolding process_groups process_group ◌>>=◌ apply change revised reinforced created new_runbook
    keep get put set_default text_beq group_key sort insert text_leb
process_again_example =
    process_again outside sha256 hash groups before (returned (pass before).0) tt refl

abbrev event : Text → ℕ → ChangeEvent
event kind time = record {
  event_id = text "e";
  org_id = text "org";
  agent_id = text "agent";
  incident_id = text "i";
  service_id = text "s";
  event_type = kind;
  content = [];
  occurred_at = time;
  updated_at = time;
  metadata = end;
}

abbrev events : List ChangeEvent
events = event (text "outcome") 2 ∷ event (text "signal") 1 ∷ []

abbrev Served : ChangeEvent → Type 0
Served e = e.service_id ≡ text "s"

abbrev lower : Text → Text
lower t = text "resolved"

abbrev str_of : Value → Text
str_of v = []

group_completed_incidents-Sound_example :
    All (Sound Served lower str_of) (group_completed_incidents lower str_of events)
group_completed_incidents-Sound_example =
    group_completed_incidents-Sound Served lower str_of events (refl, (refl, tt))

two_events :
    map
      (λ (g : EpisodeGroup). map (λ (e : ChangeEvent). e.occurred_at) g.episodes)
      (group_completed_incidents lower str_of events)
    ≡ (1 ∷ 2 ∷ []) ∷ []
unfolding group_completed_incidents groups_of completed_group outcome_for parse_runbook_outcome sort
    insert event_leb item_leb text_leb group_from get put text_beq lookup
two_events = refl
