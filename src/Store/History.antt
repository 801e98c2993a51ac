-- ===== src/Store/History.antt =====
-- Every history of the transaction store of
-- backend/src/postmortem_backend/adapters/fakes.py, in any order of calls.
use ckdb_aws.Base.{Bool, List, Option, nat_eq, none, refl, string_eq, ◌≡◌}
use ckdb_aws.Base.Dict.{get}
use ckdb_aws.Domain.{Float, OutcomeCommand, RemediationCommand, Uuid, text_eq}
use ckdb_aws.Store.{FailPoint, Store, init, seed}
use ckdb_aws.Store.Linked.{Consistent, Consistent-of, Fresh, remediate-Consistent}
use ckdb_aws.Store.Outcome.{record_outcome}
use ckdb_aws.Store.Recorded.{outcome-Consistent}
use ckdb_aws.Store.Remediate.{Ids, remediate_and_record}

-- One call on the store. What `uuid4` draws is not in use; a test sets `fail_at` as it likes.
pub data Step : Store → Store → Type 0 where
  seeds :
      (s : Store) (service incident cited org : Uuid) → Step s (seed service incident cited org s)
  remediates :
      (s : Store) (ids : Ids) (c : RemediationCommand) (embedding : List Float)
      → Fresh ids s.tables
      → Step s (remediate_and_record ids c embedding s).1
  records :
      (s : Store) (event_id : Uuid) (c : OutcomeCommand) (embedding : List Float)
      → get event_id s.tables.episodes ≡ none
      → Step s (record_outcome event_id c embedding s).1
  injects : (s : Store) (f : Option FailPoint) → Step s (record s { fail_at = f })

pub data Reach (auto_seed : Bool) : Store → Type 0 where
  start : Reach auto_seed (init auto_seed)
  then_step : {s t : Store} → Reach auto_seed s → Step s t → Reach auto_seed t

seed-Consistent :
    (service incident cited org : Uuid) (s : Store)
    → Consistent s.tables
    → Consistent (seed service incident cited org s).tables
unfolding seed
seed-Consistent service incident cited org s h = Consistent-of s.tables _ refl refl h

Step-Consistent : {s t : Store} → Step s t → Consistent s.tables → Consistent t.tables
Step-Consistent (seeds s service incident cited org) h =
    seed-Consistent service incident cited org s h
Step-Consistent (remediates s ids c embedding f) h = remediate-Consistent ids c embedding s f h
Step-Consistent (records s event_id c embedding f) h = outcome-Consistent event_id c embedding s f h
Step-Consistent (injects s f) h = h

init-Consistent : (auto_seed : Bool) → Consistent (init auto_seed).tables
unfolding init get
init-Consistent auto_seed = record {
  linked = λ a row g. cc;
  distinct = λ a b row row' g g' same. cc;
  recorded = λ e x p g of. cc;
  agreed = λ e x a o g q. cc;
  single = λ e f x y a o p g q g' q'. cc;
}

-- In every store that calls can reach, whatever fails on the way, actions and the episodes of
-- actions correspond one to one: each action refers to an episode of the same incident and service,
-- no two actions refer to the same one, and each episode of an action has an action that refers to
-- it. Each outcome in memory is the outcome that its action holds, and memory holds one outcome of
-- an action at most. The ids that a call draws are taken to be unused.
pub Reach-Consistent : (auto_seed : Bool) (s : Store) → Reach auto_seed s → Consistent s.tables
Reach-Consistent auto_seed s start = init-Consistent auto_seed
Reach-Consistent auto_seed s (then_step {s = t} r st) =
    Step-Consistent st (Reach-Consistent auto_seed t r)
