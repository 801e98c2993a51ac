-- ===== src/Consolidation/Pipeline.antt =====
-- `ConsolidationProcessor` of consolidation/postmortem_consolidation/pipeline.py. The window
-- store, the model and the embedder act on an environment of theirs, and each may raise.
use ckdb_aws.Base.{List, Result, [], any, elem, length, map, nat_eq, select, string_eq, ℕ, ◌∷◌}
use ckdb_aws.Consolidation.Apply.{apply}
use ckdb_aws.Consolidation.Grouping.{
  ChangeEvent, EpisodeGroup, group_completed_incidents, group_key,
}
use ckdb_aws.Consolidation.Repository.{CandidateRunbook, Repository, RunbookMutation, key_eq}
use ckdb_aws.Domain.{Error, Float, Text, Value, text_eq}
use ckdb_aws.Action.{Action, return, ◌>>=◌, ◌>>◌}

pub record ModelResult : Type 0 where
  pub candidate : CandidateRunbook
  pub model_id : Text
  pub prompt : Text
  pub raw_response : Text

pub data QueueMessage : Type 0 where
  row : ChangeEvent → QueueMessage
  closed_window : (watermark : ℕ) → QueueMessage

pub record ProcessingResult : Type 0 where
  pub buffered_events : ℕ
  pub completed_groups : ℕ
  pub mutations : List RunbookMutation

-- The protocols of storage.py, model.py and embedding.py.
pub record Outside (E : Type 0) : Type 0 where
  pub put_event : ChangeEvent → E → Result Error (Unit {0}) × E
  pub read_through : (watermark : ℕ) → E → Result Error (List ChangeEvent) × E
  pub archive : ModelResult → (idempotency_key : Text) → E → Result Error (Unit {0}) × E
  pub mark_processed : List ChangeEvent → (watermark : ℕ) → E → Result Error (Unit {0}) × E
  pub consolidate : EpisodeGroup → E → Result Error ModelResult × E
  pub embed : Text → E → Result Error (List Float) × E

pub record World (E : Type 0) : Type 0 where
  pub repository : Repository
  pub outside : E

abbrev pub on_outside : {E A : Type 0} → (E → Result Error A × E) → Action (World E) A
on_outside f w = ((f w.outside).0, record w { outside = (f w.outside).1 })

abbrev pub on_repository :
    {E A : Type 0} → (Repository → Result Error A × Repository) → Action (World E) A
on_repository f w = ((f w.repository).0, record w { repository = (f w.repository).1 })

abbrev with_embedding : List Float → ModelResult → ModelResult
with_embedding embedding r = record r { candidate = record (r.candidate) { embedding = embedding } }

module _ {E : Type 0} (outside : Outside E) (sha256 : Text → Text) (hash : List Value → Text) where
  -- One round of the loop over the groups.
  unfoldable pub process_group : EpisodeGroup → Action (World E) RunbookMutation
  unfolding group_key apply
  process_group group = do
    result ← on_outside (outside.consolidate group)
    embedding ← on_outside (outside.embed result.candidate.trigger_desc)
    let embedded = with_embedding embedding result
    mutation ← on_repository (apply hash embedded.candidate (group_key sha256 group))
    on_outside (outside.archive embedded (group_key sha256 group))
    return mutation

  unfoldable pub process_groups : List EpisodeGroup → Action (World E) (List RunbookMutation)
  unfolding process_group
  process_groups [] = return []
  process_groups (g ∷ gs) = do
    mutation ← process_group g
    mutations ← process_groups gs
    return (mutation ∷ mutations)

-- `[event for event in events if event.event_id in completed_event_ids]`
unfoldable pub completed_events : List EpisodeGroup → List ChangeEvent → List ChangeEvent
completed_events groups events =
    select
      (λ (e : ChangeEvent).
        any
          (λ (g : EpisodeGroup). elem e.event_id (map (λ (f : ChangeEvent). f.event_id) g.episodes))
          groups)
      events

module _ {E : Type 0} (outside : Outside E) (sha256 lower : Text → Text) (str_of : Value → Text)
    (hash : List Value → Text) where
  unfoldable pub process_window : (watermark : ℕ) → Action (World E) ProcessingResult
  unfolding process_groups completed_events group_completed_incidents
  process_window watermark = do
    events ← on_outside (outside.read_through watermark)
    let groups = group_completed_incidents lower str_of events
    mutations ← process_groups outside sha256 hash groups
    on_outside (outside.mark_processed (completed_events groups events) watermark)
    return (record { buffered_events = 0; completed_groups = length groups; mutations = mutations })

  unfoldable pub process : QueueMessage → Action (World E) ProcessingResult
  unfolding process_window
  process (row event) = do
    on_outside (outside.put_event event)
    return (record { buffered_events = 1; completed_groups = 0; mutations = [] })
  process (closed_window watermark) = process_window watermark
