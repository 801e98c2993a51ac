-- ===== src/Lib.antt =====
-- Postmortem: an incident responder with an organizational memory. This library models the core of
-- the backend package (backend/src/postmortem_backend; the files below without a path stand in it) and
-- of consolidation, and the simulator of incidents, and proves what keeps its actions safe.
--
-- The parts and how they interact. A signal of an incident reaches `ResponderService.handle`
-- (service.py). It is screened, recall finds memory for it, the recalled memory is screened, a
-- reasoner decides, and a decision to remediate goes through the provenance gate and the gate of
-- destructive actions to the remediation port, which changes the operational state and appends the
-- episode in one transaction. Each stage is published to the event broker. Later the outcome of the
-- action is recorded (`OutcomeService.record`), which resolves the incident. From completed incidents
-- the consolidation makes candidates, which create, reinforce or weaken runbooks.
--
-- Which file models which part:
--   Base       helpers: Boolean tests and equality, lists over native numbers, results, dictionaries
--   Domain     domain.py and errors.py. A text is its code points, a UUID its number, a float its
--              bits, a time its microseconds; metadata is a tree of values (Domain/Values)
--   Json       json_value of domain.py, by which dictionaries are made fit for JSON
--   Guardrails guardrails/: Allowlist, Provenance, Roles, Webhook (the signature check of
--              validation.py), and injection.py in Patterns and Injection. Patterns is a matcher for
--              the constructs that the patterns use. It recurses on the pattern, and a repetition is
--              of one character class, by recursion on the text, so no fuel is needed
--   Store      FakeAtomicRemediationStore of adapters/fakes.py. Its transactions work on staged
--              tables, as the source does on a deep copy. What `uuid4` and the clock give is an
--              argument of each call
--   Events     EventBroker of events.py. Each locked section is one step, and the puts into the
--              subscribers' queues, which `publish` makes after its lock, belong to its step: what is
--              proved is about calls of the broker one after another. Events/Shapes has the data
--              that events carry, without the event's own id and time
--   Service    service.py. A turn is a function on its state: the environment of the embedder, recall
--              and reasoner, the state behind the remediation port, the registry, the published
--              events and the flag `transaction_started`. The ports are parameters and may raise at
--              any call, except the sink of events, which is the broker and takes every event. Service/Stages has the body of the `try` block, Service/Handle the turn,
--              Service/Console the scores and the count that the console shows of a recall, whose
--              conversions of metadata may raise
--   Consolidation  consolidation/postmortem_consolidation: Repository and Apply are the in-memory
--              runbook repository of repository.py. A change of `versions[-1]` in place is one of
--              the last item of the list under the key. Grouping is grouping.py, Pipeline the
--              processor of pipeline.py, whose window store, model and embedder are parameters
--              that may raise at any call. Contracts has the messages of contracts.py; the formats
--              of times, decimal numbers and JSON are parameters
--   Simulator  simulator/postmortem_sim (models.py and conductor.py): the world that incidents are
--              injected into and remediated in. Its operations are calls on the world's state; the
--              attributes that no operation changes are a `Script`. Simulator/Steps has the step
--              relation of a conductor's calls
--   Recall     recall.py: the gates (Recall/Eligible), the scores (Score) and the ranking (Rank) of
--              candidates that a search found. The arithmetic of doubles is a parameter (Floats),
--              and so are `int`, `str` and `fromisoformat` of dynamic values
--   Fakes      the embedder, recall and rule-based reasoner of adapters/fakes.py
--   Action     the calls that all stateful parts are written in, which may raise and keep what was
--              written before a raise
--   Examples   the theorems at concrete inputs
--
-- What is outside the model. The Unicode database (normalization, categories, lower case), the
-- digests, and the embedder, recall and reasoner of a turn are parameters without hypotheses. The messages of
-- errors are left out. Locks are not modelled beside the atomic steps that they make. In the
-- data of RECALL_COMPLETED the recalled bundle stands for what `handle` copies from it. Whole numbers of metadata are
-- natural numbers, a changefeed timestamp is a natural number of its tenth decimal place (no sign, no
-- exponent, no NaN), and the hash of a runbook's steps is total, without the error of `json.dumps` for
-- steps that are not JSON. The SQL
-- adapters, the remote services, HTTP, configuration and infrastructure are not modelled, since they
-- are input and output or calls of libraries; evaluation and resilience probes are not modelled
-- either.
pub mod Base
pub mod Domain
pub mod Action
pub mod Floats
pub mod Guardrails
pub mod Json
pub mod Events
pub mod Store
pub mod Service
pub mod Recall
pub mod Fakes
pub mod Simulator
pub mod Examples
pub mod Consolidation
