-- ===== src/Lib.antt =====
-- The analytics of bank calls: verified models of the parts that decide what an agent may do, what
-- reaches the model provider, what is written to the event log, and what an analysis may publish.
--
-- A call is transcribed, four agents (classification, quality, compliance, summary) work on the
-- transcript, and the fan-in joins their results into one response. Each agent runs in the bounded
-- runtime, which asks a model for tool calls turn by turn, lets the registry validate and the
-- authorizer admit them, executes the read-only tools in parallel tasks and the terminal tool last,
-- and records every step as a lifecycle event. The model is reached through the resilient client,
-- with a semaphore, a deadline, retries and a circuit breaker.
--
-- Files, with the code that each is about:
--   Prelude: names of the libraries, Boolean tests, lists as sets (Prelude/Sets), results that raise.
--   Texts: src/mtbank_ai/domain/base.py, the bounds of identifiers and of long texts.
--   Agent/Contracts: src/mtbank_ai/agent_runtime/contracts.py, records and validators.
--   Agent/Circuit: CircuitBreaker of src/mtbank_ai/agent_runtime/retry.py. Circuit/Defs has one function
--     per method; Circuit/Invariant runs any sequence of them, Circuit/Trip counts admissions.
--   Agent/Retry: ResilientModelClient.complete of the same file. Retry/Defs follows it from
--     `complete` down to one attempt; Retry/Delay, Retry/Bounds, Retry/Success,
--     Retry/Recovery and Retry/Probe prove.
--   Agent/Stream: ResilientModelClient.stream and _stream of the same file, over the records of Agent/Retry.
--     Stream/Defs follows the code; Stream/Once, Stream/Streams, Stream/Delivered and Stream/Lease prove.
--   Agent/Tools: src/mtbank_ai/agent_runtime/tools.py (Tools/Registry, Tools/Calls) and
--     src/mtbank_ai/agent_runtime/authorization.py (Tools/Authorizer, Tools/Authorized).
--   Agent/Events: src/mtbank_ai/agent_runtime/events.py and src/mtbank_ai/domain/events.py; the recorder
--     is Events/Recorder, the redaction of payloads Events/Payload.
--   Agent/Runtime: src/mtbank_ai/agent_runtime/runtime.py. Runtime/Action is the monad of coroutines that
--     change a state and may raise, with its rules; Runtime/Steps, Runtime/Calls and Runtime/Turn
--     translate `_run` and its helpers; the other files prove, phase by phase of a turn.
--   Analysis/Policies: src/mtbank_ai/policies/loader.py, the models of the policies.
--   Analysis/Models: the types of src/mtbank_ai/domain with their validators.
--   Analysis/Aggregate: src/mtbank_ai/workflow/aggregation.py; Analysis/Scores, Analysis/Valid and
--     Analysis/FanIn prove.
--   Analysis/Trends: src/mtbank_ai/trends.py. Trends/Defs has the preflight, the finalization and the
--     repository in memory; Trends/Reports, Trends/Answers and Trends/Stored prove.
--   Speech: src/mtbank_ai/speech/streaming.py. Speech/Frames has the binary frames, Speech/Start the start
--     and end messages, Speech/Session the session over a queue of incoming messages, Speech/Order the
--     order of what it sends, Speech/Answers what it receives.
--   Speech/Roles: src/mtbank_ai/speech/roles.py, with the types of src/mtbank_ai/speech/contracts.py and
--     src/mtbank_ai/domain/transcript.py. Roles/Grouping follows the speakers, Roles/Evidence and
--     Roles/Resolved the evidence.
--   Speech/Rolling: RollingStreamingSession of services/speech/streaming.py, which receives the frames
--     of such a session. Rolling/Ring relates its ring to the sound heard, Rolling/Budget bounds what it
--     spends, Rolling/Final is about its updates. Rolling/Ogg is the validator of Ogg pages of the same
--     file; Rolling/Cuts, Rolling/Pages, Rolling/Feeding and Rolling/Fuel prove.
--   Api/BodyLimits: src/mtbank_ai/api/body_limits.py, around any application.
--   Examples: runs at concrete inputs.
--
-- How the code is read. A state is a record that is passed on, an exception is a value, and what a
-- raise leaves behind is kept. What the world decides is an argument: clock readings, random numbers,
-- the answers of the model and of the handlers, which task of a parallel call comes first, what other
-- tasks do to the breaker meanwhile, and whether the sink stores an event. Code outside the repository
-- is a parameter: the JSON decoder with the argument models, the digest of an event,
-- how identifiers of events are stripped, the model client,
-- the division of floats in a rate, the transcriber, the
-- resolver of roles, the application behind the body limits.
-- Times are natural numbers of ticks, budgets units of a power of ten, random numbers units of
-- 2 ^ -53, weights units of 10 ^ -20, confidences units of 2 ^ -1074. A turn is one step of a recursion on
-- `max_turns`, an attempt one step of a recursion on `max_attempts`, so that no
-- fuel is chosen; only the loop over Ogg pages runs on fuel, one more than the bytes it looks at, which
-- is proved to be enough.
--
-- Not modelled: the lengths of texts, but for identifiers of events, the joined summary and the updates
-- of a streaming session, the JSON of tool outputs beyond its size, payloads of the
-- runtime's events, telemetry, a sink that fails inside a run, the cancellation of a whole run and
-- of the wait for the semaphore, the parsing of a content type,
-- policy files, transcription, the opening of streams and the cancellation of their operations, the
-- tools and prompts of the trends agent, the FFmpeg process of the speech
-- service and the header check before it, the rest of the HTTP API, storage and release tooling: they are input and output, tooling,
-- or left for a later extension. Keys of payloads are folded as ASCII text.
pub mod Prelude
pub mod Texts
pub mod Agent
pub mod Analysis
pub mod Speech
pub mod Api
mod Examples
