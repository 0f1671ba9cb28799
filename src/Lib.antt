-- ===== src/Lib.antt =====
-- cursor-opencode-provider: a language model provider that runs Cursor's agent protocol for OpenCode.
-- A Run is one bidirectional stream of Connect frames. Its pump reads frames, starts host tools for the
-- execs that Cursor sends, and reports parts to the host. This library models the parts of the provider
-- that decide: what runs now and what waits, what may be sent again after a failure, what is remembered
-- between turns and across a restart, and what the host is told.
--
-- The parts and their files, with the sources that they model:
-- Base, JsMap: shared lists, options, tests of equality and bits; a JavaScript Map in insertion order.
-- Framing: src/protocol/framing.ts. The envelope of each frame, and the reader over the chunks of a
--   stream. `async_stream_frames` takes the list of chunks that the reader gives; zlib is a parameter.
-- StepOrder: src/step-order.ts. The calls of one model step and the execs that are held behind a file
--   change. Each operation takes the state and returns it with its answer. The payload of an exec is a
--   type parameter.
-- ParallelStep: src/parallel-step.ts. When a step of parallel calls may close. The process-wide gate is
--   an argument of the decision and a result of the count.
-- Retry: src/retry-budget.ts with the failure's fields from src/errors.ts. Budgets are objects on a heap,
--   since a turn's Run and the map share them.
-- ReplaySafety: src/replay-safety.ts. The Run's state and the attempt that decides whether a failed Run
--   may be sent again; the appended messages that echo the Run's own injections.
-- LostRequest: src/lost-request.ts. The text of a turn that Cursor did not record, kept per session.
--   SHA-256 and the JSON codec are parameters;
--   a text of the snapshot may be no JSON, null, or another value.
-- TurnProvenance: src/protocol/turn-provenance.ts. The last step that this provider emitted, and whether
--   the host's latest assistant message is that step or another provider's.
-- PlanOperations: src/protocol/plan-operations.ts. The receipts of plan writes and reviews, with their
--   snapshot in its versioned envelope. The byte length of a text and the JSON codec are parameters.
-- SessionEdits: src/protocol/session-edits.ts. The session rules that deny edits, and what a conversation
--   is told about them. `SessionEdits.Guidance` follows a conversation over requests and restarts.
-- Occupancy: src/checkpoint-occupancy.ts with src/protocol/token-details.ts. Whether a reading of the
--   context window is held back as an unexplained jump.
-- BlobStore: src/protocol/blob-store.ts. The blobs of each conversation. The walk over the blobs of a
--   checkpoint is a parameter: the ids that it reaches, each once, or the reason of its failure.
-- Reachability: src/protocol/blob-reachability.ts. That walk. The reader of protobufjs is a parameter, the
--   length-delimited fields of a message. `Reachability.Local` is about the blobs that the
--   walk depends on, `Reachability.Restart` about the walk after a compaction by BlobStore.
-- Wire, Json: src/protocol/struct.ts. The writers and the two readers of the protobuf wire format, and the
--   codec of google.protobuf.Value over them. A text and a double are coded by parameters. A double that the
--   end of its message cuts is not modelled.
-- Sessions: src/session.ts. The registry of open Runs. `Sessions.State` has its data with the tombstones
--   and the leases, `Sessions` the close, the classification and the claim of a result, `Sessions.Registry`
--   the registration with its cap and what drops results, `Sessions.Delivery` the delivery of a claimed
--   result, whose writes wait while other callers change the registry, `Sessions.Pump` the pump's
--   ownership and the end of a stream, and `Sessions.Policy` the settings.
-- Usage: src/usage.ts. The token counts that the host is told.
-- HostMode: src/host-agent-mode.ts and src/protocol/cursor-mode.ts. The queue of agent switches, with the
--   host's callback between two steps of a flush.
--
-- How they interact: the pump reads a step through Framing, orders its execs by StepOrder, closes it by
-- ParallelStep, and records what it emits in TurnProvenance. After a failure ReplaySafety says whether the
-- Run may be sent again and Retry whether a retry is left; LostRequest keeps the text for the turn after.
-- Sessions keeps the Run while the host runs its tools: the next turn claims a result and delivers it. At the
-- end of a Run HostMode applies a switch. Occupancy and Usage read the Run's checkpoint, whose blobs BlobStore
-- keeps as far as Reachability reaches them.
--
-- Functions, types and constants keep their names in this spelling: `takeReleasableExecs` is
-- `take_releasable_execs`. State that a module of the source keeps in a variable is an argument and a
-- result here. Numbers are natural; a time that would be negative, or a fraction, is not modelled. A
-- factor such as 1.75 is a comparison of multiples.
--
-- Bounds: the maps of the source have limits (256, 1024, 64 entries), which are constants here. Loops are
-- structural recursion, or run on fuel that is enough. The frame reader has the length of the buffer,
-- since each frame takes at least five bytes (`Framing.Frames`). The readers of the wire format have the
-- length of the message, since a field takes a byte at least, and the decoder of values one more, since a
-- nested value is shorter than its message (`Wire.Payloads`, `Json.Fuel`). The walk over blobs ends at the
-- source's own limit, the depths 0 to 64, which are 65 nested states. The cap on Runs has as many rounds as
-- there are Runs, since each closes one (`Sessions.Cap`).
--
-- Not modelled: the pump and the stream of parts (src/language-model.ts), the protobuf messages and the
-- tool bridge (src/protocol/messages.ts, src/protocol/tools.ts), the transport (src/transport), the
-- persistence of conversations (src/protocol/conversation-persistence.ts), the timers, heartbeats and
-- frames of src/session.ts, the context builder (src/context), authentication, billing, images and the
-- plugin entry points. They are input and output, or parts for a later extension.
pub mod Base
pub mod JsMap
pub mod StepOrder
pub mod Retry
pub mod Framing
pub mod Usage
pub mod ParallelStep
pub mod LostRequest
pub mod ReplaySafety
pub mod TurnProvenance
pub mod PlanOperations
pub mod SessionEdits
pub mod Occupancy
pub mod HostMode
pub mod BlobStore
pub mod Wire
pub mod Json
pub mod Reachability
pub mod Sessions
