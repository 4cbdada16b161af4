-- ===== src/Lib.antt =====
-- Verification of the Labrastro VS Code extension.
--
-- The extension has two halves: the extension host (src/) and the webview (webview-ui/src/). The
-- host keeps the state of each session run in a pure reducer over branch scopes; the coordinators
-- and the controller pass it the events of the server and act on its effects. The webview has a
-- reducer of its own over the host's messages, whose effects change what the chat view shows; it
-- decides what a submitted text does, queues prompts while a turn lasts, and keeps the operation
-- whose result it awaits and the approvals that wait for an answer. The host also puts the drafts
-- together that an editor tab shows.
--
-- Files.
--   SessionRuntime and below: src/sessionRuntime/SessionRuntimeModel.ts and
--     SessionRuntimeReducer.ts. Model has the state, the events and the effects; Clone, Resolve,
--     Visible, Scopes and Operations have the reducer's helpers; Reducer has `reduce`, which is
--     `reduceSessionRuntimeEventWithEffects`. The other modules below SessionRuntime hold proofs:
--     Invariant, Refusals, Locality, Succession, RoundTrips, Rollback, Summaries, PendingTurns and
--     StatusEvents are named for what they prove. Store and below are SessionRuntimeStore.ts: the
--     methods, what they keep (Reachable, Calls) and what they have checked (Answers), and a start
--     that is not confirmed (Unconfirmed); `perform` is one call of the store and `perform_all` the
--     calls from a model. SourceIdentity is its `resolveSessionRuntimeSourceIdentity`.
--   ViewRuntime and below: the runtime of the webview, in webview-ui/src/chat/. Model is
--     sessionRuntimeModel.ts; Visible, Operations and Reducer are sessionRuntimeReducer.ts, with
--     `reduce_host_message` for `reduceSessionRuntimeHostMessage`; Results is
--     sessionRuntimeOperations.ts; Effects is sessionRuntimeEffects.ts, with the setters, the timer
--     and the end of a run of webview-ui/src/components/ChatView.tsx; Session is the part of
--     ChatView.tsx that holds the runtime model and the view together. Invariant, Refusals, Silence,
--     Projections, Agreement, FailedBranch, Effects.Showing, Effects.Timer, Effects.Composition,
--     Results.Adoption, Results.Preparation, Session.Invariants and Session.Settlement hold proofs.
--   Chat.SubmitDisposition: webview-ui/src/chat/sessionSubmitDisposition.ts.
--   Chat.PromptQueue: webview-ui/src/chat/promptQueue.ts.
--   Chat.OperationGate: webview-ui/src/chat/sessionRunMessageGate.ts.
--   Chat.Approvals: webview-ui/src/chat/approval-state.ts, with the id and the branch that
--     webview-ui/src/components/chat/approval-details.ts reads from a payload.
--   DraftDocumentBuffer: src/DraftDocumentBuffer.ts.
--   Base and below: the names that the modules share: tests on numbers (Tests), texts (Text), texts
--     as code units (Units), lists, and plain objects as dictionaries (Dict, DictKeys).
--
-- Representation. A function of the source keeps its name, in snake case. An object is a record,
-- a dictionary of objects an association list in insertion order, and an optional field an
-- `Option`; where the source tests an optional text, `given` treats the empty text as absent.
-- `Date.now()`, random ids and the default arguments built from them are arguments. The hash and
-- the parser of numbers that the draft buffer calls are parameters of its definitions, and so is the
-- text of a number, a list or a record in an approval's payload. Nothing
-- here runs on fuel: every function of these files ends by recursion on a list.
--
-- Not modelled. Object identity and mutation of shared objects: values are immutable here, so the
-- clones of the reducer are copies, except where the code tests the identity of a scope. The order
-- of integer-like keys of an object, and keys that the prototype of an object holds. Negative,
-- fractional and unsafe numbers: revisions, sequence numbers, offsets and times are natural numbers.
-- The texts of the messages that explain why a submission is blocked. Of ChatView.tsx: rendering,
-- input, raw messages, the beginning of an operation and the stop that waits for a run's id; a call
-- that the view hands on to the trace, the notices or the prompt queue is kept in a list and not
-- carried out. A refusal of the webview names its reason and not the type of the message. Everything
-- that talks to the editor, the server or the screen.
mod Base
pub mod SessionRuntime
pub mod Chat
pub mod DraftDocumentBuffer
pub mod ViewRuntime
