-- ===== src/SessionRuntime.antt =====
-- The extension host's session runtime, src/sessionRuntime/: the model of the branch scopes of a
-- session run and the pure reducer over it (SessionRuntimeModel.ts, SessionRuntimeReducer.ts).
pub mod Model
pub mod Clone
pub mod Resolve
pub mod Visible
pub mod Scopes
pub mod Operations
pub mod Reducer
pub mod Invariant
pub mod Refusals
pub mod Locality
pub mod Succession
pub mod RoundTrips
pub mod Rollback
pub mod Summaries
pub mod PendingTurns
pub mod StatusEvents
pub mod Store
pub mod SourceIdentity
mod Tests
