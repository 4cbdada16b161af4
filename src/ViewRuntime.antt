-- ===== src/ViewRuntime.antt =====
-- The session runtime of the webview (webview-ui/src/chat/sessionRuntime*.ts): the branch scopes of
-- the runs that the webview knows, what it shows of the selected one, and the effects on the view.
pub mod Model
pub mod Visible
pub mod Operations
pub mod Reducer
pub mod Invariant
pub mod Refusals
pub mod FailedBranch
pub mod Agreement
pub mod Projections
pub mod Silence
pub mod Effects
pub mod Results
pub mod Session
mod Tests
