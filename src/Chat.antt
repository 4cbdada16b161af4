-- ===== src/Chat.antt =====
-- The chat of the webview (webview-ui/src/chat): submitting a text, the prompts that wait, the
-- operation whose result is awaited, and the approvals.
pub mod SubmitDisposition
pub mod PromptQueue
pub mod OperationGate
pub mod Approvals
mod Tests
