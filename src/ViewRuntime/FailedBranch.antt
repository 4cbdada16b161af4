-- ===== src/ViewRuntime/FailedBranch.antt =====
-- Two ends of a failed branch creation: its scope is its own source, or is not the one shown.
use labrastro_vscode_extensi.ViewRuntime.Model.{Model}
