-- ===== src/SessionRuntime/SourceIdentity/Tests.antt =====
-- A mainline with a second branch, and the theorems on source identities applied to it.
use labrastro_vscode_extensi.Base.{true, false, none, some, ◌≡◌, refl, [], ◌∷◌, same}
use labrastro_vscode_extensi.Base.Dict.{lookup}
use labrastro_vscode_extensi.Base.Units.{is_space}
use labrastro_vscode_extensi.SessionRuntime.Model.{Operation, steer, string}
use labrastro_vscode_extensi.SessionRuntime.Store.Settling.{source_still_current}
use labrastro_vscode_extensi.SessionRuntime.SourceIdentity.{
  selected_visible, branch_local, SelectedMainline, IdentityInput, identity_for, string_at,
  trim_start, trim_end, branch_binding_key, branch_agent_run_id, resolve_in_run,
  resolve_source_identity,
}
use labrastro_vscode_extensi.SessionRuntime.SourceIdentity.Soundness.{
  IsProven, store_identity, resolve_source_identity-IsProven, resolve_source_identity-current,
}

abbrev mainline : SelectedMainline
mainline = record {
  session_run_id = some "run";
  session_id = some "session";
  branch_binding_id = some "main";
  agent_run_id = some "agent";
  branches =
      some ((("branchBindingId", string " side ") ∷ ("agentRunId", string "agent-2 ") ∷ []) ∷ []);
}

abbrev background : IdentityInput
background = record {
  selected_mainline = some mainline;
  source_identity_revision = 3;
  session_run_id = some "run";
  branch_binding_id = some "side";
  scope = branch_local;
}

abbrev visible : IdentityInput
visible = record {
  selected_mainline = some mainline;
  source_identity_revision = 3;
  session_run_id = some "run";
  branch_binding_id = some "main";
  scope = selected_visible;
}

resolve_source_identity-IsProven_example :
    IsProven background (identity_for background mainline "run" "side" "agent-2" false)
unfolding resolve_source_identity resolve_in_run branch_agent_run_id branch_binding_key string_at
    trim_start trim_end is_space lookup same
resolve_source_identity-IsProven_example = resolve_source_identity-IsProven background _ refl

abbrev steering : Operation
steering = record {
  operation_id = "op";
  kind = steer;
  scope_id = "run:main";
  source_identity_revision = 3;
  active_session_run_id = some "run";
  source_session_run_id = some "run";
  source_branch_binding_id = some "main";
  source_agent_run_id = some "agent";
  target_branch_binding_id = some "main";
  visible = true;
  optimistic_effect = none;
}

resolve_source_identity-current_example :
    source_still_current (some (store_identity mainline)) 3 steering ≡ true
unfolding resolve_source_identity resolve_in_run same
resolve_source_identity-current_example =
    resolve_source_identity-current visible
      (identity_for visible mainline "run" "main" "agent" true) mainline steering refl refl refl
      (refl, refl, refl, refl)
