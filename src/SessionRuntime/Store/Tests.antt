-- ===== src/SessionRuntime/Store/Tests.antt =====
-- The theorems of the store, applied to the start of a run.
use labrastro_vscode_extensi.Base.{◌≡◌, true, none, some, List, [], ◌∷◌, refl, same}
use labrastro_vscode_extensi.SessionRuntime.Model.{Model, start, steer, queued, Operation, Scope}
use labrastro_vscode_extensi.SessionRuntime.Invariant.{IsValid}
use labrastro_vscode_extensi.SessionRuntime.Store.{
  EnsureInput, MainlineIdentity, Response, empty_session_runtime_model, find_operation,
  find_operations, meets,
}
use labrastro_vscode_extensi.SessionRuntime.Store.Calls.{
  Call, ensured, begun, start_succeeded, visible_cleared, perform_all, perform_all-IsValid,
}
use labrastro_vscode_extensi.SessionRuntime.Store.Settling.{
  confirm_start_operation, accepts_control_success, source_still_current,
  response_matches_operation,
}
use labrastro_vscode_extensi.Base.Dict.{lookup}
use labrastro_vscode_extensi.SessionRuntime.Resolve.{scope_id_for, scope_agent_run_conflicts}
use labrastro_vscode_extensi.SessionRuntime.Store.Unconfirmed.{confirm_start_operation-conflict}
use labrastro_vscode_extensi.SessionRuntime.Store.Answers.{
  IsCurrent, accepts_control_success-IsCurrent,
}

abbrev pending_start : EnsureInput
pending_start = record {
  session_run_id = "pending";
  branch_binding_id = "op";
  agent_run_id = some "agent";
  active_activation_id = none;
  runtime_revision = none;
  status = some queued;
  stream_cursor = none;
  select = true;
}

abbrev starting : Operation
starting = record {
  operation_id = "op";
  kind = start;
  scope_id = "pending:op";
  source_identity_revision = 0;
  active_session_run_id = none;
  source_session_run_id = none;
  source_branch_binding_id = none;
  source_agent_run_id = none;
  target_branch_binding_id = none;
  visible = true;
  optimistic_effect = none;
}

abbrev calls : List Call
calls =
    ensured pending_start
    ∷ begun starting
    ∷ start_succeeded "op" none 0 (record {
      session_run_id = some "run";
      branch_binding_id = some "main";
      agent_run_id = some "agent2";
    })
    ∷ visible_cleared
    ∷ []

perform_all-IsValid_example : IsValid (perform_all empty_session_runtime_model calls)
perform_all-IsValid_example = perform_all-IsValid calls (tt, (tt, (tt, (tt, tt))))

abbrev steering : Operation
steering = record starting {
  kind = steer;
  scope_id = "run:main";
  source_session_run_id = some "run";
  source_branch_binding_id = some "main";
  source_agent_run_id = some "agent";
  target_branch_binding_id = some "main";
}

abbrev steered : Model
steered = record empty_session_runtime_model {
  scopes =
      (
        "run:main",
        record {
          scope_id = "run:main";
          session_run_id = "run";
          branch_binding_id = "main";
          agent_run_id = "agent";
          active_activation_id = none;
          runtime_revision = 1;
          status = queued;
          stream_cursor = none;
          pending_next_turns = [];
          pending_approvals = [];
          pending_user_inputs = [];
          operations_by_id = ("op", steering) ∷ [];
          transcript = none;
          stats = none;
        },
      )
      ∷ [];
}

abbrev mainline : MainlineIdentity
mainline = record {
  session_run_id = some "run";
  branch_binding_id = some "main";
  agent_run_id = some "agent";
}

abbrev answer : Response
answer = record {
  session_run_id = some "run";
  branch_binding_id = some "main";
  agent_run_id = some "agent";
}

accepts_control_success-IsCurrent_example : IsCurrent steered "op" steer (some mainline) 0 answer
unfolding accepts_control_success find_operation find_operations meets source_still_current
    response_matches_operation same
accepts_control_success-IsCurrent_example =
    accepts_control_success-IsCurrent steered "op" steer (some mainline) 0 answer refl

abbrev bare_scope : Scope
bare_scope = record {
  scope_id = "pending:op";
  session_run_id = "pending";
  branch_binding_id = "op";
  agent_run_id = "pending_agent";
  active_activation_id = none;
  runtime_revision = 1;
  status = queued;
  stream_cursor = none;
  pending_next_turns = [];
  pending_approvals = [];
  pending_user_inputs = [];
  operations_by_id = ("op", starting) ∷ [];
  transcript = none;
  stats = none;
}

-- The run has started, and its scope came first, with its agent run.
abbrev started_scope : Scope
started_scope = record bare_scope {
  scope_id = "run:main";
  session_run_id = "run";
  branch_binding_id = "main";
  agent_run_id = "agent";
  operations_by_id = [];
}

abbrev overtaken : Model
overtaken = record {
  scopes = ("pending:op", bare_scope) ∷ ("run:main", started_scope) ∷ [];
  visible = record empty_session_runtime_model.visible { selected_scope_id = some "pending:op" };
}

confirm_start_operation-conflict_example :
    confirm_start_operation overtaken starting "run" "main" none ≡ overtaken
unfolding lookup same scope_id_for scope_agent_run_conflicts
confirm_start_operation-conflict_example =
    confirm_start_operation-conflict overtaken starting bare_scope started_scope "run" "main" none
      refl refl refl refl refl
