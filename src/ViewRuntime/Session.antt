-- ===== src/ViewRuntime/Session.antt =====
-- ChatView.tsx of the webview: the runtime model and the view together. Messages that the reducer
-- refuses are dropped; the others change the model and then the view. Values are immutable here, so
-- the snapshot of the model is the model.
pub mod Settlement
pub mod Invariants
use labrastro_vscode_extensi.Base.{
  String, Bool, true, false, not, ◌&&◌, ◌||◌, Option, none, some, if◌then◌else◌, ◌==◌, or_else,
  given, is_some, holds_text, List, [], ◌∷◌, ◌++◌, any,
}
use labrastro_vscode_extensi.Base.Dict.{lookup, Dict}
use labrastro_vscode_extensi.SessionRuntime.Model.{
  Value, null_value, number, string, Kind, Status, idle, queued, waiting, Stats, Outcome, Target,
  View,
}
use labrastro_vscode_extensi.SessionRuntime.Resolve.{scope_id_for}
use labrastro_vscode_extensi.ViewRuntime.Model.{
  Summary, Scope, Model, Result, Message, scope_upsert, branches, operation_result, Effect,
  Reduction,
}
use labrastro_vscode_extensi.ViewRuntime.Visible.{is_selected, stats_run_status}
use labrastro_vscode_extensi.ViewRuntime.Reducer.{is_rejection, reduce_host_message}
use labrastro_vscode_extensi.ViewRuntime.Results.{
  ResultMessage, ResultTarget, result_branch, kind_of, operation_result_target,
  model_for_operation_result,
}
use labrastro_vscode_extensi.ViewRuntime.Effects.{ViewState, apply_effects}

pub record ChatSession : Type 0 where
  pub model : Model
  pub view : ViewState

unfoldable pub empty_stats_for_status : Status → Stats
empty_stats_for_status status = record {
  run_status = some (stats_run_status status);
  others =
      ("taskText", string "")
      ∷ ("tokensIn", number 0)
      ∷ ("tokensOut", number 0)
      ∷ ("cacheReads", null_value)
      ∷ ("cacheWrites", null_value)
      ∷ ("totalCost", null_value)
      ∷ ("contextTokens", number 0)
      ∷ ("contextWindow", number 0)
      ∷ ("maxOutputTokens", number 0)
      ∷ [];
}

-- `sessionRuntimeScope` without a projection.
unfoldable pub fresh_scope : String → String → Status → Scope
fresh_scope run branch status = record {
  scope_id = scope_id_for run branch;
  session_run_id = run;
  branch_binding_id = branch;
  session_id = none;
  agent_run_id = none;
  status = status;
  turns = [];
  stats = empty_stats_for_status status;
  pending_next_turns = [];
  operations_by_id = [];
}

-- `session` is `options.sessionId`.
unfoldable pub scope_for_upsert : Option String → Model → String → String → Status → Scope
scope_for_upsert session m run branch status =
    let id = scope_id_for run branch in
    let base = or_else (lookup id m.scopes) (fresh_scope run branch status) in
    record base {
      scope_id = id;
      session_run_id = run;
      branch_binding_id = branch;
      session_id = elim session [ none ↦ base.session_id | some named ↦ some named ];
      status = status;
      stats = record base.stats { run_status = some (stats_run_status status) };
    }

abbrev pub is_rejected : List Effect → Bool
is_rejected = any is_rejection

-- The new model is kept and its effects are shown, unless the message was refused.
abbrev pub accept : ChatSession → Reduction → Option ChatSession
accept c r =
    if is_rejected r.effects
    then none
    else some (record { model = r.model; view = apply_effects c.view r.effects })

unfoldable pub apply_message : ChatSession → Message → Option ChatSession
apply_message c message = accept c (reduce_host_message c.model message)

unfoldable pub apply_scope_selection :
    ChatSession → Option String → Option String → Status → Bool → Option String → Option ChatSession
apply_scope_selection c run branch status clear session = elim (given run) [
  | none ↦ none
  | some r ↦ elim (given branch) [
    | none ↦ none
    | some b ↦
        apply_message c (scope_upsert (scope_for_upsert session c.model r b status) true clear)
  ]
]

-- `ChatBranchSummary`: the branch, its agent run and its status as `sessionRuntimeStatusFromValue`
-- reads it, with the summary that `sessionRuntimeBranchSummaries` makes of it.
pub record Branch : Type 0 where
  pub branch_binding_id : String
  pub agent_run_id : Option String
  pub status : Status
  pub selected : Bool
  pub summary : Summary

-- One round of the loop: a branch that is not selected gets its scope.
abbrev pub branch_scope : Model → String → Branch → Scope
branch_scope m run b =
    let s = scope_for_upsert none m run b.branch_binding_id b.status in
    record s {
      agent_run_id = elim (given b.agent_run_id) [ none ↦ s.agent_run_id | some a ↦ some a ];
    }

abbrev pub is_kept : Model → String → Branch → Bool
is_kept m run b = b.selected || is_selected m (scope_id_for run b.branch_binding_id)

unfoldable pub upsert_branches : Model → String → List Effect → List Branch → Option Reduction
upsert_branches m run effects [] = some (record { model = m; effects = effects })
upsert_branches m run effects (b ∷ bs) =
    let r = reduce_host_message m (scope_upsert (branch_scope m run b) false false) in
    let kept = upsert_branches m run effects bs in
    let written = upsert_branches r.model run (effects ++ r.effects) bs in
    if is_kept m run b then kept else if is_rejected r.effects then none else written

abbrev pub summaries_of : List Branch → List Summary
summaries_of [] = []
summaries_of (b ∷ bs) = b.summary ∷ summaries_of bs

unfoldable pub apply_branch_summaries :
    ChatSession → Option String → List Branch → Option ChatSession
apply_branch_summaries c run bs = elim (given run) [
  | none ↦ none
  | some r ↦ elim (upsert_branches c.model r [] bs) [
    | none ↦ none
    | some upserted ↦
        let result = reduce_host_message upserted.model (branches (some r) (summaries_of bs)) in
        if is_rejected result.effects
        then none
        else some (record {
          model = result.model;
          view = apply_effects c.view (upserted.effects ++ result.effects);
        })
  ]
]

-- The message for the reducer. Its branch is named if it is the target's.
abbrev pub result_for : ResultMessage → ResultTarget → String → Kind → Option String → Bool → Result
result_for r target id kind message info = record {
  target = record {
    scope_id = some target.scope_id;
    session_run_id = given r.session_run_id;
    branch_binding_id = elim (given (some (result_branch r))) [
      | none ↦ none
      | some branch ↦ if branch == target.branch_binding_id then some branch else none
    ];
  };
  operation_id = id;
  kind = kind;
  message = given message;
  is_info = info;
}

abbrev pub settled_result :
    Model
    → Outcome
    → ResultMessage
    → ResultTarget
    → String
    → Kind
    → Option String
    → Bool
    → Option Reduction
settled_result prepared outcome r target id kind message info =
    let result =
      reduce_host_message prepared
        (operation_result outcome (result_for r target id kind message info)) in
    if is_rejected result.effects then none else some result

-- `reduceSessionRuntimeOperationResult`. A text that names no kind is no operation's kind, so that the
-- reducer refuses the result.
unfoldable pub reduce_operation_result :
    Model → Outcome → ResultMessage → Option String → Bool → Option Reduction
reduce_operation_result m outcome r message info = elim (given r.operation_id) [
  | none ↦ none
  | some id ↦ elim (given r.operation_kind) [
    | none ↦ none
    | some name ↦ elim (kind_of name) [
      | none ↦ none
      | some kind ↦ elim (operation_result_target m r outcome) [
        | none ↦ none
        | some target ↦
            elim (model_for_operation_result (scope_for_upsert none) m r target outcome) [
              | none ↦ none
              | some prepared ↦ settled_result prepared outcome r target id kind message info
            ]
      ]
    ]
  ]
]
