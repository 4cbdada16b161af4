-- ===== src/ViewRuntime/Results.antt =====
-- sessionRuntimeOperations.ts of the webview: where a pending operation is kept, and which scope takes
-- the result of one. The factory of scopes is an argument.
pub mod Adoption
pub mod Preparation
use labrastro_vscode_extensi.Base.{
  String, Bool, true, false, not, ◌&&◌, ◌||◌, Option, none, some, if◌then◌else◌, ◌==◌, given,
  is_some, holds_text, List, [], ◌∷◌, keep, any,
}
use labrastro_vscode_extensi.Base.Dict.{lookup, erase, values}
use labrastro_vscode_extensi.Chat.OperationGate.{
  PendingOperation, OperationMessage, result_target_branch_binding_id, first_given,
}
use labrastro_vscode_extensi.SessionRuntime.Model.{
  Kind, start, continue, steer, recover, stop, cancel, branch_create, branch_select, Status, idle,
  queued, running, done, Outcome, success,
}
use labrastro_vscode_extensi.SessionRuntime.Resolve.{scope_id_for}
use labrastro_vscode_extensi.SessionRuntime.Operations.{is_failure}
use labrastro_vscode_extensi.ViewRuntime.Model.{
  Operation, Scope, Model, Message, scope_upsert, scope_delete, operation_pending,
}
use labrastro_vscode_extensi.ViewRuntime.Reducer.{is_rejection, reduce_host_message}

abbrev pub pending_start : String
pending_start = "__pending_session_run_start__"

unfoldable pub kind_name : Kind → String
kind_name start = "start"
kind_name continue = "continue"
kind_name recover = "recover"
kind_name steer = "steer"
kind_name stop = "stop"
kind_name cancel = "cancel"
kind_name branch_create = "branch.create"
kind_name branch_select = "branch.select"

-- The operation kind that a text names.
unfoldable pub kind_of : String → Option Kind
kind_of text =
    if text == "start"
    then some start
    else if text == "continue"
    then some continue
    else if text == "recover"
    then some recover
    else if text == "steer"
    then some steer
    else if text == "stop"
    then some stop
    else if text == "cancel"
    then some cancel
    else if text == "branch.create"
    then some branch_create
    else if text == "branch.select"
    then some branch_select
    else none

pub record Placement : Type 0 where
  pub session_run_id : String
  pub branch_binding_id : String
  pub status : Option Status
  pub select : Bool

unfoldable pub operation_begin_placement : PendingOperation → Option Placement
operation_begin_placement o =
    if o.kind == "start"
    then some (record {
      session_run_id = pending_start;
      branch_binding_id = o.operation_id;
      status = some queued;
      select = false;
    })
    else elim (given o.session_run_id) [
      | none ↦ none
      | some run ↦
          if o.kind == "branch.select"
          then elim (given o.source_branch_binding_id) [
            | none ↦ none
            | some source ↦ some (record {
              session_run_id = run;
              branch_binding_id = source;
              status = none;
              select = false;
            })
          ]
          else elim (given (first_given o.target_branch_binding_id o.source_branch_binding_id)) [
            | none ↦ none
            | some branch ↦ some (record {
              session_run_id = run;
              branch_binding_id = branch;
              status = none;
              select = is_some o.optimistic_projection;
            })
          ]
    ]

-- `SessionRunOperationMessageView`
pub record ResultMessage : Type 0 where
  pub operation_id : Option String
  pub operation_kind : Option String
  pub session_run_id : Option String
  pub branch_binding_id : Option String
  pub target_branch_binding_id : Option String

abbrev pub result_branch : ResultMessage → String
result_branch r = result_target_branch_binding_id (record {
  operation_kind = r.operation_kind;
  branch_binding_id = r.branch_binding_id;
  target_branch_binding_id = r.target_branch_binding_id;
})

pub record ExistingOperation : Type 0 where
  pub scope : Scope
  pub operation : Operation

-- One round of the loop over the scopes.
abbrev pub holds_operation : String → String → Scope → Bool
holds_operation id kind s = elim (lookup id s.operations_by_id) [
  | none ↦ false
  | some o ↦ kind_name o.kind == kind
]

unfoldable pub only_match : String → List Scope → Option ExistingOperation
only_match id (s ∷ []) = elim (lookup id s.operations_by_id) [
  | none ↦ none
  | some o ↦ some (record { scope = s; operation = o })
]
only_match id _ = none

unfoldable pub existing_operation : Model → ResultMessage → Option ExistingOperation
existing_operation m r = elim (given r.operation_id) [
  | none ↦ none
  | some id ↦ elim (given r.operation_kind) [
    | none ↦ none
    | some kind ↦ only_match id (keep (holds_operation id kind) (values m.scopes))
  ]
]

pub record ResultTarget : Type 0 where
  pub session_run_id : String
  pub branch_binding_id : String
  pub scope_id : String

abbrev pub target_for_existing_operation : ExistingOperation → ResultTarget
target_for_existing_operation x = record {
  session_run_id = x.scope.session_run_id;
  branch_binding_id = x.scope.branch_binding_id;
  scope_id = x.scope.scope_id;
}

unfoldable pub session_proof_matches_existing : ExistingOperation → String → Bool
session_proof_matches_existing x run =
    kind_name x.operation.kind == "start" && x.scope.session_run_id == pending_start
    || x.scope.session_run_id == run

unfoldable pub branch_proof_matches_existing : ExistingOperation → String → Bool
branch_proof_matches_existing x branch =
    x.scope.branch_binding_id == branch || holds_text x.operation.target_branch_binding_id branch

abbrev pub proven_target :
    Option ExistingOperation → Outcome → String → String → Option ResultTarget
proven_target x outcome run branch =
    let asked : ResultTarget = record {
      session_run_id = run;
      branch_binding_id = branch;
      scope_id = scope_id_for run branch;
    } in
    elim x [
      | none ↦ some asked
      | some y ↦
          if not (session_proof_matches_existing y run && branch_proof_matches_existing y branch)
          then none
          else if is_failure outcome
          then some (target_for_existing_operation y)
          else some asked
    ]

-- Neither the run nor the branch, or one of them.
abbrev pub partly_proven_target :
    Option ExistingOperation → ResultMessage → Outcome → Option ResultTarget
partly_proven_target none r outcome = none
partly_proven_target (some x) r outcome =
    if elim (given r.session_run_id) [
      | none ↦ false
      | some run ↦ not (session_proof_matches_existing x run)
    ]
    then none
    else if elim (given (some (result_branch r))) [
      | none ↦ false
      | some branch ↦ not (branch_proof_matches_existing x branch)
    ]
    then none
    else if not (is_failure outcome) && holds_text r.operation_kind "start"
    then none
    else some (target_for_existing_operation x)

unfoldable pub operation_result_target : Model → ResultMessage → Outcome → Option ResultTarget
operation_result_target m r outcome = elim (given r.session_run_id) [
  | none ↦ partly_proven_target (existing_operation m r) r outcome
  | some run ↦ elim (given (some (result_branch r))) [
    | none ↦ partly_proven_target (existing_operation m r) r outcome
    | some branch ↦ proven_target (existing_operation m r) outcome run branch
  ]
]

unfoldable pub operation_result_initial_status : Outcome → Option String → Status
operation_result_initial_status outcome kind =
    if is_failure outcome
    then idle
    else if holds_text kind "branch.select"
    then idle
    else if holds_text kind "stop"
    then done
    else running

unfoldable pub reduce_accepted : Model → Message → Option Model
reduce_accepted m message =
    let r = reduce_host_message m message in
    if any is_rejection r.effects then none else some r.model

-- `selectTargetScope`
unfoldable pub selects_target : Model → Option ExistingOperation → ResultTarget → Bool
selects_target m existing target =
    elim existing [
      | none ↦ false
      | some x ↦ holds_text m.visible.selected_scope_id x.scope.scope_id
    ]
    || elim (given m.visible.selected_scope_id) [
      | none ↦ false
      | some id ↦ elim (lookup id m.scopes) [
        | none ↦ false
        | some s ↦
            s.session_run_id == target.session_run_id
            && s.branch_binding_id == target.branch_binding_id
      ]
    ]

-- The operation leaves the scope that it was found in: a provisional scope of a start is deleted.
unfoldable pub release : Model → ExistingOperation → String → ResultTarget → Option Model
release m x id target =
    if x.scope.scope_id == target.scope_id
    then some m
    else if x.scope.session_run_id == pending_start
    then reduce_accepted m (scope_delete x.scope.scope_id)
    else reduce_accepted m (
        scope_upsert (record x.scope { operations_by_id = erase id x.scope.operations_by_id }) false
          false)

abbrev pub moved_operation : ExistingOperation → ResultTarget → Operation
moved_operation x target = record x.operation {
  scope_id = target.scope_id;
  target_branch_binding_id = some target.branch_binding_id;
}

abbrev pub holds_pending : Model → ResultTarget → String → Bool
holds_pending m target id = elim (lookup target.scope_id m.scopes) [
  | none ↦ false
  | some s ↦ is_some (lookup id s.operations_by_id)
]

-- The target has its scope; the operation moves there unless it is there.
unfoldable pub adopt : Model → Option ExistingOperation → String → ResultTarget → Option Model
adopt m none id target = some m
adopt m (some x) id target =
    if holds_pending m target id then some m else elim (release m x id target) [
      | none ↦ none
      | some released ↦ reduce_accepted released (operation_pending (moved_operation x target))
    ]

module _ (create_scope : Model → String → String → Status → Scope) where
  unfoldable pub with_target :
      Model → Option ExistingOperation → ResultMessage → ResultTarget → Outcome → Option Model
  with_target m existing r target outcome = elim (lookup target.scope_id m.scopes) [
    | some _ ↦ some m
    | none ↦ reduce_accepted m (
        scope_upsert
          (create_scope m target.session_run_id target.branch_binding_id
            (operation_result_initial_status outcome r.operation_kind))
          (selects_target m existing target) false)
  ]

  unfoldable pub model_for_operation_result :
      Model → ResultMessage → ResultTarget → Outcome → Option Model
  model_for_operation_result m r target outcome = elim (given r.operation_id) [
    | none ↦ some m
    | some id ↦
        let existing = existing_operation m r in
        elim (with_target m existing r target outcome) [
          | none ↦ none
          | some targeted ↦ adopt targeted existing id target
        ]
  ]
