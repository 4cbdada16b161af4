-- ===== src/Chat/OperationGate.antt =====
-- sessionRunMessageGate.ts of the webview: the operation on a run that waits for its result, put
-- together from the messages that name it. The clock is an argument.
pub mod Merging
pub mod Coherence
use labrastro_vscode_extensi.Base.{
  ℕ, String, Bool, true, false, not, ◌&&◌, ◌||◌, Option, none, some, if◌then◌else◌, ◌==◌, or_else,
  given, holds_text, List,
}
use labrastro_vscode_extensi.SessionRuntime.Model.{View}

pub record OptimisticProjection : Type 0 where
  pub kind : String
  pub branch_binding_id : String
  pub turns : List View
  pub stats : View

pub record RollbackView : Type 0 where
  pub kind : String
  pub source_branch_binding_id : String
  pub turns : List View
  pub stats : View

-- `shown` holds the fields that this module passes on unread.
pub record RestoreView : Type 0 where
  pub kind : String
  pub selected_branch_binding_id : String
  pub shown : View

pub record PendingOperation : Type 0 where
  pub operation_id : String
  pub kind : String
  pub created_at : ℕ
  pub session_run_id : Option String
  pub source_branch_binding_id : Option String
  pub target_branch_binding_id : Option String
  pub optimistic_projection : Option OptimisticProjection
  pub rollback : Option RollbackView
  pub restore : Option RestoreView

pub record OperationInput : Type 0 where
  pub operation_id : String
  pub kind : String
  pub created_at : Option ℕ
  pub session_run_id : Option String
  pub source_branch_binding_id : Option String
  pub target_branch_binding_id : Option String
  pub optimistic_projection : Option OptimisticProjection
  pub rollback : Option RollbackView
  pub restore : Option RestoreView

pub record OperationMessage : Type 0 where
  pub operation_kind : Option String
  pub branch_binding_id : Option String
  pub target_branch_binding_id : Option String

abbrev pub start_target_branch_binding_id : Option String → String
start_target_branch_binding_id selected = "main"

-- `a || b` of two texts that may be absent
abbrev pub first_given : Option String → Option String → Option String
first_given a b = elim (given a) [ none ↦ b | some s ↦ some s ]

unfoldable pub pending_target_branch_binding_id : OperationMessage → Option String
pending_target_branch_binding_id message =
    if holds_text message.operation_kind "start"
    then some (
        start_target_branch_binding_id
          (first_given message.target_branch_binding_id message.branch_binding_id))
    else first_given message.target_branch_binding_id message.branch_binding_id

unfoldable pub result_target_branch_binding_id : OperationMessage → String
result_target_branch_binding_id message =
    or_else (first_given message.target_branch_binding_id message.branch_binding_id) ""

unfoldable pub is_session_run_operation_kind : String → Bool
is_session_run_operation_kind value =
    value == "start"
    || value == "continue"
    || value == "recover"
    || value == "steer"
    || value == "stop"
    || value == "cancel"
    || value == "branch.create"
    || value == "branch.select"

abbrev pub operation_field_conflicts : Option String → Option String → Bool
operation_field_conflicts left right = elim (given left) [
  | none ↦ false
  | some l ↦ elim (given right) [ none ↦ false | some r ↦ not (l == r) ]
]

unfoldable pub rollback_for_pending_operation : OperationInput → Option RollbackView
rollback_for_pending_operation operation =
    if not (operation.kind == "branch.create") then none else elim operation.rollback [
      | none ↦ none
      | some rollback ↦
          if not (rollback.kind == "branch.create.optimistic-ui")
          then none
          else if not
              (holds_text operation.source_branch_binding_id rollback.source_branch_binding_id)
          then none
          else some rollback
    ]

unfoldable pub optimistic_projection_for_pending_operation :
    OperationInput → Option OptimisticProjection
optimistic_projection_for_pending_operation operation =
    if not (operation.kind == "branch.create") then none else elim operation.optimistic_projection [
      | none ↦ none
      | some projection ↦
          if not (projection.kind == "branch.create.optimistic-ui")
          then none
          else if not (holds_text operation.target_branch_binding_id projection.branch_binding_id)
          then none
          else some projection
    ]

unfoldable pub restore_for_pending_operation : OperationInput → Option RestoreView
restore_for_pending_operation operation = elim operation.restore [
  | none ↦ none
  | some restore ↦
      if not (restore.kind == "sessionRun.operation.optimistic-ui")
      then none
      else if restore.selected_branch_binding_id == ""
      then none
      else some restore
]

-- `current ? {} : incoming ? { … } : {}` over `...current`
abbrev pub fill : Option String → Option String → Option String
fill current incoming = elim (given current) [
  | some _ ↦ current
  | none ↦ elim (given incoming) [ none ↦ current | some s ↦ some s ]
]

abbrev pub fill_view {ℓ} : {A : Type ℓ} → Option A → Option A → Option A
fill_view none incoming = incoming
fill_view (some view) incoming = some view

unfoldable pub new_pending : OperationInput → ℕ → PendingOperation
new_pending incoming now = record {
  operation_id = incoming.operation_id;
  kind = incoming.kind;
  created_at = or_else incoming.created_at now;
  session_run_id = given incoming.session_run_id;
  source_branch_binding_id = given incoming.source_branch_binding_id;
  target_branch_binding_id = given incoming.target_branch_binding_id;
  optimistic_projection = optimistic_projection_for_pending_operation incoming;
  rollback = rollback_for_pending_operation incoming;
  restore = restore_for_pending_operation incoming;
}

abbrev pub names_same : PendingOperation → OperationInput → Bool
names_same current incoming =
    current.operation_id == incoming.operation_id && current.kind == incoming.kind

abbrev pub conflicts : PendingOperation → OperationInput → Bool
conflicts current incoming =
    operation_field_conflicts current.session_run_id incoming.session_run_id
    || operation_field_conflicts current.source_branch_binding_id incoming.source_branch_binding_id
    || operation_field_conflicts current.target_branch_binding_id incoming.target_branch_binding_id

unfoldable pub merge_into : PendingOperation → OperationInput → PendingOperation
merge_into current incoming =
    if not (names_same current incoming) || conflicts current incoming
    then current
    else record current {
      session_run_id = fill current.session_run_id incoming.session_run_id;
      source_branch_binding_id =
          fill current.source_branch_binding_id incoming.source_branch_binding_id;
      target_branch_binding_id =
          fill current.target_branch_binding_id incoming.target_branch_binding_id;
      optimistic_projection =
          fill_view current.optimistic_projection
            (optimistic_projection_for_pending_operation incoming);
      rollback = fill_view current.rollback (rollback_for_pending_operation incoming);
      restore = fill_view current.restore (restore_for_pending_operation incoming);
    }

unfoldable pub merge_pending_session_run_operation_view :
    Option PendingOperation → OperationInput → ℕ → Option PendingOperation
merge_pending_session_run_operation_view current incoming now =
    if incoming.operation_id == "" || not (is_session_run_operation_kind incoming.kind)
    then current
    else elim current [
      | none ↦ some (new_pending incoming now)
      | some pending ↦ some (merge_into pending incoming)
    ]
