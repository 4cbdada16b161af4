-- ===== src/SessionRuntime/Operations.antt =====
-- The operations of a scope in SessionRuntimeReducer.ts: `beginOperation`, `settleOperation`, and
-- the cleanup of a branch whose creation failed.
use labrastro_vscode_extensi.Base.{
  String, Bool, true, false, not, ◌&&◌, Option, none, some, if◌then◌else◌, ◌==◌, holds_text, List,
  [], ◌∷◌, ◌++◌,
}
use labrastro_vscode_extensi.Base.Dict.{lookup, insert, erase}
use labrastro_vscode_extensi.SessionRuntime.Model.{
  Kind, start, continue, steer, recover, stop, cancel, branch_create, branch_select, Projection,
  Operation, Scope, Model, Reduction, Effect, Reason, unknown_scope, wrong_target, scope_deleted,
  projection_updated, visible_rollback, operation_settled, Outcome, success, failure,
}
use labrastro_vscode_extensi.SessionRuntime.Clone.{clone_operation, clone_projection}
use labrastro_vscode_extensi.SessionRuntime.Resolve.{
  is_branch_create, scope_agent_run_conflicts, operation_source_conflicts,
  branch_create_source_scope, branch_create_operation_has_source_scope, rejected, scope_target,
}
use labrastro_vscode_extensi.SessionRuntime.Visible.{is_selected, select_branch_projection}
use labrastro_vscode_extensi.SessionRuntime.Scopes.{upsert_scope, update_scope}

abbrev pub same_kind : Kind → Kind → Bool
same_kind start start = true
same_kind continue continue = true
same_kind steer steer = true
same_kind recover recover = true
same_kind stop stop = true
same_kind cancel cancel = true
same_kind branch_create branch_create = true
same_kind branch_select branch_select = true
same_kind _ _ = false

-- Every refusal of `beginOperation` gives back the model that it was called with.
unfoldable pub refuse_begin : Model → Reason → String → Reduction
refuse_begin m reason id = record {
  model = m;
  effects = rejected reason "sessionRun.operation.begin" (some id) ∷ [];
}

-- The operation is written to the scope, once every test has passed.
unfoldable pub record_operation : Model → Scope → Operation → Reduction
record_operation base s o =
    update_scope base
      (record s { operations_by_id = insert o.operation_id (clone_operation o) s.operations_by_id })

unfoldable pub begin_in : Model → Model → Operation → Reduction
unfolding refuse_begin
begin_in m base o = elim (lookup o.scope_id base.scopes) [
  | none ↦ refuse_begin m unknown_scope o.scope_id
  | some s ↦
      if not (branch_create_operation_has_source_scope base s o)
      then refuse_begin m wrong_target o.scope_id
      else if operation_source_conflicts s o
      then refuse_begin m wrong_target o.scope_id
      else record_operation base s o
]

unfoldable pub begin_operation : Model → Operation → Option Scope → Bool → Reduction
unfolding begin_in refuse_begin
begin_operation m o none select = begin_in m m o
begin_operation m o (some s) select =
    if scope_agent_run_conflicts (lookup s.scope_id m.scopes) (some s.agent_run_id)
    then refuse_begin m wrong_target s.scope_id
    else begin_in m (upsert_scope m s select).model o

pub record Cleanup : Type 0 where
  pub model : Model
  pub deleted : Bool
  pub rolled_back : Bool

unfoldable pub cleanup_failed_branch_create_scope : Model → Scope → Operation → Cleanup
cleanup_failed_branch_create_scope settled s o = elim (branch_create_source_scope settled s o) [
  | none ↦ record { model = settled; deleted = false; rolled_back = false }
  | some source ↦
      let cleaned : Model = record settled { scopes = erase s.scope_id settled.scopes } in
      if not (is_selected settled s.scope_id)
      then record { model = cleaned; deleted = true; rolled_back = false }
      else record {
        model = select_branch_projection cleaned (scope_target source.scope_id);
        deleted = true;
        rolled_back = true;
      }
]

abbrev pub is_failure : Outcome → Bool
is_failure success = false
is_failure failure = true

abbrev pub outcome_type : Outcome → String
outcome_type success = "sessionRun.operation.success"
outcome_type failure = "sessionRun.operation.error"

-- The operation without its entry in the scope.
unfoldable pub without_operation : Scope → String → Scope
without_operation s id = record s { operations_by_id = erase id s.operations_by_id }

-- The failure of a `branch.create` in its own new branch, with a state to go back to.
unfoldable pub fails_branch : Outcome → Scope → Operation → Option Projection
fails_branch outcome s o =
    if is_failure outcome
      && (is_branch_create o.kind && holds_text o.target_branch_binding_id s.branch_binding_id)
    then elim o.optimistic_effect [ none ↦ none | some e ↦ some e.rollback ]
    else none

unfoldable pub settled_effects : Scope → String → Bool → Projection → Cleanup → List Effect
settled_effects s id was_visible rollback c =
    (if c.deleted then scope_deleted s.scope_id ∷ [] else [])
    ++ (if was_visible && c.rolled_back
        then projection_updated c.model.visible
          ∷ visible_rollback s.scope_id id (clone_projection rollback)
          ∷ []
        else [])

-- `settleOperation` from the point where the operation is found to be the one that is named.
unfoldable pub settle_found : Model → Scope → String → Operation → Kind → Outcome → Reduction
unfolding settled_effects
settle_found m s id o kind outcome =
    let settled = (update_scope m (without_operation s id)).model in
    let effect = operation_settled s.scope_id id kind in
    elim (fails_branch outcome s o) [
      | none ↦ record { model = settled; effects = effect ∷ [] }
      | some rollback ↦
          let cleanup = cleanup_failed_branch_create_scope settled s o in
          record {
            model = cleanup.model;
            effects =
                effect ∷ settled_effects s id (is_selected settled s.scope_id) rollback cleanup;
          }
    ]

-- `operation.kind !== operationKind || operation.scopeId !== scope.scopeId`
unfoldable pub is_named : Operation → Kind → String → Bool
is_named o kind scope_id = same_kind o.kind kind && o.scope_id == scope_id

unfoldable pub settle_operation : Model → Scope → String → Kind → Outcome → Reduction
settle_operation m s id kind outcome =
    let refused : Reduction = record {
      model = m;
      effects = rejected wrong_target (outcome_type outcome) (some s.scope_id) ∷ [];
    } in
    elim (lookup id s.operations_by_id) [
      | none ↦ refused
      | some o ↦ if is_named o kind s.scope_id then settle_found m s id o kind outcome else refused
    ]
