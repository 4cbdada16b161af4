-- ===== src/SessionRuntime/Reducer.antt =====
-- `reduceSessionRuntimeEventWithEffects` of SessionRuntimeReducer.ts, and the run of a list of
-- events from a model.
use labrastro_vscode_extensi.Base.{
  ℕ, String, Option, none, some, if◌then◌else◌, List, [], ◌∷◌, ◌++◌,
}
use labrastro_vscode_extensi.SessionRuntime.Model.{
  View, Scope, Model, Reduction, missing_proof, unknown_scope, stale_revision, wrong_target,
  projection_updated, Target, StatusType, is_running, is_waiting, is_stopping, is_cancelled,
  is_stopped, is_done, is_error, is_interrupted, StatusUpdate, Removal, Event, scope_upsert,
  scope_delete, select_branch, runtime_status, pending_next_turn, pending_remove, pending_clear,
  operation_begin, operation_settle,
}
use labrastro_vscode_extensi.SessionRuntime.Clone.{clone_record}
use labrastro_vscode_extensi.SessionRuntime.Resolve.{
  resolve_event_scope_id, resolve_event_scope, has_scope_proof, scope_agent_run_conflicts, rejected,
  scope_target, next_revision, is_stale,
}
use labrastro_vscode_extensi.SessionRuntime.Visible.{select_branch_projection}
use labrastro_vscode_extensi.SessionRuntime.Scopes.{
  upsert_scope, delete_scope, update_scope, apply_runtime_status, remove_pending_next_turn,
}
use labrastro_vscode_extensi.SessionRuntime.Operations.{
  begin_operation, settle_operation, outcome_type,
}

abbrev pub status_type_name : StatusType → String
status_type_name is_running = "sessionRun.running"
status_type_name is_waiting = "sessionRun.waiting"
status_type_name is_stopping = "sessionRun.stopping"
status_type_name is_cancelled = "sessionRun.cancelled"
status_type_name is_stopped = "sessionRun.stopped"
status_type_name is_done = "sessionRun.done"
status_type_name is_error = "sessionRun.error"
status_type_name is_interrupted = "sessionRun.interrupted"

-- The code compares the model that `selectBranchProjection` returns with the one it was given, as
-- objects: they are one object exactly when no scope was found.
unfoldable pub select_by_id : Model → Option String → Reduction
select_by_id m id =
    let refused : Reduction = record {
      model = m;
      effects = rejected unknown_scope "sessionRun.branch.select" id ∷ [];
    } in
    elim id [
      | none ↦ refused
      | some i ↦ elim (resolve_event_scope m (scope_target i)) [
        | none ↦ refused
        | some _ ↦
            let selected = select_branch_projection m (scope_target i) in
            record { model = selected; effects = projection_updated selected.visible ∷ [] }
      ]
    ]

-- The part that the events on a resolved scope share: proof, scope and revision are tested first.
unfoldable pub with_scope : Model → String → Target → Option ℕ → (Scope → Reduction) → Reduction
with_scope m type target revision body = elim (resolve_event_scope m target) [
  | none ↦ record {
    model = m;
    effects =
        rejected (if has_scope_proof target then unknown_scope else missing_proof) type
          (resolve_event_scope_id m target)
        ∷ [];
  }
  | some s ↦
      if is_stale s revision
      then record { model = m; effects = rejected stale_revision type (some s.scope_id) ∷ [] }
      else body s
]

unfoldable pub status_body : Model → StatusUpdate → Scope → Reduction
status_body m e s =
    if scope_agent_run_conflicts (some s) e.agent_run_id
    then record {
      model = m;
      effects = rejected wrong_target (status_type_name e.type) (some s.scope_id) ∷ [];
    }
    else update_scope m (apply_runtime_status s e)

unfoldable pub add_next_turn : Scope → Option ℕ → View → Scope
add_next_turn s revision turn = record s {
  runtime_revision = next_revision s revision;
  pending_next_turns = s.pending_next_turns ++ clone_record turn ∷ [];
}

unfoldable pub drop_next_turn : Scope → Removal → Scope
drop_next_turn s removal = record s {
  pending_next_turns = remove_pending_next_turn s.pending_next_turns removal;
}

unfoldable pub clear_next_turns : Scope → Scope
clear_next_turns s = record s { pending_next_turns = [] }

unfoldable pub reduce : Model → Event → Reduction
unfolding select_by_id with_scope status_body
reduce m (scope_upsert s select) = upsert_scope m s select
reduce m (scope_delete id) = delete_scope m id
reduce m (operation_begin o s select) = begin_operation m o s select
reduce m (select_branch target) = select_by_id m (resolve_event_scope_id m target)
reduce m (operation_settle outcome target id kind) =
    with_scope m (outcome_type outcome) target none λ s. settle_operation m s id kind outcome
reduce m (pending_next_turn target revision turn) =
    with_scope m "sessionRun.pendingNextTurn" target revision
      λ s. update_scope m (add_next_turn s revision turn)
reduce m (pending_remove target removal) =
    with_scope m "sessionRun.pendingNextTurn.remove" target none
      λ s. update_scope m (drop_next_turn s removal)
reduce m (pending_clear target) =
    with_scope m "sessionRun.pendingNextTurn.clear" target none
      λ s. update_scope m (clear_next_turns s)
reduce m (runtime_status e) =
    with_scope m (status_type_name e.type) e.target e.runtime_revision (status_body m e)

unfoldable pub run : Model → List Event → Model
run m [] = m
run m (e ∷ es) = run (reduce m e).model es
