-- ===== src/SessionRuntime/Store/Unconfirmed.antt =====
-- The start of a run whose scope is already taken by another agent run.
use labrastro_vscode_extensi.Base.{
  String, Bool, true, Option, none, some, or_else, given, ◌≡◌, ◌≢◌, arith,
}
use labrastro_vscode_extensi.Base.Dict.{lookup}
use labrastro_vscode_extensi.SessionRuntime.Model.{
  Operation, Scope, Model, success, scope_upsert, scope_delete,
}
use labrastro_vscode_extensi.SessionRuntime.Resolve.{
  scope_id_for, scope_target, scope_agent_run_conflicts, resolve_event_scope,
  resolve_event_scope_id, scope_matches_target,
}
use labrastro_vscode_extensi.SessionRuntime.Visible.{is_selected}
use labrastro_vscode_extensi.SessionRuntime.Scopes.{upsert_scope, delete_scope}
use labrastro_vscode_extensi.SessionRuntime.Operations.{settle_operation}
use labrastro_vscode_extensi.SessionRuntime.Reducer.{reduce, with_scope}
use labrastro_vscode_extensi.SessionRuntime.Store.Settling.{
  settle, confirmed_scope, operation_on_target, confirm_start_operation,
}
use labrastro_vscode_extensi.SessionRuntime.Store.Reachable.{scope_id_for-ne}

upsert_refused :
    (m : Model) (s t : Scope) (select : Bool)
    → lookup s.scope_id m.scopes ≡ some t
    → scope_agent_run_conflicts (some t) (some s.agent_run_id) ≡ true
    → (reduce m (scope_upsert s select)).model ≡ m
unfolding reduce upsert_scope
upsert_refused m s t select e h = ground (arith, e, h)

delete_refused :
    (m : Model) (id : String) → is_selected m id ≡ true → (reduce m (scope_delete id)).model ≡ m
unfolding reduce delete_scope
delete_refused m id h = ground (arith, h)

resolved-target :
    (m : Model) (id : String) (t : Scope)
    → id ≢ ""
    → lookup id m.scopes ≡ some t
    → resolve_event_scope m (scope_target id) ≡ some t
unfolding resolve_event_scope resolve_event_scope_id scope_matches_target
resolved-target m id t h e = ground (arith, h, e)

settle_refused :
    (m : Model) (o : Operation) (t : Scope)
    → o.scope_id ≢ ""
    → lookup o.scope_id m.scopes ≡ some t
    → lookup o.operation_id t.operations_by_id ≡ none
    → settle m o success ≡ m
unfolding settle reduce with_scope settle_operation
settle_refused m o t h e k = ground (arith, resolved-target m o.scope_id t h e, k)

-- If the scope of the run that has started is there with another agent run and without the
-- operation, and the pending scope of the operation is selected, then confirming the start changes
-- nothing: the operation goes on waiting in the pending scope.
pub confirm_start_operation-conflict :
    (m : Model) (o : Operation) (s t : Scope) (run branch : String) (agent : Option String)
    → lookup o.scope_id m.scopes ≡ some s
    → is_selected m s.scope_id ≡ true
    → lookup (scope_id_for run branch) m.scopes ≡ some t
    → scope_agent_run_conflicts (some t) (some (or_else (given agent) s.agent_run_id)) ≡ true
    → lookup o.operation_id t.operations_by_id ≡ none
    → confirm_start_operation m o run branch agent ≡ m
unfolding confirm_start_operation
confirm_start_operation-conflict m o s t run branch agent e k f c n =
    let up : (reduce m
          (scope_upsert (confirmed_scope s o run branch agent) (is_selected m s.scope_id))).model
        ≡ m =
      upsert_refused m (confirmed_scope s o run branch agent) t (is_selected m s.scope_id) f c in
    let down : (reduce m (scope_delete s.scope_id)).model ≡ m = delete_refused m s.scope_id k in
    let rest : settle m (operation_on_target o run branch) success ≡ m =
      settle_refused m (operation_on_target o run branch) t (scope_id_for-ne run branch) f n in
    ground (arith, e, up, down, rest)
