-- ===== src/ViewRuntime/Operations.antt =====
-- sessionRuntimeReducer.ts of the webview: operations on a scope, from their beginning to their
-- settlement, and the rollback of a branch creation that fails.
use labrastro_vscode_extensi.Base.{
  String, Bool, true, false, not, ◌&&◌, ◌||◌, Option, none, some, if◌then◌else◌, ◌==◌, or_else,
  given, given_other, is_some, holds_text, List, [], ◌∷◌, ◌++◌, find,
}
use labrastro_vscode_extensi.Base.Dict.{lookup, insert, erase, values, spread}
use labrastro_vscode_extensi.SessionRuntime.Model.{
  Kind, start, continue, recover, stop, cancel, branch_create, Stats, Outcome,
}
use labrastro_vscode_extensi.SessionRuntime.Resolve.{scope_target, is_branch_create}
use labrastro_vscode_extensi.SessionRuntime.Operations.{same_kind, is_failure}
use labrastro_vscode_extensi.ViewRuntime.Model.{
  Optimistic, Operation, Scope, Model, Result, Reason, wrong_operation, unknown_scope, Effect,
  message_rejected, scope_deleted, projection_updated, visible_rollback, operation_restore,
  operation_notice, working_stopped, shows_running, operation_settled, Reduction,
}
use labrastro_vscode_extensi.ViewRuntime.Visible.{
  is_selected, select_session_runtime_scope, update_scope,
}

abbrev pub is_source : Scope → Operation → Scope → Bool
is_source s o candidate =
    candidate.session_run_id == s.session_run_id
    && holds_text o.source_branch_binding_id candidate.branch_binding_id

unfoldable pub branch_create_source_scope : Model → Scope → Operation → Option Scope
branch_create_source_scope m s o =
    if not (is_branch_create o.kind) || not (is_some (given o.source_branch_binding_id))
    then none
    else find (is_source s o) (values m.scopes)

unfoldable pub branch_create_operation_has_source_scope : Model → Scope → Operation → Bool
branch_create_operation_has_source_scope m s o =
    if not (is_branch_create o.kind)
    then true
    else if not (is_some (given o.source_branch_binding_id))
    then false
    else elim (given o.target_branch_binding_id) [
      | none ↦ false
      | some target ↦ target == s.branch_binding_id && is_some (branch_create_source_scope m s o)
    ]

abbrev pub refused : Model → Reason → Reduction
refused m reason = record { model = m; effects = message_rejected reason ∷ [] }

-- `{ ...a, ...b }` of two statistics
abbrev pub spread_stats : Stats → Stats → Stats
spread_stats a b = record {
  run_status = elim b.run_status [ none ↦ a.run_status | some status ↦ some status ];
  others = spread a.others b.others;
}

abbrev pub with_operation : Scope → Operation → Scope
with_operation s o = record s { operations_by_id = insert o.operation_id o s.operations_by_id }

-- The scope as the optimistic projection shows it.
abbrev pub with_optimistic : Scope → Optimistic → Scope
with_optimistic s p = record s {
  status = or_else p.stats.run_status s.status;
  turns = p.turns;
  stats = spread_stats s.stats p.stats;
}

abbrev pub begin_optimistic : Model → Scope → Operation → Optimistic → Reduction
begin_optimistic m s o p =
    if not (p.branch_binding_id == s.branch_binding_id)
    then refused m wrong_operation
    else let scoped = update_scope m (with_optimistic (with_operation s o) p) false in
      let selected = select_session_runtime_scope scoped.model (scope_target s.scope_id) in
      record {
        model = selected;
        effects = scoped.effects ++ projection_updated selected.visible ∷ [];
      }

unfoldable pub begin_operation : Model → Operation → Reduction
begin_operation m o = elim (lookup o.scope_id m.scopes) [
  | none ↦ refused m unknown_scope
  | some s ↦
      if not (branch_create_operation_has_source_scope m s o)
      then refused m wrong_operation
      else elim o.optimistic_projection [
        | none ↦ update_scope m (with_operation s o) false
        | some p ↦ begin_optimistic m s o p
      ]
]

pub record Cleanup : Type 0 where
  pub model : Model
  pub deleted : Bool
  pub rolled_back : Bool

unfoldable pub rollback_scoped_branch_create_operation : Model → Scope → Operation → Cleanup
rollback_scoped_branch_create_operation settled s o =
    let nothing : Cleanup = record { model = settled; deleted = false; rolled_back = false } in
    if not (is_branch_create o.kind) || not (is_some o.rollback)
    then nothing
    else elim (branch_create_source_scope settled s o) [
      | none ↦ nothing
      | some source ↦
          let cleaned : Model = record settled { scopes = erase s.scope_id settled.scopes } in
          if not (is_selected settled s.scope_id)
          then record { model = cleaned; deleted = true; rolled_back = false }
          else record {
            model = select_session_runtime_scope cleaned (scope_target source.scope_id);
            deleted = true;
            rolled_back = true;
          }
    ]

unfoldable pub should_stop_working_after_operation_error : Kind → Bool
should_stop_working_after_operation_error start = true
should_stop_working_after_operation_error continue = true
should_stop_working_after_operation_error recover = true
should_stop_working_after_operation_error branch_create = true
should_stop_working_after_operation_error _ = false

abbrev pub is_stop_or_cancel : Kind → Bool
is_stop_or_cancel stop = true
is_stop_or_cancel cancel = true
is_stop_or_cancel _ = false

-- `value || fallback` of a text
abbrev pub text_or : Option String → String → String
text_or value fallback = or_else (given value) fallback

abbrev when : Bool → Effect → List Effect
when b effect = if b then effect ∷ [] else []

unfoldable pub selected_scope_operation_error_effects :
    Operation → String → Option String → Bool → Bool → List Effect
selected_scope_operation_error_effects o id message include_rollback include_restore =
    elim o.restore [
      | none ↦ []
      | some restore ↦ when include_restore (operation_restore o.operation_id id restore)
    ]
    ++ (elim o.rollback [
      | none ↦ []
      | some rollback ↦
          when (is_branch_create o.kind && include_rollback)
            (visible_rollback o.operation_id id rollback)
    ]
        ++ (operation_notice o.operation_id id (text_or message "unknown error") false
            ∷ (when (not (is_some o.restore) && should_stop_working_after_operation_error o.kind)
                  (working_stopped o.operation_id id)
                ++ when (not (is_some o.restore) && is_stop_or_cancel o.kind)
                    (shows_running "处理中"))))

-- The branch for a failed creation of a branch with a rollback.
abbrev pub settle_rollback : Model → Scope → Operation → Result → Reduction
settle_rollback settled s o r =
    let cleanup = rollback_scoped_branch_create_operation settled s o in
    record {
      model = cleanup.model;
      effects =
          operation_settled r.operation_id s.scope_id
          ∷ (when cleanup.deleted (scope_deleted s.scope_id)
              ++ (when cleanup.rolled_back (projection_updated cleanup.model.visible)
                  ++ selected_scope_operation_error_effects o s.scope_id r.message
                      cleanup.rolled_back cleanup.rolled_back));
    }

abbrev pub without_operation : Scope → String → Scope
without_operation s id = record s { operations_by_id = erase id s.operations_by_id }

unfoldable pub settle_found : Model → Scope → Operation → Outcome → Result → Reduction
settle_found m s o outcome r =
    let settled = (update_scope m (without_operation s r.operation_id) true).model in
    let settlement = operation_settled r.operation_id s.scope_id in
    if not (is_failure outcome && (o.visible && is_selected settled s.scope_id))
    then record { model = settled; effects = settlement ∷ [] }
    else if r.is_info
    then record {
      model = settled;
      effects =
          settlement
          ∷ operation_notice o.operation_id s.scope_id (text_or r.message "当前任务状态已变化，停止未执行，已刷新状态。")
              true
          ∷ [];
    }
    else if is_branch_create o.kind && is_some o.rollback
    then settle_rollback settled s o r
    else record {
      model = settled;
      effects =
          settlement ∷ selected_scope_operation_error_effects o s.scope_id r.message true true;
    }

-- `a && b && a !== b`
abbrev pub conflicts : Option String → Option String → Bool
conflicts a b = elim (given a) [ none ↦ false | some s ↦ given_other b s ]

unfoldable pub settle_operation : Model → Scope → Outcome → Result → Reduction
settle_operation m s outcome r = elim (lookup r.operation_id s.operations_by_id) [
  | none ↦ refused m wrong_operation
  | some o ↦
      if not (same_kind o.kind r.kind)
      then refused m wrong_operation
      else if conflicts o.target_branch_binding_id r.target.branch_binding_id
      then refused m wrong_operation
      else settle_found m s o outcome r
]
