-- ===== src/SessionRuntime/Rollback/Cleanup.antt =====
-- The steps of a rollback: what is selected, and the cleanup of the selected branch.
use labrastro_vscode_extensi.Base.{
  String, true, false, none, some, ◌≡◌, ◌≢◌, refl, arith, [], ◌∷◌, inl, inr, Bool-cases, ==_self,
  sym, ◌∙◌, ap,
}
use labrastro_vscode_extensi.Base.Dict.{lookup, erase, lookup-insert_self}
use labrastro_vscode_extensi.SessionRuntime.Model.{
  Projection, branch_create, failure, Operation, OptimisticEffect, Scope, Model, scope_deleted,
  projection_updated, visible_rollback, operation_settled,
}
use labrastro_vscode_extensi.SessionRuntime.Clone.{clone_projection_id}
use labrastro_vscode_extensi.SessionRuntime.Resolve.{
  scope_target, scope_agent_run_conflicts, branch_create_operation_has_source_scope,
  branch_create_source_scope, is_source,
}
use labrastro_vscode_extensi.SessionRuntime.Resolve.Sound.{resolve-scope_target}
use labrastro_vscode_extensi.SessionRuntime.Visible.{
  is_selected, select_branch_projection, visible_projection_for,
}
use labrastro_vscode_extensi.SessionRuntime.Scopes.{put_scope, upsert_scope, update_scope}
use labrastro_vscode_extensi.SessionRuntime.Scopes.Contents.{put_scope-scopes}
use labrastro_vscode_extensi.SessionRuntime.Operations.{
  fails_branch, settle_found, settled_effects, cleanup_failed_branch_create_scope,
  without_operation,
}
use labrastro_vscode_extensi.SessionRuntime.Invariant.Writes.{
  select-eq-showing, refresh-eq-showing, refresh-eq_self, selected_this,
}
use labrastro_vscode_extensi.SessionRuntime.RoundTrips.{with_operation}

-- Writing a scope does not change which one is selected.
pub update_scope-selected :
    (m : Model) (s : Scope)
    → (update_scope m s).model.visible.selected_scope_id ≡ m.visible.selected_scope_id
unfolding update_scope put_scope visible_projection_for
update_scope-selected m s = elim (Bool-cases (is_selected m s.scope_id)) [
  | inl h ↦
      ap (λ x. x.visible.selected_scope_id)
        (refresh-eq-showing (put_scope m s) s.scope_id s h (
          ap (lookup s.scope_id) (put_scope-scopes m s) ∙ lookup-insert_self s.scope_id s m.scopes))
      ∙ sym (selected_this m s.scope_id h)
  | inr h ↦ ap (λ x. x.visible.selected_scope_id) (refresh-eq_self (put_scope m s) s.scope_id h)
]

pub upsert_scope-selected :
    (m : Model) (s : Scope)
    → s.scope_id ≢ ""
    → scope_agent_run_conflicts (lookup s.scope_id m.scopes) (some s.agent_run_id) ≡ false
    → (upsert_scope m s true).model.visible.selected_scope_id ≡ some s.scope_id
unfolding upsert_scope visible_projection_for
upsert_scope-selected m s n h =
    rw (h, upsert_scope)
      (ap (λ x. x.visible.selected_scope_id)
        (select-eq-showing (put_scope m s) (scope_target s.scope_id) s (
          resolve-scope_target (put_scope m s) s.scope_id s n (
            ap (lookup s.scope_id) (put_scope-scopes m s)
            ∙ lookup-insert_self s.scope_id s m.scopes))))

pub source_of :
    (m n : Model) (s : Scope) (o : Operation)
    → m.scopes ≡ n.scopes
    → branch_create_source_scope m (with_operation s o) o ≡ branch_create_source_scope n s o
unfolding branch_create_source_scope is_source
source_of m n s o e = rw e refl

pub missing_source :
    (m : Model) (s : Scope) (o : Operation)
    → branch_create_operation_has_source_scope m s o ≡ true
    → o.kind ≡ branch_create
    → branch_create_source_scope m s o ≢ none
unfolding branch_create_operation_has_source_scope
missing_source m s o h k e = ground (arith, h, k, e)

pub settle_found-failed :
    (m : Model) (s : Scope) (id : String) (o : Operation) (effect : OptimisticEffect)
    → o.kind ≡ branch_create
    → o.target_branch_binding_id ≡ some s.branch_binding_id
    → o.optimistic_effect ≡ some effect
    → let settled = (update_scope m (without_operation s id)).model in
      let c = cleanup_failed_branch_create_scope settled s o in
      settle_found m s id o o.kind failure ≡ record {
        model = c.model;
        effects =
            operation_settled s.scope_id id o.kind
            ∷ settled_effects s id (is_selected settled s.scope_id) effect.rollback c;
      }
unfolding settle_found fails_branch
settle_found-failed m s id o effect k t e = rw (failing, settle_found) refl
  where
    failing : fails_branch failure s o ≡ some effect.rollback
    failing = ground (arith, k, t, e, ==_self s.branch_binding_id)

-- The cleanup of the selected branch, once its source is known.
pub cleanup_selected-eq :
    (m : Model) (s c : Scope) (o : Operation)
    → branch_create_source_scope m s o ≡ some c
    → is_selected m s.scope_id ≡ true
    → cleanup_failed_branch_create_scope m s o ≡ record {
      model =
          select_branch_projection
            (record m { scopes = erase s.scope_id m.scopes })
            (scope_target c.scope_id);
      deleted = true;
      rolled_back = true;
    }
unfolding cleanup_failed_branch_create_scope
cleanup_selected-eq m s c o e h = rw (e, h, cleanup_failed_branch_create_scope) refl

pub settled_effects-eq :
    (s : Scope) (id : String) (p : Projection) (n : Model)
    → settled_effects s id true p (record { model = n; deleted = true; rolled_back = true })
      ≡ scope_deleted s.scope_id
        ∷ projection_updated n.visible
        ∷ visible_rollback s.scope_id id p
        ∷ []
unfolding settled_effects
settled_effects-eq s id p n = rw (clone_projection_id p) refl
