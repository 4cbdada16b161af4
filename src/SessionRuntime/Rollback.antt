-- ===== src/SessionRuntime/Rollback.antt =====
-- The creation of a branch that fails is undone: the provisional scope goes, and the source branch
-- is shown again.
pub mod Cleanup
use labrastro_vscode_extensi.Base.{
  String, true, false, none, some, ◌≡◌, ◌≢◌, refl, arith, [], ◌∷◌, inl, inr, Option-cases,
  Bool-cases, ==_self, sym, ◌∙◌, ap, subst,
}
use labrastro_vscode_extensi.Base.Dict.{
  lookup, insert, erase, lookup-insert_self, lookup-erase_ne, insert-insert, insert_same,
  erase-insert_fresh,
}
use labrastro_vscode_extensi.Base.DictKeys.{Entries-insert, find-values}
use labrastro_vscode_extensi.SessionRuntime.Model.{
  Projection, branch_create, failure, Operation, OptimisticEffect, Scope, Model, Reduction,
  scope_deleted, projection_updated, visible_rollback, operation_settled, operation_begin,
  operation_settle,
}
use labrastro_vscode_extensi.SessionRuntime.Clone.{clone_projection_id}
use labrastro_vscode_extensi.SessionRuntime.Resolve.{
  scope_target, scope_agent_run_conflicts, branch_create_operation_has_source_scope,
  operation_source_conflicts, branch_create_source_scope, is_source,
}
use labrastro_vscode_extensi.SessionRuntime.Resolve.Sound.{resolve-scope_target}
use labrastro_vscode_extensi.SessionRuntime.Visible.{
  is_selected, select_branch_projection, visible_projection_for,
}
use labrastro_vscode_extensi.SessionRuntime.Scopes.{put_scope, upsert_scope, update_scope}
use labrastro_vscode_extensi.SessionRuntime.Scopes.Contents.{
  put_scope-scopes, update_scope-scopes, upsert_scope-scopes, select-scopes, update_scope-lookup,
}
use labrastro_vscode_extensi.SessionRuntime.Operations.{
  begin_operation, fails_branch, settle_found, settled_effects, cleanup_failed_branch_create_scope,
  without_operation,
}
use labrastro_vscode_extensi.SessionRuntime.Reducer.{reduce}
use labrastro_vscode_extensi.SessionRuntime.Invariant.{OperationIsValid, ScopeIsValid, IsValid}
use labrastro_vscode_extensi.SessionRuntime.Invariant.Steps.{
  upsert_scope-IsValid, update_scope-IsValid, source_elsewhere, has_source_scope→OperationIsValid,
  is_source_branch,
}
use labrastro_vscode_extensi.SessionRuntime.Invariant.Writes.{
  select-eq-showing, refresh-eq-showing, refresh-eq_self, selected_this,
}
use labrastro_vscode_extensi.SessionRuntime.RoundTrips.{
  with_operation, begin_in-eq, without-with_operation, settle-eq,
}
use labrastro_vscode_extensi.SessionRuntime.Rollback.Cleanup.{
  update_scope-selected, upsert_scope-selected, source_of, missing_source, settle_found-failed,
  cleanup_selected-eq, settled_effects-eq,
}

module _ (m : Model) (o : Operation) (s : Scope) (effect : OptimisticEffect) (v : IsValid m)
    (w : ScopeIsValid s) (k : o.scope_id ≡ s.scope_id)
    (new_scope : lookup s.scope_id m.scopes ≡ none)
    (fresh : lookup o.operation_id s.operations_by_id ≡ none) (create : o.kind ≡ branch_create)
    (target : o.target_branch_binding_id ≡ some s.branch_binding_id)
    (optimistic : o.optimistic_effect ≡ some effect)
    (h : branch_create_operation_has_source_scope (upsert_scope m s true).model s o ≡ true) where
  base : Model
  base = (upsert_scope m s true).model

  begun : Model
  begun = (update_scope base (with_operation s o)).model

  settled : Model
  settled = (update_scope begun s).model

  no_conflict : scope_agent_run_conflicts (lookup s.scope_id m.scopes) (some s.agent_run_id) ≡ false
  unfolding scope_agent_run_conflicts
  no_conflict = rw new_scope refl

  base-scopes : base.scopes ≡ insert s.scope_id s m.scopes
  unfolding base
  base-scopes = upsert_scope-scopes m s true no_conflict

  base-lookup : lookup s.scope_id base.scopes ≡ some s
  base-lookup = ap (lookup s.scope_id) base-scopes ∙ lookup-insert_self s.scope_id s m.scopes

  no_source_conflict : operation_source_conflicts s o ≡ false
  unfolding operation_source_conflicts
  no_source_conflict = ground (arith, create, target, ==_self s.branch_binding_id)

  begun-eq : (reduce m (operation_begin o (some s) true)).model ≡ begun
  unfolding reduce begin_operation begun base
  begun-eq =
      rw (no_conflict, begin_operation)
        (ap (λ r. r.model)
          (begin_in-eq m base o s (subst (λ i. lookup i base.scopes ≡ some s) (sym k) base-lookup) h
            no_source_conflict))

  begun-lookup : lookup s.scope_id begun.scopes ≡ some (with_operation s o)
  unfolding begun
  begun-lookup = update_scope-lookup base (with_operation s o)

  -- After the settlement the scopes are again those that held the branch without its operation.
  settled-scopes : settled.scopes ≡ base.scopes
  unfolding settled begun
  settled-scopes =
      update_scope-scopes begun s
      ∙ ap (insert s.scope_id s) (update_scope-scopes base (with_operation s o))
      ∙ insert-insert s.scope_id (with_operation s o) s base.scopes
      ∙ insert_same s.scope_id s base.scopes base-lookup

  settled-selected : settled.visible.selected_scope_id ≡ some s.scope_id
  unfolding settled begun base
  settled-selected =
      update_scope-selected begun s
      ∙ update_scope-selected base (with_operation s o)
      ∙ upsert_scope-selected m s w.named no_conflict

  created : OperationIsValid o
  unfolding base
  created = has_source_scope→OperationIsValid base s o h

  settled-IsValid : IsValid settled
  unfolding settled begun base
  settled-IsValid =
      let base_valid : IsValid base = upsert_scope-IsValid m s true v w in
      let operations =
        Entries-insert (λ _ p. OperationIsValid p) o.operation_id o s.operations_by_id created
          w.operations in
      let begun_valid : IsValid begun =
        update_scope-IsValid base (with_operation s o) base_valid
          (record { named = w.named; operations = operations }) in
      update_scope-IsValid begun s begun_valid w

  source : (c : Scope) × (branch_create_source_scope settled (with_operation s o) o ≡ some c)
  unfolding base
  source = elim (Option-cases (branch_create_source_scope base s o)) [
    | inl e ↦ absurd (no_source e)
    | inr (c, e) ↦ (c, source_of settled base s o settled-scopes ∙ e)
  ]
    where
      no_source : branch_create_source_scope base s o ≡ none → ⊥
      no_source e = missing_source base s o h create e

  is_settled_selected : is_selected settled s.scope_id ≡ true
  is_settled_selected = rw settled-selected (==_self s.scope_id)

  cleaned : Model
  cleaned = record settled { scopes = erase s.scope_id settled.scopes }

  cleaned-scopes : cleaned.scopes ≡ m.scopes
  unfolding cleaned
  cleaned-scopes =
      ap (erase s.scope_id) (settled-scopes ∙ base-scopes)
      ∙ erase-insert_fresh s.scope_id s m.scopes new_scope

  rolled_back : Scope → Reduction
  rolled_back c =
      let n = select_branch_projection cleaned (scope_target c.scope_id) in
      record {
        model = n;
        effects =
            operation_settled s.scope_id o.operation_id o.kind
            ∷ scope_deleted s.scope_id
            ∷ projection_updated n.visible
            ∷ visible_rollback s.scope_id o.operation_id effect.rollback
            ∷ [];
      }

  settle_found-rolled_back :
      (c : Scope)
      → branch_create_source_scope settled (with_operation s o) o ≡ some c
      → settle_found begun (with_operation s o) o.operation_id o o.kind failure ≡ rolled_back c
  unfolding settled cleaned rolled_back
  settle_found-rolled_back c e =
      settle_found-failed begun (with_operation s o) o.operation_id o effect create target
        optimistic
      ∙ rw (without-with_operation s o fresh) (
          rw (cleanup_selected-eq settled (with_operation s o) c o e is_settled_selected) (
            rw is_settled_selected
              (rw (settled_effects-eq (with_operation s o) o.operation_id effect.rollback _) refl)))

  settled-rolled_back :
      (c : Scope)
      → branch_create_source_scope settled (with_operation s o) o ≡ some c
      → reduce
          (reduce m (operation_begin o (some s) true)).model
          (operation_settle failure (scope_target o.scope_id) o.operation_id o.kind)
        ≡ rolled_back c
  settled-rolled_back c e = rw begun-eq (
      settle-eq begun (with_operation s o) o failure
        (subst (λ i. lookup i begun.scopes ≡ some (with_operation s o)) (sym k) begun-lookup)
        (sym k) (λ z. w.named (sym k ∙ z)) (lookup-insert_self o.operation_id o s.operations_by_id)
      ∙ settle_found-rolled_back c e)

  cleaned-lookup :
      (c : Scope)
      → lookup c.scope_id settled.scopes ≡ some c
      → s.scope_id ≢ c.scope_id
      → lookup c.scope_id cleaned.scopes ≡ some c
  unfolding cleaned
  cleaned-lookup c l n = lookup-erase_ne s.scope_id c.scope_id settled.scopes n ∙ l

  rolled_back-selected :
      (c : Scope)
      → lookup c.scope_id cleaned.scopes ≡ some c
      → c.scope_id ≢ ""
      → (rolled_back c).model.visible.selected_scope_id ≡ some c.scope_id
  unfolding rolled_back visible_projection_for
  rolled_back-selected c l n =
      ap (λ x. x.visible.selected_scope_id)
        (select-eq-showing cleaned (scope_target c.scope_id) c
          (resolve-scope_target cleaned c.scope_id c n l))

  source-branch :
      (c : Scope)
      → branch_create_source_scope settled (with_operation s o) o ≡ some c
      → o.source_branch_binding_id ≡ some c.branch_binding_id
  unfolding branch_create_source_scope
  source-branch c e =
      let (_, _, passes) =
        find-values (is_source (with_operation s o) o) settled.scopes c settled-IsValid.distinct
          (ground (arith, e, create)) in
      is_source_branch (with_operation s o) c o passes

  -- In a well-formed model, a `branch.create` that carries an optimistic effect begins with its
  -- provisional scope, which is selected, and then fails. The provisional scope is well formed and its
  -- id is new to the model; the operation names this scope, its id is new to the scope, its target is
  -- the scope's branch, and its source scope is there when it begins. Then all scopes are as they were.
  -- The scope of the source branch is selected, and the effects report, in this order, that the
  -- operation has settled, that the provisional scope is gone, the new projection, and the rollback to
  -- the state that the operation carries.
  pub settle-begin_failed :
      let begun' = (reduce m (operation_begin o (some s) true)).model in
      let r =
        reduce begun' (operation_settle failure (scope_target o.scope_id) o.operation_id o.kind) in
      (c : Scope) × (lookup c.scope_id m.scopes ≡ some c)
      × (o.source_branch_binding_id ≡ some c.branch_binding_id)
      × (r.model.scopes ≡ m.scopes)
      × (r.model.visible.selected_scope_id ≡ some c.scope_id)
      × (r.effects
          ≡ operation_settled s.scope_id o.operation_id o.kind
            ∷ scope_deleted s.scope_id
            ∷ projection_updated r.model.visible
            ∷ visible_rollback s.scope_id o.operation_id effect.rollback
            ∷ [])
  unfolding rolled_back
  settle-begin_failed =
      let (c, e) = source in
      let (found, apart, named) =
        source_elsewhere settled (with_operation s o) c o settled-IsValid created s
          (ap (lookup s.scope_id) settled-scopes ∙ base-lookup) refl create target e in
      let here = cleaned-lookup c found apart in
      rw (settled-rolled_back c e) (
        c,
        sym (ap (lookup c.scope_id) cleaned-scopes) ∙ here,
        source-branch c e,
        select-scopes cleaned (scope_target c.scope_id) ∙ cleaned-scopes,
        rolled_back-selected c here named,
        refl,
      )
