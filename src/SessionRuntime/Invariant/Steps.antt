-- ===== src/SessionRuntime/Invariant/Steps.antt =====
-- Every event keeps the model well formed.
use labrastro_vscode_extensi.Base.{
  String, Bool, true, false, Option, none, some, ◌≡◌, ◌≢◌, arith, inl, inr, Option-cases,
  Bool-cases, sym, subst, ◌∙◌, ap, if◌then◌else◌,
}
use labrastro_vscode_extensi.Base.Dict.{lookup}
use labrastro_vscode_extensi.Base.DictKeys.{Entries-insert, find-values}
use labrastro_vscode_extensi.SessionRuntime.Model.{
  branch_create, Operation, Scope, Model, operation_begin,
}
use labrastro_vscode_extensi.SessionRuntime.Clone.{clone_operation_id, clone_operation}
use labrastro_vscode_extensi.SessionRuntime.Resolve.{
  scope_target, scope_agent_run_conflicts, branch_create_operation_has_source_scope,
  branch_create_source_scope, target_is_new, is_source, operation_source_conflicts,
}
use labrastro_vscode_extensi.SessionRuntime.Visible.{
  is_selected, select_branch_projection, refresh_visible_if_selected,
}
use labrastro_vscode_extensi.SessionRuntime.Scopes.{
  put_scope, upsert_scope, delete_scope, update_scope,
}
use labrastro_vscode_extensi.SessionRuntime.Operations.{
  refuse_begin, record_operation, begin_in, begin_operation,
}
use labrastro_vscode_extensi.SessionRuntime.Invariant.{
  OperationIsValid, ScopeIsValid, IsValid, EventIsValid, lookup-keyed,
}
use labrastro_vscode_extensi.SessionRuntime.Invariant.Writes.{
  refresh-put_scope-IsValid, select-put_scope-IsValid, erase-IsValid,
}

pub update_scope-IsValid :
    (m : Model) (s : Scope) → IsValid m → ScopeIsValid s → IsValid (update_scope m s).model
unfolding update_scope
update_scope-IsValid m s v w = refresh-put_scope-IsValid m s v w

pub upsert_scope-IsValid :
    (m : Model) (s : Scope) (select : Bool)
    → IsValid m
    → ScopeIsValid s
    → IsValid (upsert_scope m s select).model
unfolding upsert_scope
upsert_scope-IsValid m s select v w =
    elim (Bool-cases
      (scope_agent_run_conflicts (lookup s.scope_id m.scopes) (some s.agent_run_id))) [
        | inl e ↦ rw e v
        | inr e ↦ rw e (selecting select)
      ]
  where
    selecting :
        (b : Bool)
        → IsValid (
            if b
            then select_branch_projection (put_scope m s) (scope_target s.scope_id)
            else refresh_visible_if_selected (put_scope m s) s.scope_id)
    selecting true = select-put_scope-IsValid m s v w
    selecting false = refresh-put_scope-IsValid m s v w

pub delete_scope-IsValid : (m : Model) (id : String) → IsValid m → IsValid (delete_scope m id).model
unfolding delete_scope
delete_scope-IsValid m id v = elim (Option-cases (lookup id m.scopes)) [
  | inl e ↦ rw (e, delete_scope) v
  | inr (s, e) ↦ elim (Bool-cases (is_selected m id)) [
    | inl h ↦ rw (e, h, delete_scope) v
    | inr h ↦ rw (e, h, delete_scope) (erase-IsValid m id v h)
  ]
]

-- `beginOperation` admits the creation of a branch only from another branch.
pub has_source_scope→OperationIsValid :
    (m : Model) (s : Scope) (o : Operation)
    → branch_create_operation_has_source_scope m s o ≡ true
    → OperationIsValid o
unfolding branch_create_operation_has_source_scope target_is_new
has_source_scope→OperationIsValid m s o h k e = ground (arith, h, k, e)

record_operation-IsValid :
    (m : Model) (s : Scope) (o : Operation)
    → IsValid m
    → ScopeIsValid s
    → OperationIsValid o
    → IsValid (record_operation m s o).model
unfolding record_operation
record_operation-IsValid m s o v w u = update_scope-IsValid m _ v (record {
  named = w.named;
  operations =
      Entries-insert (λ _ p. OperationIsValid p) o.operation_id (clone_operation o)
        s.operations_by_id (subst OperationIsValid (sym (clone_operation_id o)) u) w.operations;
})

begin_in-IsValid :
    (m base : Model) (o : Operation) → IsValid m → IsValid base → IsValid (begin_in m base o).model
unfolding begin_in refuse_begin
begin_in-IsValid m base o v u = elim (Option-cases (lookup o.scope_id base.scopes)) [
  | inl e ↦ rw (e, begin_in) v
  | inr (s, e) ↦ elim (Bool-cases (branch_create_operation_has_source_scope base s o)) [
    | inr h ↦ rw (e, h, begin_in) v
    | inl h ↦ elim (Bool-cases (operation_source_conflicts s o)) [
      | inl k ↦ rw (e, h, k, begin_in) v
      | inr k ↦
          rw (e, h, k, begin_in)
            (record_operation-IsValid base s o u (lookup-keyed o.scope_id s u e).valid
              (has_source_scope→OperationIsValid base s o h))
    ]
  ]
]

pub begin_operation-IsValid :
    (m : Model) (o : Operation) (p : Option Scope) (select : Bool)
    → IsValid m
    → EventIsValid (operation_begin o p select)
    → IsValid (begin_operation m o p select).model
unfolding begin_operation
begin_operation-IsValid m o none select v w = begin_in-IsValid m m o v v
begin_operation-IsValid m o (some s) select v w =
    elim (Bool-cases
      (scope_agent_run_conflicts (lookup s.scope_id m.scopes) (some s.agent_run_id))) [
        | inl e ↦ rw e v
        | inr e ↦ rw e (begin_in-IsValid m _ o v (upsert_scope-IsValid m s select v w))
      ]

pub is_source_branch :
    (s c : Scope) (o : Operation)
    → is_source s o c ≡ true
    → o.source_branch_binding_id ≡ some c.branch_binding_id
unfolding is_source
is_source_branch s c o h = ground (arith, h)

-- The source of a branch that is being created is found in another scope.
pub source_elsewhere :
    (m : Model) (s c : Scope) (o : Operation)
    → IsValid m
    → OperationIsValid o
    → (t : Scope) → lookup s.scope_id m.scopes ≡ some t
    → t.branch_binding_id ≡ s.branch_binding_id
    → o.kind ≡ branch_create
    → o.target_branch_binding_id ≡ some s.branch_binding_id
    → branch_create_source_scope m s o ≡ some c
    → (lookup c.scope_id m.scopes ≡ some c) × (s.scope_id ≢ c.scope_id) × (c.scope_id ≢ "")
unfolding branch_create_source_scope
source_elsewhere m s c o v w t l b k u e =
    let (i, found, passes) =
      find-values (is_source s o) m.scopes c v.distinct (ground (arith, k)) in
    let entry = lookup-keyed i c v found in
    let here = subst (λ j. lookup j m.scopes ≡ some c) (sym entry.keyed) found in
    let apart : s.scope_id ≢ c.scope_id = λ q.
      let e1 : some t ≡ some c = sym l ∙ ap (λ j. lookup j m.scopes) q ∙ here in
      let e2 : t.branch_binding_id ≡ c.branch_binding_id = cc in
      w k (u ∙ ap some (sym b ∙ e2) ∙ sym (is_source_branch s c o passes)) in
    (here, apart, λ z. entry.valid.named z)
