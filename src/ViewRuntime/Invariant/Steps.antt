-- ===== src/ViewRuntime/Invariant/Steps.antt =====
-- Every message keeps the webview's model well formed.
use labrastro_vscode_extensi.Base.{
  String, Bool, true, false, Option, some, ◌≡◌, ◌≢◌, refl, arith, List, [], ◌==◌, given, inl, inr,
  Option-cases, Bool-cases, sym, subst, ◌∙◌, ap, if◌then◌else◌, holds_text,
}
use labrastro_vscode_extensi.Base.Dict.{lookup}
use labrastro_vscode_extensi.Base.DictKeys.{Entries-insert, Entries-erase, find-values}
use labrastro_vscode_extensi.SessionRuntime.Model.{Target}
use labrastro_vscode_extensi.SessionRuntime.Resolve.{scope_target}
use labrastro_vscode_extensi.ViewRuntime.Model.{Optimistic, Operation, Scope, Model, Summary}
use labrastro_vscode_extensi.ViewRuntime.Visible.{
  resolve_message_scope, is_selected, select_session_runtime_scope, refresh_visible, put_scope,
  update_scope, scope_agent_run_conflicts, selected_session_run_id,
}
use labrastro_vscode_extensi.ViewRuntime.Operations.{
  is_source, branch_create_source_scope, branch_create_operation_has_source_scope, with_operation,
  with_optimistic, begin_optimistic, begin_operation, without_operation,
}
use labrastro_vscode_extensi.ViewRuntime.Reducer.{
  upsert_scope, delete_scope, select_by_message, set_branches,
}
use labrastro_vscode_extensi.ViewRuntime.Invariant.{
  IsApart, IsOwn, OperationIsValid, ScopeIsValid, IsValid, lookup-keyed,
}
use labrastro_vscode_extensi.ViewRuntime.Invariant.Writes.{
  refresh-put_scope-IsValid, select-put_scope-IsValid, select-IsValid, erase-IsValid,
}

pub update_scope-IsValid :
    (m : Model) (s : Scope) (emit : Bool)
    → IsValid m
    → ScopeIsValid s
    → IsValid (update_scope m s emit).model
unfolding update_scope
update_scope-IsValid m s emit v w = refresh-put_scope-IsValid m s v w

selecting-IsValid :
    (m : Model) (s : Scope) (select : Bool)
    → IsValid m
    → ScopeIsValid s
    → IsValid (
        if select
        then select_session_runtime_scope (put_scope m s) (scope_target s.scope_id)
        else refresh_visible (put_scope m s) s.scope_id)
selecting-IsValid m s true v w = select-put_scope-IsValid m s v w
selecting-IsValid m s false v w = refresh-put_scope-IsValid m s v w

pub upsert_scope-IsValid :
    (m : Model) (s : Scope) (select clear : Bool)
    → IsValid m
    → ScopeIsValid s
    → IsValid (upsert_scope m s select clear).model
unfolding upsert_scope
upsert_scope-IsValid m s select true v w =
    let cleared : Scope = record s { pending_next_turns = [] } in
    elim (Bool-cases (scope_agent_run_conflicts (lookup s.scope_id m.scopes) cleared)) [
      | inl e ↦ rw e v
      | inr e ↦ rw e (
          selecting-IsValid m cleared select v
            (record { named = w.named; operations = w.operations }))
    ]
upsert_scope-IsValid m s select false v w =
    elim (Bool-cases (scope_agent_run_conflicts (lookup s.scope_id m.scopes) s)) [
      | inl e ↦ rw e v
      | inr e ↦ rw e (selecting-IsValid m s select v w)
    ]

pub delete_scope-IsValid : (m : Model) (id : String) → IsValid m → IsValid (delete_scope m id).model
unfolding delete_scope
delete_scope-IsValid m id v = elim (Option-cases (lookup id m.scopes)) [
  | inl e ↦ rw (e, delete_scope) v
  | inr (s, e) ↦ elim (Bool-cases (is_selected m id)) [
    | inl h ↦ rw (e, h, delete_scope) v
    | inr h ↦ rw (e, h, delete_scope) (erase-IsValid m id v h)
  ]
]

pub select_by_message-IsValid :
    (m : Model) (t : Target) → IsValid m → IsValid (select_by_message m t).model
unfolding select_by_message
select_by_message-IsValid m t v = elim (Option-cases (resolve_message_scope m t)) [
  | inl e ↦ rw (e, select_by_message) v
  | inr (s, e) ↦ elim (Option-cases (resolve_message_scope m (scope_target s.scope_id))) [
    | inl h ↦ rw (e, h, select_by_message) v
    | inr (x, h) ↦
        rw (e, h, select_by_message)
          (select-IsValid m (scope_target s.scope_id) v.distinct v.entries (λ _. v))
  ]
]

-- The summaries are no part of what the invariant says.
pub set_branches-IsValid :
    (m : Model) (run : Option String) (summaries : List Summary)
    → IsValid m
    → IsValid (set_branches m run summaries).model
unfolding set_branches
set_branches-IsValid m run summaries v = elim (Option-cases (given run)) [
  | inl e ↦ rw (e, set_branches) v
  | inr (id, e) ↦ elim (Bool-cases (holds_text (selected_session_run_id m) id)) [
    | inr h ↦ rw (e, h, set_branches) v
    | inl h ↦
        rw (e, h, set_branches)
          (record {
            distinct = v.distinct;
            entries = v.entries;
            shows = λ j k.
                let (n, (s, l, sh)) = v.shows j k in
                (
                  n,
                  (
                    s,
                    l,
                    record {
                      run = sh.run;
                      session = sh.session;
                      branch = sh.branch;
                      transcript = sh.transcript;
                      stats = sh.stats;
                      status = sh.status;
                    },
                  ),
                );
          })
  ]
]

with_operation-ScopeIsValid :
    (s : Scope) (o : Operation)
    → ScopeIsValid s
    → IsApart s.branch_binding_id o
    → ScopeIsValid (with_operation s o)
with_operation-ScopeIsValid s o w u = record {
  named = w.named;
  operations =
      Entries-insert (IsOwn s.branch_binding_id) o.operation_id o s.operations_by_id (refl, u)
        w.operations;
}

begin_optimistic-IsValid :
    (m : Model) (s : Scope) (o : Operation) (p : Optimistic)
    → IsValid m
    → ScopeIsValid s
    → IsApart s.branch_binding_id o
    → IsValid (begin_optimistic m s o p).model
begin_optimistic-IsValid m s o p v w u =
    elim (Bool-cases (p.branch_binding_id == s.branch_binding_id)) [
      | inr h ↦ rw h v
      | inl h ↦
          let x = with_operation-ScopeIsValid s o w u in
          let scoped : IsValid
              (update_scope m (with_optimistic (with_operation s o) p) false).model =
            update_scope-IsValid m _ false v
              (record { named = x.named; operations = x.operations }) in
          rw h (
            select-IsValid _ (scope_target s.scope_id) scoped.distinct scoped.entries (λ _. scoped))
    ]

-- `beginOperation` admits the creation of a branch only in the scope of its target.
admitted-IsApart :
    (m : Model) (s : Scope) (o : Operation)
    → branch_create_operation_has_source_scope m s o ≡ true
    → OperationIsValid o
    → IsApart s.branch_binding_id o
unfolding branch_create_operation_has_source_scope
admitted-IsApart m s o h u k e = u k (target ∙ sym e)
  where
    target : o.target_branch_binding_id ≡ some s.branch_binding_id
    target = ground (arith, h, k)

pub begin_operation-IsValid :
    (m : Model) (o : Operation)
    → IsValid m
    → OperationIsValid o
    → IsValid (begin_operation m o).model
unfolding begin_operation
begin_operation-IsValid m o v u = elim (Option-cases (lookup o.scope_id m.scopes)) [
  | inl e ↦ rw (e, begin_operation) v
  | inr (s, e) ↦
      let w = (lookup-keyed o.scope_id s v e).valid in
      elim (Bool-cases (branch_create_operation_has_source_scope m s o)) [
        | inr h ↦ rw (e, h, begin_operation) v
        | inl h ↦
            let a = admitted-IsApart m s o h u in
            elim (Option-cases o.optimistic_projection) [
              | inl k ↦
                  rw (e, h, k, begin_operation)
                    (update_scope-IsValid m (with_operation s o) false v
                      (with_operation-ScopeIsValid s o w a))
              | inr (p, k) ↦ rw (e, h, k, begin_operation) (begin_optimistic-IsValid m s o p v w a)
            ]
      ]
]

pub without_operation-ScopeIsValid :
    (s : Scope) (id : String) → ScopeIsValid s → ScopeIsValid (without_operation s id)
without_operation-ScopeIsValid s id w = record {
  named = w.named;
  operations = Entries-erase (IsOwn s.branch_binding_id) id s.operations_by_id w.operations;
}

-- The source of a branch that is being created is another scope than the branch's own.
pub source_elsewhere :
    (m : Model) (s c : Scope) (o : Operation) (t : Scope)
    → IsValid m
    → lookup s.scope_id m.scopes ≡ some t
    → t.branch_binding_id ≡ s.branch_binding_id
    → o.source_branch_binding_id ≢ some s.branch_binding_id
    → branch_create_source_scope m s o ≡ some c
    → (lookup c.scope_id m.scopes ≡ some c) × (s.scope_id ≢ c.scope_id) × (c.scope_id ≢ "")
unfolding branch_create_source_scope
source_elsewhere m s c o t v l b w e =
    let (i, found, passes) =
      find-values (is_source s o) m.scopes c v.distinct (ground (arith, e)) in
    let entry = lookup-keyed i c v found in
    let here = subst (λ j. lookup j m.scopes ≡ some c) (sym entry.keyed) found in
    let apart : s.scope_id ≢ c.scope_id = λ q.
      let e1 : some t ≡ some c = sym l ∙ ap (λ j. lookup j m.scopes) q ∙ here in
      let e2 : t.branch_binding_id ≡ c.branch_binding_id = cc in
      let e3 : o.source_branch_binding_id ≡ some c.branch_binding_id = ground (arith, passes) in
      w (e3 ∙ ap some (sym e2 ∙ b)) in
    (here, apart, λ z. entry.valid.named z)
