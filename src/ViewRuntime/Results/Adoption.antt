-- ===== src/ViewRuntime/Results/Adoption.antt =====
-- The model for an operation's result: the target scope is there, and it holds the operation.
use labrastro_vscode_extensi.Base.{
  String, true, false, some, ◌≡◌, refl, arith, List, [], ◌∷◌, ◌==◌, given, inl, inr, Option-cases,
  Bool-cases, sym, subst, ◌∙◌, ap, is_some, keep, any,
}
use labrastro_vscode_extensi.Base.Dict.{lookup, values, lookup-insert_self}
use labrastro_vscode_extensi.Base.DictKeys.{keep-values, Entries-lookup}
use labrastro_vscode_extensi.SessionRuntime.Resolve.{scope_target}
use labrastro_vscode_extensi.ViewRuntime.Model.{
  Operation, Scope, Model, scope_upsert, scope_delete, operation_pending, Message,
}
use labrastro_vscode_extensi.ViewRuntime.Visible.{update_scope, select_session_runtime_scope}
use labrastro_vscode_extensi.ViewRuntime.Operations.{
  begin_operation, with_operation, with_optimistic, branch_create_operation_has_source_scope,
  without_operation,
}
use labrastro_vscode_extensi.ViewRuntime.Reducer.{is_rejection, reduce_host_message}
use labrastro_vscode_extensi.ViewRuntime.Invariant.{IsOwn, IsValid, lookup-keyed, ScopeIsValid}
use labrastro_vscode_extensi.ViewRuntime.Invariant.Steps.{without_operation-ScopeIsValid}
use labrastro_vscode_extensi.ViewRuntime.Invariant.Messages.{
  update_scope-lookup, reduce_host_message-IsValid,
}
use labrastro_vscode_extensi.ViewRuntime.Results.{
  pending_start, ResultMessage, ResultTarget, ExistingOperation, existing_operation, only_match,
  holds_operation, reduce_accepted, release, moved_operation, holds_pending, adopt,
}

-- The scope under `id` has that id and holds the operation `op`.
abbrev pub Holds : Model → String → String → Type 0
Holds m id op =
    (s : Scope) × (lookup id m.scopes ≡ some s)
    × (s.scope_id ≡ id)
    × (is_some (lookup op s.operations_by_id) ≡ true)

pub accepted-eq :
    (m n : Model) (message : Message)
    → reduce_accepted m message ≡ some n
    → ((reduce_host_message m message).model ≡ n)
      × (any is_rejection (reduce_host_message m message).effects ≡ false)
unfolding reduce_accepted
accepted-eq m n message e =
    elim (Bool-cases (any is_rejection (reduce_host_message m message).effects)) [
      | inl h ↦ absurd (ground (arith, e, h))
      | inr h ↦ (ground (arith, e, h), h)
    ]

pub accepted-IsValid :
    (m n : Model) (message : Message)
    → IsValid (reduce_host_message m message).model
    → reduce_accepted m message ≡ some n
    → IsValid n
accepted-IsValid m n message v e = subst IsValid (accepted-eq m n message e).0 v

pub select-scopes :
    (m : Model) (id : String) → (select_session_runtime_scope m (scope_target id)).scopes ≡ m.scopes
unfolding select_session_runtime_scope
select-scopes m id = ground arith

-- An operation that is accepted is held by the scope that it names.
begin_operation-Holds :
    (m : Model) (o : Operation)
    → IsValid m
    → any is_rejection (begin_operation m o).effects ≡ false
    → Holds (begin_operation m o).model o.scope_id o.operation_id
unfolding begin_operation
begin_operation-Holds m o v a = elim (Option-cases (lookup o.scope_id m.scopes)) [
  | inl e ↦ absurd (ground (arith, a, e))
  | inr (s, e) ↦
      let k = (lookup-keyed o.scope_id s v e).keyed in
      let held : is_some (lookup o.operation_id (with_operation s o).operations_by_id) ≡ true =
        rw (lookup-insert_self o.operation_id o s.operations_by_id) refl in
      elim (Bool-cases (branch_create_operation_has_source_scope m s o)) [
        | inr h ↦ absurd (ground (arith, a, e, h))
        | inl h ↦ elim (Option-cases o.optimistic_projection) [
          | inl n ↦
              rw (e, h, n, begin_operation)
                (
                  with_operation s o,
                  ap (λ i. lookup i (update_scope m (with_operation s o) false).model.scopes)
                        (sym k)
                      ∙ update_scope-lookup m (with_operation s o) false,
                  k,
                  held,
                )
          | inr (p, n) ↦ elim (Bool-cases (p.branch_binding_id == s.branch_binding_id)) [
            | inr b ↦ absurd (ground (arith, a, e, h, n, b))
            | inl b ↦
                let w = with_optimistic (with_operation s o) p in
                rw (e, h, n, b, begin_operation)
                  (
                    w,
                    ap (lookup o.scope_id) (select-scopes (update_scope m w false).model s.scope_id)
                        ∙ ap (λ i. lookup i (update_scope m w false).model.scopes) (sym k)
                        ∙ update_scope-lookup m w false,
                    k,
                    held,
                  )
          ]
        ]
      ]
]

-- What is known of an operation that was found: its scope is in the model and holds it.
pub record IsFound (m : Model) (id : String) (x : ExistingOperation) : Type 0 where
  pub there : lookup x.scope.scope_id m.scopes ≡ some x.scope
  pub valid : ScopeIsValid x.scope
  pub holds : lookup id x.scope.operations_by_id ≡ some x.operation

only_match-eq :
    (id : String) (scopes : List Scope) (x : ExistingOperation)
    → only_match id scopes ≡ some x
    → (scopes ≡ x.scope ∷ []) × (lookup id x.scope.operations_by_id ≡ some x.operation)
unfolding only_match
only_match-eq id [] x e = absurd (cc)
only_match-eq id (s ∷ t ∷ scopes) x e = absurd (cc)
only_match-eq id (s ∷ []) x e = elim (Option-cases (lookup id s.operations_by_id)) [
  | inl h ↦ absurd (ground (arith, e, h))
  | inr (o, h) ↦
      let q : some (record { scope = s; operation = o }) ≡ some x = ground (arith, e, h) in
      let same_scope : s ≡ x.scope = cc in
      let same_operation : o ≡ x.operation = cc in
      (
        ap (λ t. t ∷ []) same_scope,
        ap (λ (t : Scope). lookup id t.operations_by_id) (sym same_scope)
            ∙ h
            ∙ ap some same_operation,
      )
]

pub existing_operation-IsFound :
    (m : Model) (r : ResultMessage) (id : String) (x : ExistingOperation)
    → IsValid m
    → given r.operation_id ≡ some id
    → existing_operation m r ≡ some x
    → IsFound m id x
unfolding existing_operation
existing_operation-IsFound m r id x v g e = elim (Option-cases (given r.operation_kind)) [
  | inl h ↦ absurd (ground (arith, e, g, h))
  | inr (kind, h) ↦
      let found = keep (holds_operation id kind) (values m.scopes) in
      let (q, holds) = only_match-eq id found x (ground (arith, e, g, h)) in
      let (k, l) = keep-values (holds_operation id kind) m.scopes x.scope [] v.distinct q in
      let entry = lookup-keyed k x.scope v l in
      record {
        there = subst (λ i. lookup i m.scopes ≡ some x.scope) (sym entry.keyed) l;
        valid = entry.valid;
        holds = holds;
      }
]

release-IsValid :
    (m n : Model) (x : ExistingOperation) (id : String) (target : ResultTarget)
    → IsValid m
    → ScopeIsValid x.scope
    → release m x id target ≡ some n
    → IsValid n
unfolding release
release-IsValid m n x id target v w e = elim (Bool-cases (x.scope.scope_id == target.scope_id)) [
  | inl h ↦ let q : m ≡ n = ground (arith, e, h) in subst IsValid q v
  | inr h ↦ elim (Bool-cases (x.scope.session_run_id == pending_start)) [
    | inl k ↦
        accepted-IsValid m n (scope_delete x.scope.scope_id) (reduce_host_message-IsValid m _ v tt)
          (ground (arith, e, h, k))
    | inr k ↦
        let left = without_operation x.scope id in
        accepted-IsValid m n (scope_upsert left false false)
          (reduce_host_message-IsValid m _ v (without_operation-ScopeIsValid x.scope id w))
          (ground (arith, e, h, k))
  ]
]

holds_pending-Holds :
    (m : Model) (target : ResultTarget) (id : String)
    → IsValid m
    → holds_pending m target id ≡ true
    → Holds m target.scope_id id
holds_pending-Holds m target id v h = elim (Option-cases (lookup target.scope_id m.scopes)) [
  | inl e ↦ absurd (ground (arith, h, e))
  | inr (s, e) ↦ (s, e, (lookup-keyed target.scope_id s v e).keyed, ground (arith, h, e))
]

pub adopt-Holds :
    (m n : Model) (x : ExistingOperation) (id : String) (target : ResultTarget)
    → IsValid m
    → ScopeIsValid x.scope
    → lookup id x.scope.operations_by_id ≡ some x.operation
    → adopt m (some x) id target ≡ some n
    → Holds n target.scope_id id
unfolding adopt
adopt-Holds m n x id target v w l e = elim (Bool-cases (holds_pending m target id)) [
  | inl h ↦
      let same_model : m ≡ n = ground (arith, e, h) in
      subst (λ k. Holds k target.scope_id id) same_model (holds_pending-Holds m target id v h)
  | inr h ↦ elim (Option-cases (release m x id target)) [
    | inl k ↦ absurd (ground (arith, e, h, k))
    | inr (released, k) ↦
        let o = moved_operation x target in
        let (same_model, accepted) =
          accepted-eq released n (operation_pending o) (ground (arith, e, h, k)) in
        let valid = release-IsValid m released x id target v w k in
        let (q, _) =
          Entries-lookup (IsOwn x.scope.branch_binding_id) id x.operation x.scope.operations_by_id
            w.operations l in
        subst (λ k. Holds k target.scope_id id) same_model
          (subst (Holds (reduce_host_message released (operation_pending o)).model target.scope_id)
            q (unfold reduce_host_message in begin_operation-Holds released o valid accepted))
  ]
]
