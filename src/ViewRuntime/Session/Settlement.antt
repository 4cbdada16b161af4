-- ===== src/ViewRuntime/Session/Settlement.antt =====
-- The result of an operation is taken once.
use labrastro_vscode_extensi.Base.{
  String, Bool, true, false, not, ◌&&◌, ◌||◌, Option, none, some, ◌≡◌, ◌≢◌, refl, arith, given, inl,
  inr, Option-cases, Bool-cases, sym, subst, ◌∙◌, ap, is_some, any,
}
use labrastro_vscode_extensi.Base.Dict.{lookup, erase, lookup-erase_self}
use labrastro_vscode_extensi.SessionRuntime.Model.{Kind, Outcome}
use labrastro_vscode_extensi.SessionRuntime.Resolve.{is_branch_create}
use labrastro_vscode_extensi.SessionRuntime.Operations.{is_failure, same_kind}
use labrastro_vscode_extensi.SessionRuntime.Store.Reachable.{scope_id_for-ne}
use labrastro_vscode_extensi.ViewRuntime.Model.{
  Operation, Scope, Model, Result, operation_result, Reduction,
}
use labrastro_vscode_extensi.ViewRuntime.Visible.{
  update_scope, resolve_message_scope, matching, is_selected,
}
use labrastro_vscode_extensi.ViewRuntime.Operations.{
  without_operation, settle_found, settle_operation, conflicts,
  rollback_scoped_branch_create_operation, branch_create_source_scope,
}
use labrastro_vscode_extensi.ViewRuntime.Reducer.{is_rejection, reduce_host_message, with_scope}
use labrastro_vscode_extensi.ViewRuntime.Invariant.{IsValid}
use labrastro_vscode_extensi.ViewRuntime.Invariant.Messages.{update_scope-lookup}
use labrastro_vscode_extensi.ViewRuntime.Results.{
  ResultMessage, ResultTarget, ExistingOperation, kind_of, existing_operation,
  operation_result_target, model_for_operation_result,
}
use labrastro_vscode_extensi.ViewRuntime.Results.Adoption.{Holds, select-scopes}
use labrastro_vscode_extensi.ViewRuntime.Results.Preparation.{
  HasScope, IsFactory, known-ne, operation_result_target-IsKnown,
  model_for_operation_result-HasScope, model_for_operation_result-Holds,
}
use labrastro_vscode_extensi.ViewRuntime.Session.{
  fresh_scope, scope_for_upsert, result_for, is_rejected, settled_result, reduce_operation_result,
}

-- No scope under `id` holds the operation `op`.
abbrev pub IsGone : Model → String → String → Type 0
IsGone m id op = (s : Scope) → lookup id m.scopes ≡ some s → lookup op s.operations_by_id ≡ none

written-IsGone :
    (m : Model) (s : Scope) (op : String)
    → IsGone (update_scope m (without_operation s op) true).model s.scope_id op
written-IsGone m s op t e =
    let q : some (without_operation s op) ≡ some t =
      sym (update_scope-lookup m (without_operation s op) true) ∙ e in
    let same_scope : without_operation s op ≡ t = cc in
    subst (λ (k : Scope). lookup op k.operations_by_id ≡ none) same_scope
      (lookup-erase_self op s.operations_by_id)

rollback-IsGone :
    (m : Model) (s : Scope) (o : Operation) (op : String)
    → IsGone m s.scope_id op
    → IsGone (rollback_scoped_branch_create_operation m s o).model s.scope_id op
unfolding rollback_scoped_branch_create_operation
rollback-IsGone m s o op g =
    elim (Bool-cases (not (is_branch_create o.kind) || not (is_some o.rollback))) [
      | inl h ↦ rw (h, rollback_scoped_branch_create_operation) g
      | inr h ↦ elim (Option-cases (branch_create_source_scope m s o)) [
        | inl e ↦ rw (h, e, rollback_scoped_branch_create_operation) g
        | inr (c, e) ↦ elim (Bool-cases (is_selected m s.scope_id)) [
          | inr n ↦
              rw (h, e, n, rollback_scoped_branch_create_operation)
                λ t l.
                  let z : none ≡ some t = sym (lookup-erase_self s.scope_id m.scopes) ∙ l in
                  absurd (cc)
          | inl n ↦
              let cleaned : Model = record m { scopes = erase s.scope_id m.scopes } in
              rw (h, e, n, rollback_scoped_branch_create_operation)
                λ t l.
                  let z : none ≡ some t =
                    sym (lookup-erase_self s.scope_id m.scopes)
                    ∙ sym (ap (lookup s.scope_id) (select-scopes cleaned c.scope_id))
                    ∙ l in
                  absurd (cc)
        ]
      ]
    ]

settle_found-IsGone :
    (m : Model) (s : Scope) (o : Operation) (outcome : Outcome) (r : Result)
    → IsGone (settle_found m s o outcome r).model s.scope_id r.operation_id
unfolding settle_found
settle_found-IsGone m s o outcome r =
    let settled = (update_scope m (without_operation s r.operation_id) true).model in
    let gone = written-IsGone m s r.operation_id in
    elim (Bool-cases (not (is_failure outcome && (o.visible && is_selected settled s.scope_id)))) [
      | inl e ↦ rw (e, settle_found) gone
      | inr e ↦ elim (Bool-cases r.is_info) [
        | inl i ↦ rw (e, i, settle_found) gone
        | inr i ↦ elim (Bool-cases (is_branch_create o.kind && is_some o.rollback)) [
          | inl b ↦ rw (e, i, b, settle_found) (rollback-IsGone settled s o r.operation_id gone)
          | inr b ↦ rw (e, i, b, settle_found) gone
        ]
      ]
    ]

settle_operation-IsGone :
    (m : Model) (s : Scope) (outcome : Outcome) (r : Result)
    → any is_rejection (settle_operation m s outcome r).effects ≡ false
    → IsGone (settle_operation m s outcome r).model s.scope_id r.operation_id
unfolding settle_operation
settle_operation-IsGone m s outcome r a =
    elim (Option-cases (lookup r.operation_id s.operations_by_id)) [
      | inl e ↦ absurd (ground (arith, a, e))
      | inr (o, e) ↦ elim (Bool-cases (not (same_kind o.kind r.kind))) [
        | inl k ↦ absurd (ground (arith, a, e, k))
        | inr k ↦
            elim (Bool-cases (conflicts o.target_branch_binding_id r.target.branch_binding_id)) [
              | inl c ↦ absurd (ground (arith, a, e, k, c))
              | inr c ↦ rw (e, k, c, settle_operation) (settle_found-IsGone m s o outcome r)
            ]
      ]
    ]

-- A result that names its scope settles the operation in that scope.
result-IsGone :
    (m : Model) (outcome : Outcome) (r : Result) (id : String)
    → r.target.scope_id ≡ some id
    → id ≢ ""
    → HasScope m id
    → any is_rejection (reduce_host_message m (operation_result outcome r)).effects ≡ false
    → IsGone (reduce_host_message m (operation_result outcome r)).model id r.operation_id
unfolding reduce_host_message with_scope
result-IsGone m outcome r id t n (s, l, k) a =
    elim (Option-cases (resolve_message_scope m r.target)) [
      | inl e ↦ absurd (ground (arith, a, e))
      | inr (found, e) ↦
          let q : s ≡ found = resolved found e in
          rw (e, with_scope)
            (subst (λ i. IsGone (settle_operation m found outcome r).model i r.operation_id)
              (ap (λ (x : Scope). x.scope_id) (sym q) ∙ k)
              (settle_operation-IsGone m found outcome r (ground (arith, a, e))))
    ]
  where
    resolved : (found : Scope) → resolve_message_scope m r.target ≡ some found → s ≡ found
    resolved found e = unfold resolve_message_scope matching in ground (arith, e, t, n, l)

pub fresh-IsFactory : IsFactory (scope_for_upsert none)
unfolding scope_for_upsert fresh_scope
fresh-IsFactory m run branch status h =
    rw (h, scope_for_upsert) (record { named = scope_id_for-ne run branch; operations = tt }, refl)

-- If one scope alone holds the operation of a result, and the result's target could be found and
-- prepared, then the target's scope holds the operation in the prepared model.
pub model_for_operation_result-adopts :
    (m n : Model) (r : ResultMessage) (outcome : Outcome) (target : ResultTarget) (id : String)
    (x : ExistingOperation)
    → IsValid m
    → given r.operation_id ≡ some id
    → existing_operation m r ≡ some x
    → operation_result_target m r outcome ≡ some target
    → model_for_operation_result (scope_for_upsert none) m r target outcome ≡ some n
    → Holds n target.scope_id id
model_for_operation_result-adopts m n r outcome target id x v g h k e =
    model_for_operation_result-Holds (scope_for_upsert none) fresh-IsFactory m r target outcome v
      (operation_result_target-IsKnown m r outcome target v k) n id x g h e

settled_result-IsGone :
    (m : Model) (outcome : Outcome) (r : ResultMessage) (target : ResultTarget) (id : String)
    (kind : Kind) (message : Option String) (info : Bool) (result : Reduction)
    → HasScope m target.scope_id
    → target.scope_id ≢ ""
    → settled_result m outcome r target id kind message info ≡ some result
    → IsGone result.model target.scope_id id
settled_result-IsGone m outcome r target id kind message info result has n e =
    let x = result_for r target id kind message info in
    let reduced = reduce_host_message m (operation_result outcome x) in
    elim (Bool-cases (is_rejected reduced.effects)) [
      | inl h ↦ absurd (ground (arith, e, h))
      | inr h ↦
          let q : reduced ≡ result = ground (arith, e, h) in
          subst (λ (k : Reduction). IsGone k.model target.scope_id id) q
            (result-IsGone m outcome x target.scope_id refl n has h)
    ]

-- A result that is accepted names an operation and has a target, in whose scope the operation is not
-- pending any more.
pub reduce_operation_result-IsGone :
    (m : Model) (outcome : Outcome) (r : ResultMessage) (message : Option String) (info : Bool)
    (result : Reduction)
    → IsValid m
    → reduce_operation_result m outcome r message info ≡ some result
    → (id : String) × (target : ResultTarget) × (given r.operation_id ≡ some id)
      × (operation_result_target m r outcome ≡ some target)
      × IsGone result.model target.scope_id id
unfolding reduce_operation_result
reduce_operation_result-IsGone m outcome r message info result v e =
    elim (Option-cases (given r.operation_id)) [
      | inl g ↦ absurd (ground (arith, e, g))
      | inr (id, g) ↦ elim (Option-cases (given r.operation_kind)) [
        | inl h ↦ absurd (ground (arith, e, g, h))
        | inr (name, h) ↦ elim (Option-cases (kind_of name)) [
          | inl j ↦ absurd (ground (arith, e, g, h, j))
          | inr (kind, j) ↦ elim (Option-cases (operation_result_target m r outcome)) [
            | inl k ↦ absurd (ground (arith, e, g, h, j, k))
            | inr (target, k) ↦
                (id, target, g, k, gone id kind target g k (ground (arith, e, g, h, j, k)))
          ]
        ]
      ]
    ]
  where
    gone :
        (id : String) (kind : Kind) (target : ResultTarget)
        → given r.operation_id ≡ some id
        → operation_result_target m r outcome ≡ some target
        → elim (model_for_operation_result (scope_for_upsert none) m r target outcome) [
          | none ↦ none
          | some prepared ↦ settled_result prepared outcome r target id kind message info
        ]
          ≡ some result
        → IsGone result.model target.scope_id id
    gone id kind target g k e =
        let known = operation_result_target-IsKnown m r outcome target v k in
        elim (Option-cases
          (model_for_operation_result (scope_for_upsert none) m r target outcome)) [
            | inl h ↦ absurd (ground (arith, e, h))
            | inr (prepared, h) ↦
                let has =
                  model_for_operation_result-HasScope (scope_for_upsert none) fresh-IsFactory m r
                    target outcome v known prepared h (ground (arith, g)) in
                settled_result-IsGone prepared outcome r target id kind message info result has
                  (known-ne m target v known) (ground (arith, e, h))
          ]
