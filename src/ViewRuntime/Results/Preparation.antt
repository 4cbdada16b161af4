-- ===== src/ViewRuntime/Results/Preparation.antt =====
-- The target of an operation's result, and the model that is prepared for it.
use labrastro_vscode_extensi.Base.{
  String, Bool, true, false, Option, none, some, ◌≡◌, ◌≢◌, refl, arith, given, inl, inr,
  Option-cases, Bool-cases, sym, subst, ◌∙◌, ap, is_some, any, ◌⊎◌,
}
use labrastro_vscode_extensi.Base.Dict.{lookup, lookup-insert_self}
use labrastro_vscode_extensi.SessionRuntime.Model.{Status, Outcome}
use labrastro_vscode_extensi.SessionRuntime.Resolve.{scope_id_for}
use labrastro_vscode_extensi.SessionRuntime.Operations.{is_failure}
use labrastro_vscode_extensi.ViewRuntime.Model.{Scope, Model, scope_upsert}
use labrastro_vscode_extensi.ViewRuntime.Visible.{put_scope}
use labrastro_vscode_extensi.ViewRuntime.Reducer.{is_rejection, reduce_host_message}
use labrastro_vscode_extensi.ViewRuntime.Invariant.{IsValid, lookup-keyed, ScopeIsValid}
use labrastro_vscode_extensi.ViewRuntime.Invariant.Messages.{reduce_host_message-IsValid}
use labrastro_vscode_extensi.ViewRuntime.Results.{
  ResultMessage, ResultTarget, ExistingOperation, existing_operation, adopt, with_target,
  model_for_operation_result, target_for_existing_operation, operation_result_target, proven_target,
  partly_proven_target, result_branch,
}
use labrastro_vscode_extensi.SessionRuntime.Store.Reachable.{scope_id_for-ne}
use labrastro_vscode_extensi.ViewRuntime.Reducer.{upsert_scope}
use labrastro_vscode_extensi.ViewRuntime.Invariant.Messages.{refresh-scopes}
use labrastro_vscode_extensi.ViewRuntime.Visible.{scope_agent_run_conflicts}
use labrastro_vscode_extensi.ViewRuntime.Results.{selects_target, operation_result_initial_status}
use labrastro_vscode_extensi.ViewRuntime.Results.Adoption.{
  Holds, select-scopes, accepted-eq, existing_operation-IsFound, adopt-Holds,
}

-- The scope of a result's target is that of the run and branch, or is in the model.
abbrev pub IsKnown : Model → ResultTarget → Type 0
IsKnown m target =
    (target.scope_id ≡ scope_id_for target.session_run_id target.branch_binding_id)
    ⊎ ((s : Scope) × (lookup target.scope_id m.scopes ≡ some s) × (s.scope_id ≢ ""))

found-IsKnown :
    (m : Model) (r : ResultMessage) (x : ExistingOperation)
    → IsValid m
    → existing_operation m r ≡ some x
    → IsKnown m (target_for_existing_operation x)
found-IsKnown m r x v e = elim (Option-cases (given r.operation_id)) [
  | inl h ↦ absurd (unfold existing_operation in ground (arith, e, h))
  | inr (id, h) ↦
      let f = existing_operation-IsFound m r id x v h e in inr (x.scope, f.there, f.valid.named)
]

partly_proven-IsKnown :
    (m : Model) (r : ResultMessage) (o : Option ExistingOperation) (outcome : Outcome)
    (target : ResultTarget)
    → IsValid m
    → existing_operation m r ≡ o
    → partly_proven_target o r outcome ≡ some target
    → IsKnown m target
partly_proven-IsKnown m r none outcome target v h e = absurd (cc)
partly_proven-IsKnown m r (some x) outcome target v h e =
    let q : target_for_existing_operation x ≡ target = ground (arith, e) in
    subst (IsKnown m) q (found-IsKnown m r x v h)

proven-IsKnown :
    (m : Model) (r : ResultMessage) (o : Option ExistingOperation) (outcome : Outcome)
    (run branch : String) (target : ResultTarget)
    → IsValid m
    → existing_operation m r ≡ o
    → proven_target o outcome run branch ≡ some target
    → IsKnown m target
proven-IsKnown m r none outcome run branch target v h e = inl (ground (arith, e))
proven-IsKnown m r (some x) outcome run branch target v h e =
    elim (Bool-cases (is_failure outcome)) [
      | inl f ↦
          let q : target_for_existing_operation x ≡ target = ground (arith, e, f) in
          subst (IsKnown m) q (found-IsKnown m r x v h)
      | inr f ↦ inl (ground (arith, e, f))
    ]

pub operation_result_target-IsKnown :
    (m : Model) (r : ResultMessage) (outcome : Outcome) (target : ResultTarget)
    → IsValid m
    → operation_result_target m r outcome ≡ some target
    → IsKnown m target
unfolding operation_result_target
operation_result_target-IsKnown m r outcome target v e =
    elim (Option-cases (given r.session_run_id)) [
      | inl h ↦ partly_proven-IsKnown m r _ outcome target v refl (ground (arith, e, h))
      | inr (run, h) ↦ elim (Option-cases (given (some (result_branch r)))) [
        | inl k ↦ partly_proven-IsKnown m r _ outcome target v refl (ground (arith, e, h, k))
        | inr (branch, k) ↦
            proven-IsKnown m r (existing_operation m r) outcome run branch target v refl
              (ground (arith, e, h, k))
      ]
    ]

-- The scope `id` is in the model, with that id.
abbrev pub HasScope : Model → String → Type 0
HasScope m id = (s : Scope) × (lookup id m.scopes ≡ some s) × (s.scope_id ≡ id)

pub known-ne :
    (m : Model) (target : ResultTarget) → IsValid m → IsKnown m target → target.scope_id ≢ ""
known-ne m target v (inl e) =
    λ p. scope_id_for-ne target.session_run_id target.branch_binding_id (sym e ∙ p)
known-ne m target v (inr (s, l, n)) =
    let k = (lookup-keyed target.scope_id s v l).keyed in λ p. n (k ∙ p)

upsert_scope-HasScope :
    (m : Model) (s : Scope) (select : Bool)
    → any is_rejection (upsert_scope m s select false).effects ≡ false
    → HasScope (upsert_scope m s select false).model s.scope_id
unfolding upsert_scope
upsert_scope-HasScope m s select a =
    elim (Bool-cases (scope_agent_run_conflicts (lookup s.scope_id m.scopes) s)) [
      | inl h ↦ absurd (ground (arith, a, h))
      | inr h ↦ elim (Bool-cases select) [
        | inl k ↦
            rw (h, k, upsert_scope)
              (s, ap (lookup s.scope_id) (select-scopes (put_scope m s) s.scope_id) ∙ written, refl)
        | inr k ↦
            rw (h, k, upsert_scope)
              (
                s,
                ap (lookup s.scope_id) (refresh-scopes (put_scope m s) s.scope_id) ∙ written,
                refl,
              )
      ]
    ]
  where
    written : lookup s.scope_id (put_scope m s).scopes ≡ some s
    written = unfold put_scope in lookup-insert_self s.scope_id s m.scopes

-- The factory makes a well-formed scope for a run and a branch that have none.
abbrev pub IsFactory : (Model → String → String → Status → Scope) → Type 0
IsFactory create =
    (m : Model) (run branch : String) (status : Status)
    → lookup (scope_id_for run branch) m.scopes ≡ none
    → ScopeIsValid (create m run branch status)
      × ((create m run branch status).scope_id ≡ scope_id_for run branch)

module _ (create : Model → String → String → Status → Scope) (creates : IsFactory create)
    (m : Model) (r : ResultMessage) (target : ResultTarget) (outcome : Outcome) (v : IsValid m)
    (known : IsKnown m target) where
  with_target-IsValid :
      (existing : Option ExistingOperation) (n : Model)
      → with_target create m existing r target outcome ≡ some n
      → IsValid n × HasScope n target.scope_id
  unfolding with_target
  with_target-IsValid existing n e = elim (Option-cases (lookup target.scope_id m.scopes)) [
    | inr (s, h) ↦
        let q : m ≡ n = ground (arith, e, h) in
        subst (λ k. IsValid k × HasScope k target.scope_id) q
          (v, (s, h, (lookup-keyed target.scope_id s v h).keyed))
    | inl h ↦
        let here = unknown h in
        let (w, k) =
          creates m target.session_run_id target.branch_binding_id
            (operation_result_initial_status outcome r.operation_kind)
            (ap (λ i. lookup i m.scopes) (sym here) ∙ h) in
        let s = initial_scope in
        let (q, a) =
          accepted-eq m n (scope_upsert s (selects_target m existing target) false)
            (ground (arith, e, h)) in
        subst (λ k. IsValid k × HasScope k target.scope_id) q
          (
            reduce_host_message-IsValid m _ v w,
            subst
                (HasScope
                  (reduce_host_message m
                    (scope_upsert s (selects_target m existing target) false)).model)
                (k ∙ sym here)
                (unfold reduce_host_message in
                  upsert_scope-HasScope m s (selects_target m existing target) a),
          )
  ]
    where
      initial_scope : Scope
      initial_scope =
          create m target.session_run_id target.branch_binding_id
            (operation_result_initial_status outcome r.operation_kind)

      unknown :
          lookup target.scope_id m.scopes ≡ none
          → target.scope_id ≡ scope_id_for target.session_run_id target.branch_binding_id
      unknown h = elim known [
        | inl q ↦ q
        | inr (s, l, _) ↦ let z : some s ≡ none = sym l ∙ h in absurd (cc)
      ]

  -- A result's target has its scope in the model that is prepared for the result.
  pub model_for_operation_result-HasScope :
      (n : Model)
      → model_for_operation_result create m r target outcome ≡ some n
      → is_some (given r.operation_id) ≡ true
      → HasScope n target.scope_id
  unfolding model_for_operation_result
  model_for_operation_result-HasScope n e g = elim (Option-cases (given r.operation_id)) [
    | inl h ↦ absurd (ground (arith, g, h))
    | inr (id, h) ↦
        elim (Option-cases (with_target create m (existing_operation m r) r target outcome)) [
          | inl k ↦ absurd (ground (arith, e, h, k))
          | inr (targeted, k) ↦
              let (valid, has) = with_target-IsValid (existing_operation m r) targeted k in
              adopted id targeted valid has h (ground (arith, e, h, k))
        ]
  ]
    where
      adopted :
          (id : String) (targeted : Model)
          → IsValid targeted
          → HasScope targeted target.scope_id
          → given r.operation_id ≡ some id
          → adopt targeted (existing_operation m r) id target ≡ some n
          → HasScope n target.scope_id
      adopted id targeted valid has h e = elim (Option-cases (existing_operation m r)) [
        | inl k ↦
            let q : targeted ≡ n = unfold adopt in ground (arith, e, k) in
            subst (λ j. HasScope j target.scope_id) q has
        | inr (x, k) ↦
            let f = existing_operation-IsFound m r id x v h k in
            let (s, l, j, _) =
              adopt-Holds targeted n x id target valid f.valid f.holds
                (ap (λ o. adopt targeted o id target) (sym k) ∙ e) in
            (s, l, j)
      ]

  -- An operation that one scope alone holds is held by the target's scope in the model that is
  -- prepared for its result.
  pub model_for_operation_result-Holds :
      (n : Model) (id : String) (x : ExistingOperation)
      → given r.operation_id ≡ some id
      → existing_operation m r ≡ some x
      → model_for_operation_result create m r target outcome ≡ some n
      → Holds n target.scope_id id
  unfolding model_for_operation_result
  model_for_operation_result-Holds n id x h j e =
      elim (Option-cases (with_target create m (existing_operation m r) r target outcome)) [
        | inl k ↦ absurd (ground (arith, e, h, k))
        | inr (targeted, k) ↦
            let (valid, _) = with_target-IsValid (existing_operation m r) targeted k in
            let f = existing_operation-IsFound m r id x v h j in
            adopt-Holds targeted n x id target valid f.valid f.holds
              (ap (λ o. adopt targeted o id target) (sym j) ∙ ground (arith, e, h, k))
      ]
