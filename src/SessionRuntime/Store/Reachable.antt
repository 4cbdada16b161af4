-- ===== src/SessionRuntime/Store/Reachable.antt =====
-- Every method of the store keeps the model well formed.
use text.Mathlib.TextLemmas.{append-eq-nil_iff}
use labrastro_vscode_extensi.Base.{
  ℕ, String, Bool, true, false, Option, none, some, if◌then◌else◌, ◌==◌, or_else, given, is_some,
  List, [], ◌∷◌, ◌++◌, ◌≡◌, ◌≢◌, refl, arith, inl, inr, sym, subst, ◌∙◌, Option-cases, Bool-cases,
  All, keep, ne_of_test,
}
use labrastro_vscode_extensi.Base.Dict.{lookup, values}
use labrastro_vscode_extensi.Base.DictKeys.{Entries-insert}
use labrastro_vscode_extensi.SessionRuntime.Model.{
  Status, start, branch_create, Operation, Scope, Model, Outcome, success, failure, scope_upsert,
  scope_delete,
}
use labrastro_vscode_extensi.SessionRuntime.Resolve.{scope_id_for}
use labrastro_vscode_extensi.SessionRuntime.Visible.{is_selected}
use labrastro_vscode_extensi.SessionRuntime.Reducer.{reduce}
use labrastro_vscode_extensi.SessionRuntime.Invariant.{
  OperationIsValid, ScopeIsValid, IsValid, lookup-keyed,
}
use labrastro_vscode_extensi.SessionRuntime.Invariant.Events.{reduce-IsValid}
use labrastro_vscode_extensi.SessionRuntime.Store.{
  Criteria, EnsureInput, meets, operations_in, only, find_operations, find_operation, new_scope,
  renewed_scope, ensure_branch_runtime_scope, restore_bootstrap_scope_if_unclaimed,
  record_stream_cursor, selected_scope_matches, is_claimed,
}
use labrastro_vscode_extensi.SessionRuntime.Store.Settling.{
  settle, confirmed_scope, operation_on_target, confirm_start_operation, settle_all,
  clear_visible_operations,
}

pub scope_id_for-ne : (run branch : String) → scope_id_for run branch ≢ ""
unfolding scope_id_for
scope_id_for-ne run branch e =
    let f = append-eq-nil_iff.0 e in
    let g = append-eq-nil_iff.0 f.1 in absurd (ne_of_test ":" "" refl g.0)

pub settle-IsValid :
    (m : Model) (o : Operation) (outcome : Outcome) → IsValid m → IsValid (settle m o outcome)
unfolding settle
settle-IsValid m o outcome v = reduce-IsValid m _ v tt

-- What `find_operation` finds meets the criteria.
kept_meets : (c : Criteria) (os : List Operation) → All (λ o. meets c o ≡ true) (keep (meets c) os)
kept_meets c [] = tt
kept_meets c (o ∷ os) = elim (Bool-cases (meets c o)) [
  | inl h ↦ rw (h) (h, kept_meets c os)
  | inr h ↦ rw (h) (kept_meets c os)
]

All-append : {A : Type 0} (P : A → Type 0) (xs ys : List A) → All P xs → All P ys → All P (xs ++ ys)
All-append P [] ys p q = q
All-append P (x ∷ xs) ys p q = (p.0, All-append P xs ys p.1 q)

operations_in-meets :
    (c : Criteria) (ss : List Scope) → All (λ o. meets c o ≡ true) (operations_in c ss)
operations_in-meets c [] = tt
operations_in-meets c (s ∷ ss) =
    All-append (λ o. meets c o ≡ true) (keep (meets c) (values s.operations_by_id))
      (operations_in c ss) (kept_meets c (values s.operations_by_id)) (operations_in-meets c ss)

only-meets :
    (c : Criteria) (os : List Operation) (o : Operation)
    → All (λ o. meets c o ≡ true) os
    → only os ≡ some o
    → meets c o ≡ true
only-meets c [] o all e = absurd (cc)
only-meets c (x ∷ []) o all e = let f : x ≡ o = cc in subst (λ o. meets c o ≡ true) f all.0
only-meets c (x ∷ y ∷ os) o all e = absurd (cc)

pub found-meets :
    (m : Model) (c : Criteria) (o : Operation) → find_operation m c ≡ some o → meets c o ≡ true
unfolding find_operation find_operations
found-meets m c o e =
    only-meets c (find_operations m c) o (operations_in-meets c (values m.scopes)) e

pub found-IsValid :
    (m : Model) (c : Criteria) (body : Operation → Bool × Model)
    → IsValid m
    → ((o : Operation) → meets c o ≡ true → IsValid (body o).1)
    → IsValid
        (elim (find_operation m c) as (λ _. Bool × Model) [ none ↦ (false, m) | some o ↦ body o ]).1
found-IsValid m c body v h = elim (Option-cases (find_operation m c)) [
  | inl e ↦
      subst (λ q. IsValid (elim q as (λ _. Bool × Model) [ none ↦ (false, m) | some o ↦ body o ]).1)
        (sym e) v
  | inr (o, e) ↦
      subst (λ q. IsValid (elim q as (λ _. Bool × Model) [ none ↦ (false, m) | some o ↦ body o ]).1)
        (sym e) (h o (found-meets m c o e))
]

renewed-IsValid :
    (m : Model) (input : EnsureInput) (s : Scope)
    → IsValid m
    → lookup (scope_id_for input.session_run_id input.branch_binding_id) m.scopes ≡ some s
    → IsValid (ensure_branch_runtime_scope m input).1
unfolding ensure_branch_runtime_scope renewed_scope
renewed-IsValid m input s v e = elim (Bool-cases (ensure_branch_runtime_scope m input).0) [
  | inl h ↦
      let eq : (ensure_branch_runtime_scope m input).1
          ≡ (reduce m (
              scope_upsert
                (renewed_scope input s
                  (or_else (given (some s.agent_run_id)) (or_else (given input.agent_run_id) "")))
                input.select)).model =
        ground (arith, e, h) in
      subst IsValid (sym eq) (reduce-IsValid m _ v (fits _))
  | inr h ↦
      let eq : (ensure_branch_runtime_scope m input).1 ≡ m = ground (arith, e, h) in
      subst IsValid (sym eq) v
]
  where
    fits : (agent : String) → ScopeIsValid (renewed_scope input s agent)
    fits agent = record {
      named = scope_id_for-ne input.session_run_id input.branch_binding_id;
      operations = (lookup-keyed _ s v e).valid.operations;
    }

pub ensure-IsValid :
    (m : Model) (input : EnsureInput) → IsValid m → IsValid (ensure_branch_runtime_scope m input).1
unfolding ensure_branch_runtime_scope new_scope renewed_scope
ensure-IsValid m input v =
    elim (Option-cases
      (lookup (scope_id_for input.session_run_id input.branch_binding_id) m.scopes)) [
        | inl e ↦ elim (Option-cases (given input.agent_run_id)) [
          | inl h ↦ rw (e, h, ensure_branch_runtime_scope) v
          | inr (agent, h) ↦
              rw (e, h, ensure_branch_runtime_scope)
                (reduce-IsValid m (scope_upsert (new_scope input agent) input.select) v (record {
                  named = scope_id_for-ne input.session_run_id input.branch_binding_id;
                  operations = tt;
                }))
        ]
        | inr (s, e) ↦ renewed-IsValid m input s v e
      ]

pub restore-IsValid :
    (m : Model) (input : EnsureInput)
    → IsValid m
    → IsValid (restore_bootstrap_scope_if_unclaimed m input).1
unfolding restore_bootstrap_scope_if_unclaimed
restore-IsValid m input v =
    elim (Bool-cases (
      is_claimed (lookup (scope_id_for input.session_run_id input.branch_binding_id) m.scopes)
        input.agent_run_id)) [
          | inl h ↦
              let eq : (restore_bootstrap_scope_if_unclaimed m input).1 ≡ m = ground (arith, h) in
              subst IsValid (sym eq) v
          | inr h ↦
              elim (Bool-cases (
                selected_scope_matches m input.session_run_id input.branch_binding_id
                  input.agent_run_id)) [
                    | inl k ↦
                        let eq : (restore_bootstrap_scope_if_unclaimed m input).1 ≡ m =
                          ground (arith, k) in
                        subst IsValid (sym eq) v
                    | inr k ↦ elim (Bool-cases (is_some (given m.visible.selected_scope_id))) [
                      | inl j ↦
                          let eq : (restore_bootstrap_scope_if_unclaimed m input).1 ≡ m =
                            ground (arith, j) in
                          subst IsValid (sym eq) v
                      | inr j ↦
                          let eq : (restore_bootstrap_scope_if_unclaimed m input).1
                              ≡ (ensure_branch_runtime_scope m (record input { select = true })).1 =
                            ground (arith, h, k, j) in
                          subst IsValid (sym eq)
                            (ensure-IsValid m (record input { select = true }) v)
                    ]
                  ]
        ]

pub record-IsValid :
    (m : Model) (run branch : String) (cursor : ℕ) (status : Option Status)
    → IsValid m
    → IsValid (record_stream_cursor m run branch cursor status).1
unfolding record_stream_cursor
record-IsValid m run branch cursor status v =
    elim (Option-cases (lookup (scope_id_for run branch) m.scopes)) [
      | inl e ↦ rw (e, record_stream_cursor) v
      | inr (s, e) ↦
          let w = (lookup-keyed _ s v e).valid in
          rw (e, record_stream_cursor)
            (reduce-IsValid m _ v (record { named = w.named; operations = w.operations }))
    ]

pub confirm-IsValid :
    (m : Model) (o : Operation) (run branch : String) (agent : Option String)
    → o.kind ≡ start
    → IsValid m
    → IsValid (confirm_start_operation m o run branch agent)
unfolding confirm_start_operation
confirm-IsValid m o run branch agent k v = elim (Option-cases (lookup o.scope_id m.scopes)) [
  | inl e ↦ rw (e, confirm_start_operation) (settle-IsValid m o success v)
  | inr (s, e) ↦
      let w = (lookup-keyed o.scope_id s v e).valid in
      let event = scope_upsert (confirmed_scope s o run branch agent) (is_selected m s.scope_id) in
      let fits : ScopeIsValid (confirmed_scope s o run branch agent) = record {
        named = scope_id_for-ne run branch;
        operations =
            Entries-insert (λ _ o. OperationIsValid o) o.operation_id
              (operation_on_target o run branch) s.operations_by_id
              (λ b. absurd (let f : start ≡ branch_create = sym k ∙ b in cc)) w.operations;
      } in
      let u : IsValid (reduce m event).model = reduce-IsValid m event v fits in
      rw (e, confirm_start_operation)
        (settle-IsValid _ (operation_on_target o run branch) success
          (deleted (reduce m event).model s.scope_id (s.scope_id == scope_id_for run branch) u))
]
  where
    deleted :
        (n : Model) (id : String) (b : Bool)
        → IsValid n
        → IsValid (if b then n else (reduce n (scope_delete id)).model)
    deleted n id true u = u
    deleted n id false u = reduce-IsValid n (scope_delete id) u tt

pub clear-IsValid : (m : Model) → IsValid m → IsValid (clear_visible_operations m)
unfolding clear_visible_operations
clear-IsValid m v =
    go m
      (find_operations m
        (record { operation_id = none; operation_kind = none; visible = some true }))
      v
  where
    go : (m : Model) (os : List Operation) → IsValid m → IsValid (settle_all m os)
    go m [] v = v
    go m (o ∷ os) v = go (settle m o failure) os (settle-IsValid m o failure v)
