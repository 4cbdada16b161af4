-- ===== src/SessionRuntime/Locality.antt =====
-- An event writes the scopes that it names, and no others.
use labrastro_vscode_extensi.Base.{
  ℕ, String, Bool, Option, none, some, ◌≡◌, ◌≢◌, refl, arith, List, [], ◌∷◌, inl, inr, Option-cases,
  Bool-cases, All, sym, ◌∙◌, ap, subst,
}
use labrastro_vscode_extensi.Base.Dict.{lookup, lookup-insert_ne, lookup-erase_ne}
use labrastro_vscode_extensi.SessionRuntime.Model.{
  Kind, Outcome, Operation, Scope, Model, Target, StatusUpdate, Reduction, Event, scope_upsert,
  scope_delete, select_branch, runtime_status, pending_next_turn, pending_remove, pending_clear,
  operation_begin, operation_settle,
}
use labrastro_vscode_extensi.SessionRuntime.Resolve.{
  resolve_event_scope, scope_target, scope_agent_run_conflicts, is_stale,
  branch_create_operation_has_source_scope, operation_source_conflicts, branch_create_source_scope,
}
use labrastro_vscode_extensi.SessionRuntime.Visible.{is_selected}
use labrastro_vscode_extensi.SessionRuntime.Scopes.{
  upsert_scope, delete_scope, update_scope, apply_runtime_status,
}
use labrastro_vscode_extensi.SessionRuntime.Scopes.Contents.{
  update_scope-scopes, upsert_scope-scopes, select-scopes,
}
use labrastro_vscode_extensi.SessionRuntime.Operations.{
  refuse_begin, record_operation, begin_in, begin_operation, fails_branch, settle_found, is_named,
  settle_operation, cleanup_failed_branch_create_scope, without_operation,
}
use labrastro_vscode_extensi.SessionRuntime.Reducer.{
  select_by_id, with_scope, status_body, add_next_turn, drop_next_turn, clear_next_turns, reduce,
}
use labrastro_vscode_extensi.SessionRuntime.Invariant.{IsValid, EventIsValid, lookup-keyed}
use labrastro_vscode_extensi.SessionRuntime.Invariant.Steps.{upsert_scope-IsValid}

abbrev pub ids : Option Scope → List String
ids none = []
ids (some s) = s.scope_id ∷ []

-- The scope that an event on a target resolves to.
abbrev pub resolved : Model → Target → List String
resolved m t = ids (resolve_event_scope m t)

-- The ids of the scopes that an event may write.
abbrev pub written : Model → Event → List String
written m (scope_upsert s select) = s.scope_id ∷ []
written m (scope_delete id) = id ∷ []
written m (select_branch t) = []
written m (runtime_status e) = resolved m e.target
written m (pending_next_turn t revision turn) = resolved m t
written m (pending_remove t removal) = resolved m t
written m (pending_clear t) = resolved m t
written m (operation_begin o none select) = o.scope_id ∷ []
written m (operation_begin o (some s) select) = s.scope_id ∷ o.scope_id ∷ []
written m (operation_settle outcome t id kind) = resolved m t

abbrev Keeps : String → Model → Model → Type 0
Keeps j m n = lookup j n.scopes ≡ lookup j m.scopes

update_scope-Keeps :
    (m : Model) (s : Scope) (j : String) → s.scope_id ≢ j → Keeps j m (update_scope m s).model
update_scope-Keeps m s j h =
    ap (lookup j) (update_scope-scopes m s) ∙ lookup-insert_ne s.scope_id j s m.scopes h

upsert_scope-Keeps :
    (m : Model) (s : Scope) (select : Bool) (j : String)
    → s.scope_id ≢ j
    → Keeps j m (upsert_scope m s select).model
upsert_scope-Keeps m s select j h =
    elim (Bool-cases
      (scope_agent_run_conflicts (lookup s.scope_id m.scopes) (some s.agent_run_id))) [
        | inl e ↦ unfold upsert_scope in rw e refl
        | inr e ↦
            ap (lookup j) (upsert_scope-scopes m s select e)
            ∙ lookup-insert_ne s.scope_id j s m.scopes h
      ]

delete_scope-Keeps : (m : Model) (id j : String) → id ≢ j → Keeps j m (delete_scope m id).model
unfolding delete_scope
delete_scope-Keeps m id j h = ground (arith, h, lookup-erase_ne id j m.scopes)

begin_in-Keeps :
    (m base : Model) (o : Operation) (j : String)
    → o.scope_id ≢ j
    → IsValid base
    → Keeps j m base
    → Keeps j m (begin_in m base o).model
unfolding begin_in refuse_begin record_operation
begin_in-Keeps m base o j h v k = elim (Option-cases (lookup o.scope_id base.scopes)) [
  | inl e ↦ rw (e, begin_in) refl
  | inr (s, e) ↦ elim (Bool-cases (branch_create_operation_has_source_scope base s o)) [
    | inr a ↦ rw (e, a, begin_in) refl
    | inl a ↦ elim (Bool-cases (operation_source_conflicts s o)) [
      | inl b ↦ rw (e, a, b, begin_in) refl
      | inr b ↦
          let entry = lookup-keyed o.scope_id s v e in
          rw (e, a, b, begin_in) (update_scope-Keeps base _ j (λ q. h (sym entry.keyed ∙ q)) ∙ k)
    ]
  ]
]

cleanup-Keeps :
    (m : Model) (s : Scope) (o : Operation) (j : String)
    → s.scope_id ≢ j
    → Keeps j m (cleanup_failed_branch_create_scope m s o).model
unfolding cleanup_failed_branch_create_scope
cleanup-Keeps m s o j h = elim (Option-cases (branch_create_source_scope m s o)) [
  | inl e ↦ rw (e, cleanup_failed_branch_create_scope) refl
  | inr (c, e) ↦ elim (Bool-cases (is_selected m s.scope_id)) [
    | inr k ↦
        rw (e, k, cleanup_failed_branch_create_scope) (lookup-erase_ne s.scope_id j m.scopes h)
    | inl k ↦
        rw (e, k, cleanup_failed_branch_create_scope)
          (ap (lookup j) (select-scopes _ (scope_target c.scope_id))
            ∙ lookup-erase_ne s.scope_id j m.scopes h)
  ]
]

settle_found-Keeps :
    (m : Model) (s : Scope) (id : String) (o : Operation) (kind : Kind) (outcome : Outcome)
    (j : String)
    → s.scope_id ≢ j
    → Keeps j m (settle_found m s id o kind outcome).model
unfolding settle_found without_operation
settle_found-Keeps m s id o kind outcome j h = elim (Option-cases (fails_branch outcome s o)) [
  | inl e ↦ rw (e, settle_found) (update_scope-Keeps m (without_operation s id) j h)
  | inr (p, e) ↦
      rw (e, settle_found)
        (cleanup-Keeps (update_scope m (without_operation s id)).model s o j h
          ∙ update_scope-Keeps m (without_operation s id) j h)
]

settle_operation-Keeps :
    (m : Model) (s : Scope) (id : String) (kind : Kind) (outcome : Outcome) (j : String)
    → s.scope_id ≢ j
    → Keeps j m (settle_operation m s id kind outcome).model
unfolding settle_operation
settle_operation-Keeps m s id kind outcome j h =
    elim (Option-cases (lookup id s.operations_by_id)) [
      | inl e ↦ rw (e, settle_operation) refl
      | inr (o, e) ↦ elim (Bool-cases (is_named o kind s.scope_id)) [
        | inr k ↦ rw (e, k, settle_operation) refl
        | inl k ↦ rw (e, k, settle_operation) (settle_found-Keeps m s id o kind outcome j h)
      ]
    ]

with_scope-Keeps :
    (m : Model) (type : String) (t : Target) (revision : Option ℕ) (body : Scope → Reduction)
    (j : String)
    → All (λ i. i ≢ j) (resolved m t)
    → ((s : Scope) → s.scope_id ≢ j → Keeps j m (body s).model)
    → Keeps j m (with_scope m type t revision body).model
unfolding with_scope
with_scope-Keeps m type t revision body j w h = elim (Option-cases (resolve_event_scope m t)) [
  | inl e ↦ rw (e, with_scope) refl
  | inr (s, e) ↦ elim (Bool-cases (is_stale s revision)) [
    | inl k ↦ rw (e, k, with_scope) refl
    | inr k ↦ rw (e, k, with_scope) (h s (subst (λ o. All (λ i. i ≢ j) (ids o)) e w).0)
  ]
]

select_by_id-Keeps :
    (m : Model) (id : Option String) (j : String) → Keeps j m (select_by_id m id).model
unfolding select_by_id
select_by_id-Keeps m none j = refl
select_by_id-Keeps m (some id) j = elim (Option-cases (resolve_event_scope m (scope_target id))) [
  | inl e ↦ rw (e, select_by_id) refl
  | inr (s, e) ↦ rw (e, select_by_id) (ap (lookup j) (select-scopes m (scope_target id)))
]

status_body-Keeps :
    (m : Model) (e : StatusUpdate) (s : Scope) (j : String)
    → s.scope_id ≢ j
    → Keeps j m (status_body m e s).model
unfolding status_body apply_runtime_status
status_body-Keeps m e s j h =
    elim (Bool-cases (scope_agent_run_conflicts (some s) e.agent_run_id)) [
      | inl k ↦ rw (k, status_body) refl
      | inr k ↦ rw (k, status_body) (update_scope-Keeps m (apply_runtime_status s e) j h)
    ]

-- A scope under a key that the event does not name is after the event what it was before it.
pub lookup-reduce_other :
    (m : Model) (e : Event) (j : String)
    → IsValid m
    → EventIsValid e
    → All (λ i. i ≢ j) (written m e)
    → lookup j (reduce m e).model.scopes ≡ lookup j m.scopes
unfolding reduce begin_operation refuse_begin add_next_turn drop_next_turn clear_next_turns
lookup-reduce_other m (scope_upsert s select) j v u w = upsert_scope-Keeps m s select j w.0
lookup-reduce_other m (scope_delete id) j v u w = delete_scope-Keeps m id j w.0
lookup-reduce_other m (select_branch t) j v u w = select_by_id-Keeps m _ j
lookup-reduce_other m (runtime_status e) j v u w =
    with_scope-Keeps m _ e.target _ (status_body m e) j w (λ s. status_body-Keeps m e s j)
lookup-reduce_other m (pending_next_turn t revision turn) j v u w =
    with_scope-Keeps m _ t revision (λ s. update_scope m (add_next_turn s revision turn)) j w
      (λ s. update_scope-Keeps m (add_next_turn s revision turn) j)
lookup-reduce_other m (pending_remove t removal) j v u w =
    with_scope-Keeps m _ t none (λ s. update_scope m (drop_next_turn s removal)) j w
      (λ s. update_scope-Keeps m (drop_next_turn s removal) j)
lookup-reduce_other m (pending_clear t) j v u w =
    with_scope-Keeps m _ t none (λ s. update_scope m (clear_next_turns s)) j w
      (λ s. update_scope-Keeps m (clear_next_turns s) j)
lookup-reduce_other m (operation_begin o none select) j v u w = begin_in-Keeps m m o j w.0 v refl
lookup-reduce_other m (operation_begin o (some s) select) j v u w =
    elim (Bool-cases
      (scope_agent_run_conflicts (lookup s.scope_id m.scopes) (some s.agent_run_id))) [
        | inl e ↦ rw e refl
        | inr e ↦ rw e (
            begin_in-Keeps m (upsert_scope m s select).model o j w.1.0
              (upsert_scope-IsValid m s select v u) (upsert_scope-Keeps m s select j w.0))
      ]
lookup-reduce_other m (operation_settle outcome t id kind) j v u w =
    with_scope-Keeps m _ t none (λ s. settle_operation m s id kind outcome) j w
      (λ s. settle_operation-Keeps m s id kind outcome j)
