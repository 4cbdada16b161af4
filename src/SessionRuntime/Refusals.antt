-- ===== src/SessionRuntime/Refusals.antt =====
-- A refused event changes nothing.
use labrastro_vscode_extensi.Base.{
  ℕ, String, Bool, true, false, Option, none, some, ◌≡◌, refl, arith, inl, inr, Option-cases,
  Bool-cases, any, length,
}
use labrastro_vscode_extensi.Base.Dict.{lookup}
use labrastro_vscode_extensi.SessionRuntime.Model.{
  Kind, Outcome, Operation, Scope, Projection, Model, Target, StatusUpdate, Reduction, Effect,
  event_rejected, Event, scope_upsert, scope_delete, select_branch, runtime_status,
  pending_next_turn, pending_remove, pending_clear, operation_begin, operation_settle,
}
use labrastro_vscode_extensi.SessionRuntime.Resolve.{
  resolve_event_scope, resolve_event_scope_id, scope_agent_run_conflicts, is_stale, rejected,
}
use labrastro_vscode_extensi.SessionRuntime.Visible.{is_selected}
use labrastro_vscode_extensi.SessionRuntime.Scopes.{upsert_scope, delete_scope, update_scope}
use labrastro_vscode_extensi.SessionRuntime.Operations.{
  refuse_begin, record_operation, begin_in, begin_operation, settled_effects, fails_branch,
  settle_found, is_named, settle_operation, Cleanup, without_operation,
  cleanup_failed_branch_create_scope,
}
use labrastro_vscode_extensi.SessionRuntime.Reducer.{
  select_by_id, with_scope, status_body, add_next_turn, drop_next_turn, clear_next_turns, reduce,
}

abbrev pub is_rejection : Effect → Bool
is_rejection (event_rejected _ _ _) = true
is_rejection _ = false

abbrev pub rejects : Reduction → Bool
rejects r = any is_rejection r.effects

-- The reduction is no refusal, or is nothing but one.
abbrev pub IsAtomic : Model → Reduction → Type 0
IsAtomic m r = rejects r ≡ true → (r.model ≡ m) × (length r.effects ≡ 1)

update_scope-IsAtomic : (m base : Model) (s : Scope) → IsAtomic m (update_scope base s)
unfolding update_scope
update_scope-IsAtomic m base s h = absurd (ground (arith, h))

upsert_scope-IsAtomic :
    (m : Model) (s : Scope) (select : Bool) → IsAtomic m (upsert_scope m s select)
unfolding upsert_scope rejected
upsert_scope-IsAtomic m s select h = ground (arith, h)

delete_scope-IsAtomic : (m : Model) (id : String) → IsAtomic m (delete_scope m id)
unfolding delete_scope rejected
delete_scope-IsAtomic m id h = ground (arith, h)

begin_in-IsAtomic : (m base : Model) (o : Operation) → IsAtomic m (begin_in m base o)
unfolding begin_in refuse_begin rejected record_operation update_scope
begin_in-IsAtomic m base o h = ground (arith, h)

begin_operation-IsAtomic :
    (m : Model) (o : Operation) (p : Option Scope) (select : Bool)
    → IsAtomic m (begin_operation m o p select)
unfolding begin_operation refuse_begin rejected
begin_operation-IsAtomic m o none select = begin_in-IsAtomic m m o
begin_operation-IsAtomic m o (some s) select =
    elim (Bool-cases
      (scope_agent_run_conflicts (lookup s.scope_id m.scopes) (some s.agent_run_id))) [
        | inl e ↦ rw e (λ h. (refl, refl))
        | inr e ↦ rw e (begin_in-IsAtomic m _ o)
      ]

settled_effects-accepts :
    (s : Scope) (id : String) (b : Bool) (p : Projection) (c : Cleanup)
    → any is_rejection (settled_effects s id b p c) ≡ false
unfolding settled_effects
settled_effects-accepts s id b p c = ground arith

settle_found-accepts :
    (m : Model) (s : Scope) (id : String) (o : Operation) (kind : Kind) (outcome : Outcome)
    → rejects (settle_found m s id o kind outcome) ≡ false
unfolding settle_found
settle_found-accepts m s id o kind outcome = elim (Option-cases (fails_branch outcome s o)) [
  | inl e ↦ rw (e, settle_found) refl
  | inr (p, e) ↦
      let settled = (update_scope m (without_operation s id)).model in
      rw (e, settle_found)
        (settled_effects-accepts s id (is_selected settled s.scope_id) p
          (cleanup_failed_branch_create_scope settled s o))
]

settle_operation-IsAtomic :
    (m : Model) (s : Scope) (id : String) (kind : Kind) (outcome : Outcome)
    → IsAtomic m (settle_operation m s id kind outcome)
unfolding settle_operation
settle_operation-IsAtomic m s id kind outcome = elim (Option-cases (lookup id s.operations_by_id)) [
  | inl e ↦ rw (e, settle_operation) (λ h. (refl, refl))
  | inr (o, e) ↦ elim (Bool-cases (is_named o kind s.scope_id)) [
    | inr k ↦ rw (e, k, settle_operation) (λ h. (refl, refl))
    | inl k ↦
        rw (e, k, settle_operation)
          (λ h. absurd (ground (arith, h, settle_found-accepts m s id o kind outcome)))
  ]
]

with_scope-IsAtomic :
    (m : Model) (type : String) (t : Target) (revision : Option ℕ) (body : Scope → Reduction)
    → ((s : Scope) → IsAtomic m (body s))
    → IsAtomic m (with_scope m type t revision body)
unfolding with_scope
with_scope-IsAtomic m type t revision body h = elim (Option-cases (resolve_event_scope m t)) [
  | inl e ↦ rw (e, with_scope) (λ k. (refl, refl))
  | inr (s, e) ↦ elim (Bool-cases (is_stale s revision)) [
    | inl k ↦ rw (e, k, with_scope) (λ k. (refl, refl))
    | inr k ↦ rw (e, k, with_scope) (h s)
  ]
]

select_by_id-IsAtomic : (m : Model) (id : Option String) → IsAtomic m (select_by_id m id)
unfolding select_by_id rejected
select_by_id-IsAtomic m id h = ground (arith, h)

status_body-IsAtomic : (m : Model) (e : StatusUpdate) (s : Scope) → IsAtomic m (status_body m e s)
unfolding status_body
status_body-IsAtomic m e s = elim (Bool-cases (scope_agent_run_conflicts (some s) e.agent_run_id)) [
  | inl h ↦ rw (h, status_body) (λ k. (refl, refl))
  | inr h ↦ rw (h, status_body) (update_scope-IsAtomic m m _)
]

-- An event whose effects report a refusal leaves the model as it was, and the refusal is its only
-- effect. This is so also where a provisional scope was written before the refusal.
pub reduce-IsAtomic :
    (m : Model) (e : Event)
    → rejects (reduce m e) ≡ true
    → ((reduce m e).model ≡ m) × (length (reduce m e).effects ≡ 1)
unfolding reduce
reduce-IsAtomic m (scope_upsert s select) = upsert_scope-IsAtomic m s select
reduce-IsAtomic m (scope_delete id) = delete_scope-IsAtomic m id
reduce-IsAtomic m (select_branch t) = select_by_id-IsAtomic m (resolve_event_scope_id m t)
reduce-IsAtomic m (runtime_status e) = with_scope-IsAtomic m _ _ _ _ (status_body-IsAtomic m e)
reduce-IsAtomic m (pending_next_turn t revision turn) =
    with_scope-IsAtomic m _ _ _ _ (λ s. update_scope-IsAtomic m m (add_next_turn s revision turn))
reduce-IsAtomic m (pending_remove t removal) =
    with_scope-IsAtomic m _ t none (λ s. update_scope m (drop_next_turn s removal))
      (λ s. update_scope-IsAtomic m m (drop_next_turn s removal))
reduce-IsAtomic m (pending_clear t) =
    with_scope-IsAtomic m _ t none (λ s. update_scope m (clear_next_turns s))
      (λ s. update_scope-IsAtomic m m (clear_next_turns s))
reduce-IsAtomic m (operation_begin o p select) = begin_operation-IsAtomic m o p select
reduce-IsAtomic m (operation_settle outcome t id kind) =
    with_scope-IsAtomic m _ t none (λ s. settle_operation m s id kind outcome)
      (λ s. settle_operation-IsAtomic m s id kind outcome)
