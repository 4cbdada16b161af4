-- ===== src/SessionRuntime/Succession.antt =====
-- How one scope changes under events that carry no scope: which fields it keeps, and its revision.
pub mod Writes
use labrastro_vscode_extensi.Base.{
  ℕ, String, Bool, true, false, ◌≤◌, Option, none, some, ◌≡◌, ◌≢◌, refl, arith, List, [], ◌∷◌, inl,
  inr, Option-cases, Bool-cases, sym, ◌∙◌, ap, same, subst,
}
use labrastro_vscode_extensi.Base.Dict.{
  Dict, lookup, insert, erase, lookup-insert_ne, lookup-erase_ne, lookup-erase_self,
  lookup-insert_self,
}
use labrastro_vscode_extensi.SessionRuntime.Model.{
  Kind, Outcome, Operation, Scope, Model, Target, StatusUpdate, Reduction, Event, scope_upsert,
  scope_delete, select_branch, runtime_status, pending_next_turn, pending_remove, pending_clear,
  operation_begin, operation_settle,
}
use labrastro_vscode_extensi.SessionRuntime.Resolve.{
  resolve_event_scope, resolve_event_scope_id, scope_target, scope_agent_run_conflicts, is_stale,
  next_revision, branch_create_operation_has_source_scope, operation_source_conflicts,
  branch_create_source_scope,
}
use labrastro_vscode_extensi.SessionRuntime.Resolve.Sound.{resolve_event_scope_sound}
use labrastro_vscode_extensi.SessionRuntime.Visible.{is_selected}
use labrastro_vscode_extensi.SessionRuntime.Scopes.{
  delete_scope, update_scope, apply_runtime_status,
}
use labrastro_vscode_extensi.SessionRuntime.Scopes.Contents.{update_scope-scopes, select-scopes}
use labrastro_vscode_extensi.SessionRuntime.Operations.{
  refuse_begin, record_operation, begin_in, begin_operation, fails_branch, settle_found, is_named,
  settle_operation, cleanup_failed_branch_create_scope, without_operation,
}
use labrastro_vscode_extensi.SessionRuntime.Reducer.{
  select_by_id, with_scope, status_body, add_next_turn, drop_next_turn, clear_next_turns, reduce,
  run,
}
use labrastro_vscode_extensi.SessionRuntime.Invariant.{IsValid, EventIsValid, lookup-keyed}
use labrastro_vscode_extensi.SessionRuntime.Invariant.Events.{reduce-IsValid}
use labrastro_vscode_extensi.SessionRuntime.Succession.Writes.{
  Successor, Successor-refl, Successor-trans, Evolves, Evolves-refl, Evolves-trans,
  update_scope-Evolves, erase-Evolves, delete_scope-Evolves, begin_in-Evolves, cleanup-Evolves,
  settle_operation-Evolves,
}

with_scope-Evolves :
    (m : Model) (type : String) (t : Target) (revision : Option ℕ) (body : Scope → Reduction)
    → IsValid m
    → ((s : Scope)
        → lookup s.scope_id m.scopes ≡ some s
        → is_stale s revision ≡ false
        → Evolves m.scopes (body s).model.scopes)
    → Evolves m.scopes (with_scope m type t revision body).model.scopes
unfolding with_scope
with_scope-Evolves m type t revision body v h = elim (Option-cases (resolve_event_scope m t)) [
  | inl e ↦ rw (e, with_scope) (Evolves-refl m.scopes)
  | inr (s, e) ↦ elim (Bool-cases (is_stale s revision)) [
    | inl k ↦ rw (e, k, with_scope) (Evolves-refl m.scopes)
    | inr k ↦
        let (id, _, l, _) = resolve_event_scope_sound m t s e in
        let q = (lookup-keyed id s v l).keyed in
        rw (e, k, with_scope) (h s (subst (λ i. lookup i m.scopes ≡ some s) (sym q) l) k)
  ]
]

select_by_id-Evolves :
    (m : Model) (id : Option String) → Evolves m.scopes (select_by_id m id).model.scopes
unfolding select_by_id
select_by_id-Evolves m none = Evolves-refl m.scopes
select_by_id-Evolves m (some id) = elim (Option-cases (resolve_event_scope m (scope_target id))) [
  | inl e ↦ rw (e, select_by_id) (Evolves-refl m.scopes)
  | inr (s, e) ↦
      rw (e, select_by_id)
        (subst (Evolves m.scopes) (sym (select-scopes m (scope_target id))) (Evolves-refl m.scopes))
]

next_revision-le :
    (s : Scope) (revision : Option ℕ)
    → is_stale s revision ≡ false
    → s.runtime_revision ≤ next_revision s revision
next_revision-le s none h = omega arith
next_revision-le s (some r) h = ground (arith, h)

-- A status event that is not refused binds a scope to an agent run only if it has none.
apply_runtime_status-Successor :
    (s : Scope) (e : StatusUpdate)
    → is_stale s e.runtime_revision ≡ false
    → scope_agent_run_conflicts (some s) e.agent_run_id ≡ false
    → Successor s (apply_runtime_status s e)
unfolding apply_runtime_status scope_agent_run_conflicts
apply_runtime_status-Successor s e h k = record {
  scope_id = refl;
  session_run_id = refl;
  branch_binding_id = refl;
  agent_run_id = λ n. ground (arith, k, n);
  runtime_revision = next_revision-le s e.runtime_revision h;
}

status_body-Evolves :
    (m : Model) (e : StatusUpdate) (s : Scope)
    → lookup s.scope_id m.scopes ≡ some s
    → is_stale s e.runtime_revision ≡ false
    → Evolves m.scopes (status_body m e s).model.scopes
unfolding status_body
status_body-Evolves m e s l h =
    elim (Bool-cases (scope_agent_run_conflicts (some s) e.agent_run_id)) [
      | inl k ↦ rw (k, status_body) (Evolves-refl m.scopes)
      | inr k ↦
          let u = apply_runtime_status-Successor s e h k in
          rw (k, status_body)
            (update_scope-Evolves m s (apply_runtime_status s e)
              (subst (λ i. lookup i m.scopes ≡ some s) (sym u.scope_id) l) u)
    ]

same_identity :
    (s t : Scope)
    → t.scope_id ≡ s.scope_id
    → t.session_run_id ≡ s.session_run_id
    → t.branch_binding_id ≡ s.branch_binding_id
    → t.agent_run_id ≡ s.agent_run_id
    → s.runtime_revision ≤ t.runtime_revision
    → Successor s t
same_identity s t a b c d e = record {
  scope_id = a;
  session_run_id = b;
  branch_binding_id = c;
  agent_run_id = λ _. d;
  runtime_revision = e;
}

abbrev pub carries_scope : Event → Bool
carries_scope (scope_upsert s select) = true
carries_scope (operation_begin o (some s) select) = true
carries_scope _ = false

-- After an event that carries no scope, every scope was there before the event, and has kept its
-- id, its run and its branch, its agent run once it had one, and its revision or raised it.
pub reduce-Evolves :
    (m : Model) (e : Event)
    → IsValid m
    → carries_scope e ≡ false
    → Evolves m.scopes (reduce m e).model.scopes
unfolding reduce begin_operation add_next_turn drop_next_turn clear_next_turns
reduce-Evolves m (scope_upsert s select) v c = absurd (cc)
reduce-Evolves m (scope_delete id) v c = delete_scope-Evolves m id
reduce-Evolves m (select_branch t) v c = select_by_id-Evolves m (resolve_event_scope_id m t)
reduce-Evolves m (runtime_status e) v c =
    with_scope-Evolves m _ e.target e.runtime_revision (status_body m e) v (status_body-Evolves m e)
reduce-Evolves m (pending_next_turn t revision turn) v c =
    with_scope-Evolves m _ t revision (λ s. update_scope m (add_next_turn s revision turn)) v
      λ s l h.
        update_scope-Evolves m s (add_next_turn s revision turn) l
          (same_identity s _ refl refl refl refl (next_revision-le s revision h))
reduce-Evolves m (pending_remove t removal) v c =
    with_scope-Evolves m _ t none (λ s. update_scope m (drop_next_turn s removal)) v
      λ s l h.
        update_scope-Evolves m s (drop_next_turn s removal) l
          (same_identity s _ refl refl refl refl (omega arith))
reduce-Evolves m (pending_clear t) v c =
    with_scope-Evolves m _ t none (λ s. update_scope m (clear_next_turns s)) v
      λ s l h.
        update_scope-Evolves m s (clear_next_turns s) l
          (same_identity s _ refl refl refl refl (omega arith))
reduce-Evolves m (operation_begin o none select) v c = begin_in-Evolves m o v
reduce-Evolves m (operation_begin o (some s) select) v c = absurd (cc)
reduce-Evolves m (operation_settle outcome t id kind) v c =
    with_scope-Evolves m _ t none (λ s. settle_operation m s id kind outcome) v
      λ s l h. settle_operation-Evolves m s id kind outcome l

abbrev pub NoneCarries : List Event → Type 0
NoneCarries [] = Unit {0}
NoneCarries (e ∷ es) = (carries_scope e ≡ false) × NoneCarries es

carries_no_scope-EventIsValid : (e : Event) → carries_scope e ≡ false → EventIsValid e
carries_no_scope-EventIsValid (scope_upsert s select) c = absurd (cc)
carries_no_scope-EventIsValid (operation_begin o (some s) select) c = absurd (cc)
carries_no_scope-EventIsValid _ c = tt

-- Over any sequence of events that carry no scope, from a well-formed model: every scope at the end was
-- there at the start, and has kept its id, its run and its branch, its agent run unless it had none at
-- the start, and its revision or raised it.
pub run-Evolves :
    (m : Model) (es : List Event) → IsValid m → NoneCarries es → Evolves m.scopes (run m es).scopes
unfolding run
run-Evolves m [] v c = Evolves-refl m.scopes
run-Evolves m (e ∷ es) v c =
    Evolves-trans m.scopes (reduce m e).model.scopes _ (reduce-Evolves m e v c.0) (
      run-Evolves (reduce m e).model es (reduce-IsValid m e v (carries_no_scope-EventIsValid e c.0))
        c.1)
