-- ===== src/SessionRuntime/Invariant/Events.antt =====
-- Settling an operation, and so every event, keeps the model well formed.
use labrastro_vscode_extensi.Base.{
  ℕ, String, Option, none, some, ◌≡◌, ◌≢◌, refl, arith, List, [], ◌∷◌, inl, inr, Option-cases,
  Bool-cases, sym, ◌∙◌,
}
use labrastro_vscode_extensi.Base.Dict.{lookup, erase, lookup-erase_ne}
use labrastro_vscode_extensi.Base.DictKeys.{Entries-erase, Entries-lookup, Distinct-erase}
use labrastro_vscode_extensi.SessionRuntime.Model.{
  branch_create, Kind, Outcome, Operation, Scope, Projection, Model, Target, StatusUpdate, Event,
  Reduction, scope_upsert, scope_delete, select_branch, runtime_status, pending_next_turn,
  pending_remove, pending_clear, operation_begin, operation_settle,
}
use labrastro_vscode_extensi.SessionRuntime.Resolve.{
  resolve_event_scope, resolve_event_scope_id, scope_target, scope_agent_run_conflicts, is_stale,
  branch_create_source_scope,
}
use labrastro_vscode_extensi.SessionRuntime.Resolve.Sound.{
  resolve_event_scope_sound, resolve-scope_target,
}
use labrastro_vscode_extensi.SessionRuntime.Visible.{is_selected}
use labrastro_vscode_extensi.SessionRuntime.Scopes.{update_scope, apply_runtime_status}
use labrastro_vscode_extensi.SessionRuntime.Scopes.Contents.{update_scope-lookup}
use labrastro_vscode_extensi.SessionRuntime.Operations.{
  cleanup_failed_branch_create_scope, without_operation, fails_branch, settle_found, is_named,
  settle_operation,
}
use labrastro_vscode_extensi.SessionRuntime.Reducer.{
  select_by_id, with_scope, status_body, add_next_turn, drop_next_turn, clear_next_turns, reduce,
  run,
}
use labrastro_vscode_extensi.SessionRuntime.Invariant.{
  OperationIsValid, ScopeIsValid, EntryIsValid, IsValid, EventIsValid, lookup-keyed,
}
use labrastro_vscode_extensi.SessionRuntime.Invariant.Writes.{select-IsValid, erase-IsValid}
use labrastro_vscode_extensi.SessionRuntime.Invariant.Steps.{
  update_scope-IsValid, upsert_scope-IsValid, delete_scope-IsValid, begin_operation-IsValid,
  source_elsewhere,
}

without_operation-ScopeIsValid :
    (s : Scope) (id : String) → ScopeIsValid s → ScopeIsValid (without_operation s id)
unfolding without_operation
without_operation-ScopeIsValid s id w = record {
  named = w.named;
  operations = Entries-erase (λ _ o. OperationIsValid o) id s.operations_by_id w.operations;
}

-- The failed branch is deleted; if it was shown, its source is shown in its place.
cleanup-IsValid :
    (m : Model) (s t : Scope) (o : Operation)
    → IsValid m
    → OperationIsValid o
    → lookup s.scope_id m.scopes ≡ some t
    → t.branch_binding_id ≡ s.branch_binding_id
    → o.kind ≡ branch_create
    → o.target_branch_binding_id ≡ some s.branch_binding_id
    → IsValid (cleanup_failed_branch_create_scope m s o).model
unfolding cleanup_failed_branch_create_scope
cleanup-IsValid m s t o v w l b k u = elim (Option-cases (branch_create_source_scope m s o)) [
  | inl e ↦ rw (e, cleanup_failed_branch_create_scope) v
  | inr (c, e) ↦
      let (here, apart, named) = source_elsewhere m s c o v w t l b k u e in
      elim (Bool-cases (is_selected m s.scope_id)) [
        | inr h ↦ rw (e, h, cleanup_failed_branch_create_scope) (erase-IsValid m s.scope_id v h)
        | inl h ↦
            rw (e, h, cleanup_failed_branch_create_scope)
              (select-IsValid (record m { scopes = erase s.scope_id m.scopes })
                (scope_target c.scope_id) (Distinct-erase s.scope_id m.scopes v.distinct)
                (Entries-erase EntryIsValid s.scope_id m.scopes v.entries)
                λ n. absurd (found_again c here apart named n))
      ]
]
  where
    found_again :
        (c : Scope)
        → lookup c.scope_id m.scopes ≡ some c
        → s.scope_id ≢ c.scope_id
        → c.scope_id ≢ ""
        → resolve_event_scope
            (record m { scopes = erase s.scope_id m.scopes })
            (scope_target c.scope_id)
          ≡ none
        → ⊥
    found_again c here apart named n =
        let e : some c ≡ none =
          sym (
            resolve-scope_target (record m { scopes = erase s.scope_id m.scopes }) c.scope_id c
              named (lookup-erase_ne s.scope_id c.scope_id m.scopes apart ∙ here))
          ∙ n in
        cc

fails_branch-some :
    (outcome : Outcome) (s : Scope) (o : Operation) (p : Projection)
    → fails_branch outcome s o ≡ some p
    → (o.kind ≡ branch_create) × (o.target_branch_binding_id ≡ some s.branch_binding_id)
unfolding fails_branch
fails_branch-some outcome s o p e = (ground arith, ground arith)

settle_found-IsValid :
    (m : Model) (s : Scope) (id : String) (o : Operation) (kind : Kind) (outcome : Outcome)
    → IsValid m
    → ScopeIsValid s
    → OperationIsValid o
    → IsValid (settle_found m s id o kind outcome).model
unfolding settle_found without_operation
settle_found-IsValid m s id o kind outcome v w u = elim (Option-cases (fails_branch outcome s o)) [
  | inl e ↦ rw (e, settle_found) settled
  | inr (p, e) ↦
      let (k, t) = fails_branch-some outcome s o p e in
      rw (e, settle_found)
        (cleanup-IsValid _ s (without_operation s id) o settled u
          (update_scope-lookup m (without_operation s id)) refl k t)
]
  where
    settled : IsValid (update_scope m (without_operation s id)).model
    settled = update_scope-IsValid m _ v (without_operation-ScopeIsValid s id w)

settle_operation-IsValid :
    (m : Model) (s : Scope) (id : String) (kind : Kind) (outcome : Outcome)
    → IsValid m
    → ScopeIsValid s
    → IsValid (settle_operation m s id kind outcome).model
unfolding settle_operation
settle_operation-IsValid m s id kind outcome v w =
    elim (Option-cases (lookup id s.operations_by_id)) [
      | inl e ↦ rw (e, settle_operation) v
      | inr (o, e) ↦ elim (Bool-cases (is_named o kind s.scope_id)) [
        | inr h ↦ rw (e, h, settle_operation) v
        | inl h ↦
            rw (e, h, settle_operation)
              (settle_found-IsValid m s id o kind outcome v w
                (Entries-lookup (λ _ p. OperationIsValid p) id o s.operations_by_id w.operations e))
      ]
    ]

-- An event on a resolved scope is refused, or changes a valid scope.
with_scope-IsValid :
    (m : Model) (type : String) (t : Target) (revision : Option ℕ) (body : Scope → Reduction)
    → IsValid m
    → ((s : Scope) → ScopeIsValid s → IsValid (body s).model)
    → IsValid (with_scope m type t revision body).model
unfolding with_scope
with_scope-IsValid m type t revision body v h = elim (Option-cases (resolve_event_scope m t)) [
  | inl e ↦ rw (e, with_scope) v
  | inr (s, e) ↦
      let (id, _, l, _) = resolve_event_scope_sound m t s e in
      elim (Bool-cases (is_stale s revision)) [
        | inl k ↦ rw (e, k, with_scope) v
        | inr k ↦ rw (e, k, with_scope) (h s (lookup-keyed id s v l).valid)
      ]
]

select_by_id-IsValid :
    (m : Model) (id : Option String) → IsValid m → IsValid (select_by_id m id).model
unfolding select_by_id
select_by_id-IsValid m none v = v
select_by_id-IsValid m (some id) v = elim (Option-cases (resolve_event_scope m (scope_target id))) [
  | inl e ↦ rw (e, select_by_id) v
  | inr (s, e) ↦
      rw (e, select_by_id) (select-IsValid m (scope_target id) v.distinct v.entries (λ _. v))
]

status_body-IsValid :
    (m : Model) (e : StatusUpdate) (s : Scope)
    → IsValid m
    → ScopeIsValid s
    → IsValid (status_body m e s).model
unfolding status_body apply_runtime_status
status_body-IsValid m e s v w =
    elim (Bool-cases (scope_agent_run_conflicts (some s) e.agent_run_id)) [
      | inl h ↦ rw (h, status_body) v
      | inr h ↦
          rw (h, status_body)
            (update_scope-IsValid m (apply_runtime_status s e) v
              (record { named = w.named; operations = w.operations }))
    ]

-- Whatever event arrives, also one that is refused, a well-formed model stays well formed: the
-- keys of the scopes are distinct and are the scopes' own ids, no branch is created from itself,
-- and the selected scope, if any, exists and is what the projection shows. An event that carries
-- a scope has to carry a valid one.
pub reduce-IsValid :
    (m : Model) (e : Event) → IsValid m → EventIsValid e → IsValid (reduce m e).model
unfolding reduce add_next_turn drop_next_turn clear_next_turns
reduce-IsValid m (scope_upsert s select) v w = upsert_scope-IsValid m s select v w
reduce-IsValid m (scope_delete id) v w = delete_scope-IsValid m id v
reduce-IsValid m (select_branch t) v w = select_by_id-IsValid m (resolve_event_scope_id m t) v
reduce-IsValid m (runtime_status e) v w =
    with_scope-IsValid m _ e.target e.runtime_revision (status_body m e) v
      (λ s u. status_body-IsValid m e s v u)
reduce-IsValid m (pending_next_turn t revision turn) v w =
    with_scope-IsValid m _ t revision _ v λ s u.
      update_scope-IsValid m (add_next_turn s revision turn) v
        (record { named = u.named; operations = u.operations })
reduce-IsValid m (pending_remove t removal) v w = with_scope-IsValid m _ t none _ v λ s u.
    update_scope-IsValid m (drop_next_turn s removal) v
      (record { named = u.named; operations = u.operations })
reduce-IsValid m (pending_clear t) v w = with_scope-IsValid m _ t none _ v λ s u.
    update_scope-IsValid m (clear_next_turns s) v
      (record { named = u.named; operations = u.operations })
reduce-IsValid m (operation_begin o s select) v w = begin_operation-IsValid m o s select v w
reduce-IsValid m (operation_settle outcome t id kind) v w =
    with_scope-IsValid m _ t none _ v λ s u. settle_operation-IsValid m s id kind outcome v u

abbrev pub EventsAreValid : List Event → Type 0
EventsAreValid [] = Unit {0}
EventsAreValid (e ∷ es) = EventIsValid e × EventsAreValid es

pub run-IsValid : (m : Model) (es : List Event) → IsValid m → EventsAreValid es → IsValid (run m es)
unfolding run
run-IsValid m [] v w = v
run-IsValid m (e ∷ es) v w = run-IsValid (reduce m e).model es (reduce-IsValid m e v w.0) w.1
