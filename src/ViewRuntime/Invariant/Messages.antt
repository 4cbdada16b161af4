-- ===== src/ViewRuntime/Invariant/Messages.antt =====
-- Every message keeps the webview's model well formed: settlements, and the whole reducer.
use labrastro_vscode_extensi.Base.{
  String, Bool, true, false, not, ◌&&◌, ◌||◌, Option, none, some, ◌≡◌, ◌≢◌, refl, arith, List, inl,
  inr, Option-cases, Bool-cases, sym, subst, ◌∙◌, ap, is_some, any,
}
use labrastro_vscode_extensi.Base.Dict.{lookup, erase, lookup-erase_ne, lookup-insert_self}
use labrastro_vscode_extensi.Base.DictKeys.{Entries, Entries-erase, Distinct-erase, Entries-lookup}
use labrastro_vscode_extensi.SessionRuntime.Model.{branch_create, Target, Outcome, View, Stats}
use labrastro_vscode_extensi.SessionRuntime.Resolve.{scope_target, is_branch_create}
use labrastro_vscode_extensi.SessionRuntime.Operations.{is_failure, same_kind}
use labrastro_vscode_extensi.ViewRuntime.Model.{
  Operation, Scope, Model, Result, StreamType, StatusMessage, Message, scope_upsert, scope_delete,
  select_branch, status_changed, branches, pending_next_turn, pending_next_turns, streamed, replied,
  operation_pending, operation_result, Reduction,
}
use labrastro_vscode_extensi.ViewRuntime.Visible.{
  resolve_message_scope, is_selected, refresh_visible, put_scope, update_scope,
}
use labrastro_vscode_extensi.ViewRuntime.Operations.{
  branch_create_source_scope, rollback_scoped_branch_create_operation, without_operation,
  settle_found, settle_operation, conflicts,
}
use labrastro_vscode_extensi.ViewRuntime.Reducer.{
  add_next_turn, replace_next_turns, scoped_event_transcript_projection, accept_stream,
  accept_reply, apply_status, with_scope, reduce_host_message, same_status,
}
use labrastro_vscode_extensi.ViewRuntime.Invariant.{
  IsApart, IsOwn, ScopeIsValid, EntryIsValid, IsValid, MessageIsValid, lookup-keyed,
  resolve_message_scope_sound, resolve-scope_target,
}
use labrastro_vscode_extensi.ViewRuntime.Invariant.Writes.{select-IsValid, erase-IsValid}
use labrastro_vscode_extensi.ViewRuntime.Invariant.Steps.{
  update_scope-IsValid, upsert_scope-IsValid, delete_scope-IsValid, select_by_message-IsValid,
  set_branches-IsValid, begin_operation-IsValid, without_operation-ScopeIsValid, source_elsewhere,
}

-- The failed branch is deleted; if it was shown, its source is shown in its place.
rollback-IsValid :
    (m : Model) (s t : Scope) (o : Operation)
    → IsValid m
    → lookup s.scope_id m.scopes ≡ some t
    → t.branch_binding_id ≡ s.branch_binding_id
    → IsApart s.branch_binding_id o
    → IsValid (rollback_scoped_branch_create_operation m s o).model
unfolding rollback_scoped_branch_create_operation
rollback-IsValid m s t o v l b a =
    elim (Bool-cases (not (is_branch_create o.kind) || not (is_some o.rollback))) [
      | inl h ↦ rw (h, rollback_scoped_branch_create_operation) v
      | inr h ↦ elim (Option-cases (branch_create_source_scope m s o)) [
        | inl e ↦ rw (h, e, rollback_scoped_branch_create_operation) v
        | inr (c, e) ↦
            let k : o.kind ≡ branch_create = ground (arith, h) in
            let (here, apart, named) = source_elsewhere m s c o t v l b (a k) e in
            elim (Bool-cases (is_selected m s.scope_id)) [
              | inr n ↦
                  rw (h, e, n, rollback_scoped_branch_create_operation)
                    (erase-IsValid m s.scope_id v n)
              | inl n ↦
                  rw (h, e, n, rollback_scoped_branch_create_operation)
                    (select-IsValid (record m { scopes = erase s.scope_id m.scopes })
                      (scope_target c.scope_id) (Distinct-erase s.scope_id m.scopes v.distinct)
                      (Entries-erase EntryIsValid s.scope_id m.scopes v.entries)
                      λ q. absurd (found_again c here apart named q))
            ]
      ]
    ]
  where
    found_again :
        (c : Scope)
        → lookup c.scope_id m.scopes ≡ some c
        → s.scope_id ≢ c.scope_id
        → c.scope_id ≢ ""
        → resolve_message_scope
            (record m { scopes = erase s.scope_id m.scopes })
            (scope_target c.scope_id)
          ≡ none
        → ⊥
    found_again c here apart named n =
        let kept = lookup-erase_ne s.scope_id c.scope_id m.scopes apart ∙ here in
        let cleaned : Model = record m { scopes = erase s.scope_id m.scopes } in
        let e : some c ≡ none = sym (resolve-scope_target cleaned c.scope_id c named kept) ∙ n in cc

pub refresh-scopes : (m : Model) (id : String) → (refresh_visible m id).scopes ≡ m.scopes
unfolding refresh_visible
refresh-scopes m id = ground arith

pub update_scope-lookup :
    (m : Model) (s : Scope) (emit : Bool)
    → lookup s.scope_id (update_scope m s emit).model.scopes ≡ some s
unfolding update_scope put_scope
update_scope-lookup m s emit =
    ap (lookup s.scope_id) (refresh-scopes (put_scope m s) s.scope_id)
    ∙ lookup-insert_self s.scope_id s m.scopes

settle_found-IsValid :
    (m : Model) (s : Scope) (o : Operation) (outcome : Outcome) (r : Result)
    → IsValid m
    → ScopeIsValid s
    → IsApart s.branch_binding_id o
    → IsValid (settle_found m s o outcome r).model
unfolding settle_found
settle_found-IsValid m s o outcome r v w a =
    elim (Bool-cases
      (not (is_failure outcome && (o.visible && is_selected after.model s.scope_id)))) [
        | inl h ↦ rw (h, settle_found) settled
        | inr h ↦ elim (Bool-cases r.is_info) [
          | inl k ↦ rw (h, k, settle_found) settled
          | inr k ↦ elim (Bool-cases (is_branch_create o.kind && is_some o.rollback)) [
            | inl n ↦
                rw (h, k, n, settle_found)
                  (rollback-IsValid after.model s (without_operation s r.operation_id) o settled
                    (update_scope-lookup m (without_operation s r.operation_id) true) refl a)
            | inr n ↦ rw (h, k, n, settle_found) settled
          ]
        ]
      ]
  where
    after : Reduction
    after = update_scope m (without_operation s r.operation_id) true

    settled : IsValid (update_scope m (without_operation s r.operation_id) true).model
    settled = update_scope-IsValid m _ true v (without_operation-ScopeIsValid s r.operation_id w)

settle_operation-IsValid :
    (m : Model) (s : Scope) (outcome : Outcome) (r : Result)
    → IsValid m
    → ScopeIsValid s
    → IsValid (settle_operation m s outcome r).model
unfolding settle_operation
settle_operation-IsValid m s outcome r v w =
    elim (Option-cases (lookup r.operation_id s.operations_by_id)) [
      | inl e ↦ rw (e, settle_operation) v
      | inr (o, e) ↦ elim (Bool-cases (same_kind o.kind r.kind)) [
        | inr h ↦ rw (e, h, settle_operation) v
        | inl h ↦
            elim (Bool-cases (conflicts o.target_branch_binding_id r.target.branch_binding_id)) [
              | inl k ↦ rw (e, h, k, settle_operation) v
              | inr k ↦
                  rw (e, h, k, settle_operation)
                    (settle_found-IsValid m s o outcome r v w
                      (Entries-lookup (IsOwn s.branch_binding_id) r.operation_id o
                        s.operations_by_id w.operations e).1)
            ]
      ]
    ]

-- A change of a scope's shown fields and queue.
like-ScopeIsValid :
    (s t : Scope)
    → ScopeIsValid s
    → t.scope_id ≡ s.scope_id
    → t.branch_binding_id ≡ s.branch_binding_id
    → t.operations_by_id ≡ s.operations_by_id
    → ScopeIsValid t
like-ScopeIsValid s t w i b o = record {
  named = λ e. w.named (sym i ∙ e);
  operations =
      subst (λ d. Entries (IsOwn t.branch_binding_id) d) (sym o)
        (subst (λ n. Entries (IsOwn n) s.operations_by_id) (sym b) w.operations);
}

with_scope-IsValid :
    (m : Model) (t : Target) (body : Scope → Reduction)
    → IsValid m
    → ((s : Scope) → ScopeIsValid s → IsValid (body s).model)
    → IsValid (with_scope m t body).model
unfolding with_scope
with_scope-IsValid m t body v h = elim (Option-cases (resolve_message_scope m t)) [
  | inl e ↦ rw (e, with_scope) v
  | inr (s, e) ↦
      let (id, _, l, _) = resolve_message_scope_sound m t s e in
      rw (e, with_scope) (h s (lookup-keyed id s v l).valid)
]

apply_status-IsValid :
    (m : Model) (s : Scope) (e : StatusMessage)
    → IsValid m
    → ScopeIsValid s
    → IsValid (apply_status m s e).model
unfolding apply_status
apply_status-IsValid m s e v w =
    elim (Bool-cases (any (λ x. same_status x s.status) e.skip_when_status)) [
      | inl h ↦ rw (h, apply_status) v
      | inr h ↦
          rw (h, apply_status)
            (update_scope-IsValid m _ _ v (like-ScopeIsValid s _ w refl refl refl))
    ]

accept_stream-IsValid :
    (m : Model) (s : Scope) (type : StreamType) (turns : Option (List View)) (stats : Option Stats)
    → IsValid m
    → ScopeIsValid s
    → IsValid (accept_stream m s type turns stats).model
unfolding accept_stream scoped_event_transcript_projection
accept_stream-IsValid m s type turns stats v w =
    elim (Bool-cases (not (is_some turns) && not (is_some stats))) [
      | inl h ↦ rw (h, accept_stream) v
      | inr h ↦
          rw (h, accept_stream)
            (update_scope-IsValid m _ false v (like-ScopeIsValid s _ w refl refl refl))
    ]

-- Every message, refused or not, keeps the model of the webview well formed, if a scope that it
-- carries is well formed and a branch creation that it begins has another source than its target:
-- the scope ids are distinct, not empty and the scopes' own, no branch is created from itself, and a
-- selected scope is there and is what the projection shows.
pub reduce_host_message-IsValid :
    (m : Model) (message : Message)
    → IsValid m
    → MessageIsValid message
    → IsValid (reduce_host_message m message).model
unfolding reduce_host_message add_next_turn replace_next_turns accept_reply
reduce_host_message-IsValid m (scope_upsert s select clear) v w =
    upsert_scope-IsValid m s select clear v w
reduce_host_message-IsValid m (scope_delete id) v w = delete_scope-IsValid m id v
reduce_host_message-IsValid m (select_branch t) v w = select_by_message-IsValid m t v
reduce_host_message-IsValid m (branches run summaries) v w = set_branches-IsValid m run summaries v
reduce_host_message-IsValid m (operation_pending o) v w = begin_operation-IsValid m o v w
reduce_host_message-IsValid m (operation_result outcome r) v w =
    with_scope-IsValid m r.target (λ s. settle_operation m s outcome r) v
      λ s u. settle_operation-IsValid m s outcome r v u
reduce_host_message-IsValid m (pending_next_turn t turn) v w =
    with_scope-IsValid m t (λ s. add_next_turn m s turn) v
      λ s u. update_scope-IsValid m _ false v (like-ScopeIsValid s _ u refl refl refl)
reduce_host_message-IsValid m (pending_next_turns t turns) v w =
    with_scope-IsValid m t (λ s. replace_next_turns m s turns) v
      λ s u. update_scope-IsValid m _ false v (like-ScopeIsValid s _ u refl refl refl)
reduce_host_message-IsValid m (streamed type t turns stats) v w =
    with_scope-IsValid m t (λ s. accept_stream m s type turns stats) v
      λ s u. accept_stream-IsValid m s type turns stats v u
reduce_host_message-IsValid m (replied type t message stop) v w =
    with_scope-IsValid m t (λ s. accept_reply m s type message stop) v (λ s u. v)
reduce_host_message-IsValid m (status_changed e) v w =
    with_scope-IsValid m e.target (λ s. apply_status m s e) v λ s u. apply_status-IsValid m s e v u
