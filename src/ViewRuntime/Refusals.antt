-- ===== src/ViewRuntime/Refusals.antt =====
-- A refused message changes nothing in the webview's model.
use labrastro_vscode_extensi.Base.{
  String, Bool, true, false, not, ◌&&◌, Option, none, some, ◌≡◌, refl, arith, inl, inr,
  Option-cases, Bool-cases, any, length, or_else, List, [], ◌∷◌, ◌++◌, is_some,
}
use labrastro_vscode_extensi.Base.Dict.{lookup}
use labrastro_vscode_extensi.SessionRuntime.Model.{Outcome, Target, View, Stats, Status}
use labrastro_vscode_extensi.SessionRuntime.Resolve.{is_branch_create}
use labrastro_vscode_extensi.SessionRuntime.Operations.{is_failure, same_kind}
use labrastro_vscode_extensi.ViewRuntime.Model.{
  Operation, Scope, Model, Result, ReplyType, StatusMessage, Summary, Effect, Reduction, Message,
  scope_upsert, scope_delete, select_branch, status_changed, branches, pending_next_turn,
  pending_next_turns, streamed, replied, operation_pending, operation_result, ViewEffect,
  Optimistic,
}
use labrastro_vscode_extensi.ViewRuntime.Visible.{resolve_message_scope, update_scope, is_selected}
use labrastro_vscode_extensi.ViewRuntime.Operations.{
  begin_operation, settle_found, settle_operation, conflicts, settle_rollback, without_operation,
  rollback_scoped_branch_create_operation, selected_scope_operation_error_effects, begin_optimistic,
}
use labrastro_vscode_extensi.ViewRuntime.Reducer.{
  is_rejection, upsert_scope, delete_scope, select_by_message, set_branches, add_next_turn,
  replace_next_turns, scoped_event_transcript_projection, accept_stream, accept_reply, apply_status,
  with_scope, reduce_host_message, visible_view_effects, view_effects_for, error_notice_for,
  same_status, is_terminal_effect, status_for_message, with_status, if_selected,
}

abbrev pub rejects : Reduction → Bool
rejects r = any is_rejection r.effects

-- The reduction is no refusal, or is nothing but one.
abbrev pub IsAtomic : Model → Reduction → Type 0
IsAtomic m r = rejects r ≡ true → (r.model ≡ m) × (length r.effects ≡ 1)

error_effects-accept :
    (o : Operation) (id : String) (message : Option String) (a b : Bool)
    → any is_rejection (selected_scope_operation_error_effects o id message a b) ≡ false
unfolding selected_scope_operation_error_effects
error_effects-accept o id message a b = ground arith

settle_rollback-accepts :
    (m : Model) (s : Scope) (o : Operation) (r : Result) → rejects (settle_rollback m s o r) ≡ false
settle_rollback-accepts m s o r =
    let c = rollback_scoped_branch_create_operation m s o in
    ground (arith, error_effects-accept o s.scope_id r.message c.rolled_back c.rolled_back)

settle_found-accepts :
    (m : Model) (s : Scope) (o : Operation) (outcome : Outcome) (r : Result)
    → rejects (settle_found m s o outcome r) ≡ false
unfolding settle_found
settle_found-accepts m s o outcome r =
    let settled = (update_scope m (without_operation s r.operation_id) true).model in
    elim (Bool-cases (not (is_failure outcome && (o.visible && is_selected settled s.scope_id)))) [
      | inl e ↦ rw (e, settle_found) refl
      | inr e ↦ elim (Bool-cases r.is_info) [
        | inl i ↦ rw (e, i, settle_found) refl
        | inr i ↦ elim (Bool-cases (is_branch_create o.kind && is_some o.rollback)) [
          | inl b ↦ rw (e, i, b, settle_found) (settle_rollback-accepts settled s o r)
          | inr b ↦
              rw (e, i, b, settle_found) (error_effects-accept o s.scope_id r.message true true)
        ]
      ]
    ]

settle_operation-IsAtomic :
    (m : Model) (s : Scope) (outcome : Outcome) (r : Result)
    → IsAtomic m (settle_operation m s outcome r)
unfolding settle_operation
settle_operation-IsAtomic m s outcome r =
    elim (Option-cases (lookup r.operation_id s.operations_by_id)) [
      | inl e ↦ rw (e, settle_operation) (λ h. (refl, refl))
      | inr (o, e) ↦ elim (Bool-cases (not (same_kind o.kind r.kind))) [
        | inl k ↦ rw (e, k, settle_operation) (λ h. (refl, refl))
        | inr k ↦
            elim (Bool-cases (conflicts o.target_branch_binding_id r.target.branch_binding_id)) [
              | inl c ↦ rw (e, k, c, settle_operation) (λ h. (refl, refl))
              | inr c ↦
                  rw (e, k, c, settle_operation)
                    (λ h. absurd (ground (arith, h, settle_found-accepts m s o outcome r)))
            ]
      ]
    ]

any-append :
    (xs ys : List Effect)
    → any is_rejection xs ≡ false
    → any is_rejection ys ≡ false
    → any is_rejection (xs ++ ys) ≡ false
any-append [] ys p q = q
any-append (x ∷ xs) ys p q = ground (arith, p, any-append xs ys _ q)

update_scope-accepts : (m : Model) (s : Scope) (p : Bool) → rejects (update_scope m s p) ≡ false
unfolding update_scope
update_scope-accepts m s p = ground arith

visible_view_effects-accept :
    (effect : ViewEffect) (status : Status)
    → any is_rejection (visible_view_effects effect status) ≡ false
unfolding visible_view_effects
visible_view_effects-accept (ViewEffect.running text none) status = refl
visible_view_effects-accept (ViewEffect.running text (some t)) status = refl
visible_view_effects-accept (ViewEffect.stopping text) status = refl
visible_view_effects-accept ViewEffect.error status = refl
visible_view_effects-accept (ViewEffect.terminal (some t) next) status = refl
visible_view_effects-accept (ViewEffect.terminal none next) status = ground arith

status_effects-accept :
    (e : StatusMessage) (status : Status) (id : String)
    → any is_rejection (view_effects_for e status ++ error_notice_for e id) ≡ false
status_effects-accept e status id =
    any-append (view_effects_for e status) (error_notice_for e id)
      (elim (Option-cases e.view_effect) [
        | inl h ↦ rw h refl
        | inr (effect, h) ↦ rw h (visible_view_effects-accept effect status)
      ])
      (ground arith)

apply_status-accepts :
    (m : Model) (s : Scope) (e : StatusMessage) → rejects (apply_status m s e) ≡ false
unfolding apply_status
apply_status-accepts m s e =
    let status = or_else e.status (status_for_message e.type) in
    let r = update_scope m (with_status s e status) (not (is_terminal_effect e.view_effect)) in
    elim (Bool-cases (any (λ x. same_status x s.status) e.skip_when_status)) [
      | inl h ↦ rw (h, apply_status) refl
      | inr h ↦
          rw (h, apply_status)
            (any-append r.effects _ (update_scope-accepts m _ _)
              (elim (Bool-cases (is_selected r.model s.scope_id)) [
                | inl k ↦ rw k (status_effects-accept e status s.scope_id)
                | inr k ↦ rw k refl
              ]))
    ]

with_scope-IsAtomic :
    (m : Model) (t : Target) (body : Scope → Reduction)
    → ((s : Scope) → IsAtomic m (body s))
    → IsAtomic m (with_scope m t body)
unfolding with_scope
with_scope-IsAtomic m t body h = elim (Option-cases (resolve_message_scope m t)) [
  | inl e ↦ rw (e, with_scope) (λ k. (refl, refl))
  | inr (s, e) ↦ rw (e, with_scope) (h s)
]

if_selected-accepts :
    (m : Model) (id : String) (effect : Effect)
    → is_rejection effect ≡ false
    → any is_rejection (if_selected m id effect) ≡ false
if_selected-accepts m id effect h = ground (arith, h)

accepting-IsAtomic : (m : Model) (r : Reduction) → rejects r ≡ false → IsAtomic m r
accepting-IsAtomic m r h k = absurd (ground (arith, h, k))

upsert_scope-IsAtomic :
    (m : Model) (s : Scope) (select clear : Bool) → IsAtomic m (upsert_scope m s select clear)
unfolding upsert_scope
upsert_scope-IsAtomic m s select clear h = ground (arith, h)

delete_scope-IsAtomic : (m : Model) (id : String) → IsAtomic m (delete_scope m id)
unfolding delete_scope
delete_scope-IsAtomic m id h = ground (arith, h)

select_by_message-IsAtomic : (m : Model) (t : Target) → IsAtomic m (select_by_message m t)
unfolding select_by_message
select_by_message-IsAtomic m t h = ground (arith, h)

set_branches-IsAtomic :
    (m : Model) (run : Option String) (summaries : List Summary)
    → IsAtomic m (set_branches m run summaries)
unfolding set_branches
set_branches-IsAtomic m run summaries h = ground (arith, h)

begin_optimistic-IsAtomic :
    (m : Model) (s : Scope) (o : Operation) (p : Optimistic) → IsAtomic m (begin_optimistic m s o p)
unfolding update_scope
begin_optimistic-IsAtomic m s o p h = ground (arith, h)

begin_operation-IsAtomic : (m : Model) (o : Operation) → IsAtomic m (begin_operation m o)
unfolding begin_operation update_scope
begin_operation-IsAtomic m o h = ground (arith, h)

updated-IsAtomic :
    (m : Model) (id : String) (r : Reduction) (effect : Effect)
    → rejects r ≡ false
    → is_rejection effect ≡ false
    → IsAtomic m (record r { effects = r.effects ++ if_selected r.model id effect })
updated-IsAtomic m id r effect h k =
    accepting-IsAtomic m _ (any-append r.effects _ h (if_selected-accepts r.model id effect k))

projection-accepts :
    (m : Model) (s : Scope) (turns : Option (List View)) (stats : Option Stats)
    → rejects (scoped_event_transcript_projection m s turns stats) ≡ false
unfolding scoped_event_transcript_projection update_scope
projection-accepts m s turns stats = ground arith

accept_reply-accepts :
    (m : Model) (s : Scope) (type : ReplyType) (message : Option String) (stop : Bool)
    → rejects (accept_reply m s type message stop) ≡ false
unfolding accept_reply
accept_reply-accepts m s type message stop = ground arith

-- A message of the host whose effects report a refusal leaves the webview's model as it was, and the
-- refusal is its only effect.
pub reduce_host_message-IsAtomic :
    (m : Model) (message : Message)
    → rejects (reduce_host_message m message) ≡ true
    → ((reduce_host_message m message).model ≡ m)
      × (length (reduce_host_message m message).effects ≡ 1)
unfolding reduce_host_message add_next_turn replace_next_turns accept_stream
reduce_host_message-IsAtomic m (scope_upsert s select clear) =
    upsert_scope-IsAtomic m s select clear
reduce_host_message-IsAtomic m (scope_delete id) = delete_scope-IsAtomic m id
reduce_host_message-IsAtomic m (select_branch t) = select_by_message-IsAtomic m t
reduce_host_message-IsAtomic m (branches run summaries) = set_branches-IsAtomic m run summaries
reduce_host_message-IsAtomic m (operation_pending o) = begin_operation-IsAtomic m o
reduce_host_message-IsAtomic m (operation_result outcome r) =
    with_scope-IsAtomic m r.target (λ s. settle_operation m s outcome r)
      λ s. settle_operation-IsAtomic m s outcome r
reduce_host_message-IsAtomic m (pending_next_turn t turn) =
    with_scope-IsAtomic m t (λ s. add_next_turn m s turn)
      λ s. updated-IsAtomic m s.scope_id _ _ (update_scope-accepts m _ false) refl
reduce_host_message-IsAtomic m (pending_next_turns t turns) =
    with_scope-IsAtomic m t (λ s. replace_next_turns m s turns)
      λ s. updated-IsAtomic m s.scope_id _ _ (update_scope-accepts m _ false) refl
reduce_host_message-IsAtomic m (streamed type t turns stats) =
    with_scope-IsAtomic m t (λ s. accept_stream m s type turns stats)
      λ s. updated-IsAtomic m _ _ _ (projection-accepts m s turns stats) refl
reduce_host_message-IsAtomic m (replied type t message stop) =
    with_scope-IsAtomic m t (λ s. accept_reply m s type message stop)
      λ s. accepting-IsAtomic m _ (accept_reply-accepts m s type message stop)
reduce_host_message-IsAtomic m (status_changed e) =
    with_scope-IsAtomic m e.target (λ s. apply_status m s e)
      λ s. accepting-IsAtomic m _ (apply_status-accepts m s e)
