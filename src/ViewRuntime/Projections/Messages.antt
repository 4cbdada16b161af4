-- ===== src/ViewRuntime/Projections/Messages.antt =====
-- Every message of the host sends current projections only.
use labrastro_vscode_extensi.Base.{
  String, Bool, true, false, not, ◌&&◌, Option, none, some, ◌≡◌, refl, arith, inl, inr,
  Option-cases, Bool-cases, any, List, [], ◌∷◌, ◌++◌, if◌then◌else◌, is_some, or_else,
}
use labrastro_vscode_extensi.Base.Dict.{lookup}
use labrastro_vscode_extensi.SessionRuntime.Model.{Target, View, Stats, Status}
use labrastro_vscode_extensi.ViewRuntime.Model.{
  Scope, Model, StreamType, ReplyType, StatusMessage, ViewEffect, Effect, next_turns_replaced,
  next_turn_added, events_accepted, Reduction, Message, scope_upsert, scope_delete, select_branch,
  status_changed, branches, pending_next_turn, pending_next_turns, streamed, replied,
  operation_pending, operation_result,
}
use labrastro_vscode_extensi.ViewRuntime.Visible.{resolve_message_scope, update_scope, is_selected}
use labrastro_vscode_extensi.ViewRuntime.Operations.{settle_operation}
use labrastro_vscode_extensi.ViewRuntime.Reducer.{
  add_next_turn, replace_next_turns, scoped_event_transcript_projection, with_projection,
  accept_stream, accept_reply, apply_status, with_scope, reduce_host_message, visible_view_effects,
  view_effects_for, error_notice_for, if_selected, same_status, with_status, status_for_message,
  is_terminal_effect,
}
use labrastro_vscode_extensi.ViewRuntime.Projections.{
  projections, AllAre, IsCurrent, is_projection, update_scope-IsCurrent, without, followed,
  upsert_scope-IsCurrent, delete_scope-IsCurrent, select_by_message-IsCurrent,
  set_branches-IsCurrent, begin_operation-IsCurrent, settle_operation-IsCurrent,
}

-- An update of a scope, followed by effects for the selected scope.
updated-IsCurrent :
    (m : Model) (s : Scope) (b c : Bool) (ys : List Effect)
    → any is_projection ys ≡ false
    → AllAre
        (update_scope m s b).model.visible
        (projections ((update_scope m s b).effects ++ (if c then ys else [])))
updated-IsCurrent m s b true ys h =
    followed _ (update_scope m s b).effects ys (update_scope-IsCurrent m s b) h
updated-IsCurrent m s b false ys h =
    followed _ (update_scope m s b).effects [] (update_scope-IsCurrent m s b) refl

if_selected-none :
    (m : Model) (id : String) (effect : Effect)
    → is_projection effect ≡ false
    → any is_projection (if_selected m id effect) ≡ false
if_selected-none m id effect h = ground (arith, h)

accept_stream-IsCurrent :
    (m : Model) (s : Scope) (type : StreamType) (turns : Option (List View)) (stats : Option Stats)
    → IsCurrent (accept_stream m s type turns stats)
unfolding accept_stream scoped_event_transcript_projection
accept_stream-IsCurrent m s type turns stats =
    let r = scoped_event_transcript_projection m s turns stats in
    let id = (or_else (lookup s.scope_id r.model.scopes) s).scope_id in
    followed r.model.visible r.effects (if_selected r.model id (events_accepted type id))
      (elim (Bool-cases (not (is_some turns) && not (is_some stats))) [
        | inl h ↦ rw (h, scoped_event_transcript_projection) tt
        | inr h ↦
            rw (h, scoped_event_transcript_projection)
              (update_scope-IsCurrent m (with_projection s turns stats) false)
      ])
      (if_selected-none r.model id (events_accepted type id) refl)

accept_reply-none :
    (m : Model) (s : Scope) (type : ReplyType) (message : Option String) (stop : Bool)
    → any is_projection (accept_reply m s type message stop).effects ≡ false
unfolding accept_reply
accept_reply-none m s type message stop = ground arith

any-append :
    (xs ys : List Effect)
    → any is_projection xs ≡ false
    → any is_projection ys ≡ false
    → any is_projection (xs ++ ys) ≡ false
any-append [] ys p q = q
any-append (x ∷ xs) ys p q = ground (arith, p, any-append xs ys _ q)

visible_view_effects-none :
    (effect : ViewEffect) (status : Status)
    → any is_projection (visible_view_effects effect status) ≡ false
unfolding visible_view_effects
visible_view_effects-none (ViewEffect.running text none) status = refl
visible_view_effects-none (ViewEffect.running text (some t)) status = refl
visible_view_effects-none (ViewEffect.stopping text) status = refl
visible_view_effects-none ViewEffect.error status = refl
visible_view_effects-none (ViewEffect.terminal (some t) next) status = refl
visible_view_effects-none (ViewEffect.terminal none next) status = ground arith

status_effects-none :
    (e : StatusMessage) (status : Status) (id : String)
    → any is_projection (view_effects_for e status ++ error_notice_for e id) ≡ false
status_effects-none e status id =
    any-append (view_effects_for e status) (error_notice_for e id)
      (elim (Option-cases e.view_effect) [
        | inl h ↦ rw h refl
        | inr (effect, h) ↦ rw h (visible_view_effects-none effect status)
      ])
      (ground arith)

apply_status-IsCurrent :
    (m : Model) (s : Scope) (e : StatusMessage) → IsCurrent (apply_status m s e)
unfolding apply_status
apply_status-IsCurrent m s e =
    let status = or_else e.status (status_for_message e.type) in
    elim (Bool-cases (any (λ x. same_status x s.status) e.skip_when_status)) [
      | inl h ↦ rw (h, apply_status) tt
      | inr h ↦
          rw (h, apply_status)
            (updated-IsCurrent m (with_status s e status) (not (is_terminal_effect e.view_effect))
              (is_selected
                (update_scope m (with_status s e status)
                  (not (is_terminal_effect e.view_effect))).model
                s.scope_id)
              (view_effects_for e status ++ error_notice_for e s.scope_id)
              (status_effects-none e status s.scope_id))
    ]

with_scope-IsCurrent :
    (m : Model) (t : Target) (body : Scope → Reduction)
    → ((s : Scope) → IsCurrent (body s))
    → IsCurrent (with_scope m t body)
unfolding with_scope
with_scope-IsCurrent m t body h = elim (Option-cases (resolve_message_scope m t)) [
  | inl e ↦ rw (e, with_scope) tt
  | inr (s, e) ↦ rw (e, with_scope) (h s)
]

-- Every projection that a message of the host sends to the view is the visible projection of the model
-- after the message: the view is never shown a projection that the model does not have.
pub reduce_host_message-IsCurrent :
    (m : Model) (message : Message) → IsCurrent (reduce_host_message m message)
unfolding reduce_host_message add_next_turn replace_next_turns
reduce_host_message-IsCurrent m (scope_upsert s select clear) =
    upsert_scope-IsCurrent m s select clear
reduce_host_message-IsCurrent m (scope_delete id) = delete_scope-IsCurrent m id
reduce_host_message-IsCurrent m (select_branch t) = select_by_message-IsCurrent m t
reduce_host_message-IsCurrent m (branches run summaries) = set_branches-IsCurrent m run summaries
reduce_host_message-IsCurrent m (operation_pending o) = begin_operation-IsCurrent m o
reduce_host_message-IsCurrent m (operation_result outcome r) =
    with_scope-IsCurrent m r.target (λ s. settle_operation m s outcome r)
      λ s. settle_operation-IsCurrent m s outcome r
reduce_host_message-IsCurrent m (pending_next_turn t turn) =
    with_scope-IsCurrent m t (λ s. add_next_turn m s turn)
      λ s.
        let t : Scope = record s { pending_next_turns = s.pending_next_turns ++ turn ∷ [] } in
        updated-IsCurrent m t false (is_selected (update_scope m t false).model s.scope_id)
          (next_turn_added turn ∷ []) refl
reduce_host_message-IsCurrent m (pending_next_turns t turns) =
    with_scope-IsCurrent m t (λ s. replace_next_turns m s turns)
      λ s.
        let t : Scope = record s { pending_next_turns = turns } in
        updated-IsCurrent m t false (is_selected (update_scope m t false).model s.scope_id)
          (next_turns_replaced turns ∷ []) refl
reduce_host_message-IsCurrent m (streamed type t turns stats) =
    with_scope-IsCurrent m t (λ s. accept_stream m s type turns stats)
      λ s. accept_stream-IsCurrent m s type turns stats
reduce_host_message-IsCurrent m (replied type t message stop) =
    with_scope-IsCurrent m t (λ s. accept_reply m s type message stop)
      λ s.
        without _ (accept_reply m s type message stop).effects
          (accept_reply-none m s type message stop)
reduce_host_message-IsCurrent m (status_changed e) =
    with_scope-IsCurrent m e.target (λ s. apply_status m s e) λ s. apply_status-IsCurrent m s e
