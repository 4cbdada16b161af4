-- ===== src/ViewRuntime/Silence.antt =====
-- Messages that are not about the selected scope, and the effects that the view does not show.
use labrastro_vscode_extensi.Base.{
  String, Bool, true, subst, sym, false, not, ◌&&◌, Option, none, some, ◌≡◌, refl, arith, inl, inr,
  Option-cases, Bool-cases, any, or_else, List, [], ◌∷◌, ◌++◌, if◌then◌else◌, is_some,
}
use labrastro_vscode_extensi.Base.Dict.{lookup}
use labrastro_vscode_extensi.SessionRuntime.Model.{Outcome, Target, View, Stats}
use labrastro_vscode_extensi.SessionRuntime.Operations.{same_kind}
use labrastro_vscode_extensi.ViewRuntime.Model.{
  Operation, Scope, Model, Result, StreamType, ReplyType, StatusMessage, Effect, message_rejected,
  scope_updated, scope_deleted, operation_settled, events_accepted, Reduction, Message,
  scope_upsert, scope_delete, select_branch, branches, operation_pending, status_changed,
  pending_next_turn, pending_next_turns, streamed, replied, operation_result,
}
use labrastro_vscode_extensi.ViewRuntime.Visible.{
  resolve_message_scope, update_scope, refresh_visible, put_scope, is_selected,
}
use labrastro_vscode_extensi.ViewRuntime.Operations.{
  begin_operation, settle_found, settle_operation, conflicts, without_operation,
}
use labrastro_vscode_extensi.ViewRuntime.Reducer.{
  upsert_scope, delete_scope, add_next_turn, replace_next_turns, scoped_event_transcript_projection,
  accept_stream, accept_reply, apply_status, with_scope, reduce_host_message, same_status,
  with_status, status_for_message, with_projection,
}
use labrastro_vscode_extensi.ViewRuntime.Invariant.Messages.{update_scope-lookup}
use labrastro_vscode_extensi.ViewRuntime.Invariant.{
  IsValid, lookup-keyed, resolve_message_scope_sound,
}

-- The effects that the view does not show.
abbrev pub is_silent : Effect → Bool
is_silent (message_rejected _) = true
is_silent (scope_updated _) = true
is_silent (scope_deleted _) = true
is_silent (operation_settled _ _) = true
is_silent _ = false

abbrev pub speaks : Reduction → Bool
speaks r = any (λ x. not (is_silent x)) r.effects

abbrev pub IsUnselected : Model → Option Scope → Type 0
IsUnselected m none = Unit {0}
IsUnselected m (some s) = is_selected m s.scope_id ≡ false

-- The scope of the target is not the selected one: it is not there, or it is not selected.
abbrev pub IsElsewhere : Model → Target → Type 0
IsElsewhere m t = IsUnselected m (resolve_message_scope m t)

-- The message is not about the selected scope. It selects nothing either: it is no selection, an
-- upsert in it does not select its scope, and a pending operation in it has no optimistic projection.
-- The summaries of the branches are of the selected run, so they are not in the background.
abbrev pub IsBackground : Model → Message → Type 0
IsBackground m (scope_upsert s select clear) = (select ≡ false) × (is_selected m s.scope_id ≡ false)
IsBackground m (scope_delete id) = is_selected m id ≡ false
IsBackground m (select_branch t) = ⊥
IsBackground m (branches run summaries) = ⊥
IsBackground m (operation_pending o) =
    (o.optimistic_projection ≡ none) × (is_selected m o.scope_id ≡ false)
IsBackground m (status_changed e) = IsElsewhere m e.target
IsBackground m (pending_next_turn t turn) = IsElsewhere m t
IsBackground m (pending_next_turns t turns) = IsElsewhere m t
IsBackground m (streamed type t turns stats) = IsElsewhere m t
IsBackground m (replied type t text stop) = IsElsewhere m t
IsBackground m (operation_result outcome r) = IsElsewhere m r.target

pub update_scope-unselected :
    (m : Model) (s : Scope) (b : Bool)
    → is_selected m s.scope_id ≡ false
    → is_selected (update_scope m s b).model s.scope_id ≡ false
unfolding update_scope refresh_visible put_scope
update_scope-unselected m s b h = ground (arith, h)

update_scope-quiet :
    (m : Model) (s : Scope) (b : Bool)
    → is_selected m s.scope_id ≡ false
    → speaks (update_scope m s b) ≡ false
unfolding update_scope
update_scope-quiet m s b h =
    let kept : is_selected (refresh_visible (put_scope m s) s.scope_id) s.scope_id ≡ false =
      update_scope-unselected m s b h in
    ground (arith, h, kept)

-- Effects that are added for the selected scope alone are not added.
quiet-if :
    (b : Bool) (xs ys : List Effect)
    → any (λ x. not (is_silent x)) xs ≡ false
    → b ≡ false
    → any (λ x. not (is_silent x)) (xs ++ (if b then ys else [])) ≡ false
quiet-if b [] ys k h = ground (arith, h)
quiet-if b (x ∷ xs) ys k h = ground (arith, h, k, quiet-if b xs ys _ h)

settle_found-quiet :
    (m : Model) (s : Scope) (o : Operation) (outcome : Outcome) (r : Result)
    → is_selected m s.scope_id ≡ false
    → speaks (settle_found m s o outcome r) ≡ false
unfolding settle_found
settle_found-quiet m s o outcome r h =
    ground (arith, update_scope-unselected m (without_operation s r.operation_id) true h)

settle_operation-quiet :
    (m : Model) (s : Scope) (outcome : Outcome) (r : Result)
    → is_selected m s.scope_id ≡ false
    → speaks (settle_operation m s outcome r) ≡ false
unfolding settle_operation
settle_operation-quiet m s outcome r h =
    elim (Option-cases (lookup r.operation_id s.operations_by_id)) [
      | inl e ↦ rw (e, settle_operation) refl
      | inr (o, e) ↦ elim (Bool-cases (not (same_kind o.kind r.kind))) [
        | inl k ↦ rw (e, k, settle_operation) refl
        | inr k ↦
            elim (Bool-cases (conflicts o.target_branch_binding_id r.target.branch_binding_id)) [
              | inl c ↦ rw (e, k, c, settle_operation) refl
              | inr c ↦ rw (e, k, c, settle_operation) (settle_found-quiet m s o outcome r h)
            ]
      ]
    ]

-- So are those that follow an update of the scope.
updated-quiet :
    (m : Model) (s : Scope) (b : Bool) (ys : List Effect)
    → is_selected m s.scope_id ≡ false
    → any
        (λ x. not (is_silent x))
        ((update_scope m s b).effects
          ++ (if is_selected (update_scope m s b).model s.scope_id then ys else []))
      ≡ false
updated-quiet m s b ys h =
    quiet-if (is_selected (update_scope m s b).model s.scope_id) (update_scope m s b).effects ys
      (update_scope-quiet m s b h) (update_scope-unselected m s b h)

-- The scope that is projected has the id of the one that was found.
projected-eq :
    (m : Model) (s : Scope) (turns : Option (List View)) (stats : Option Stats)
    → lookup s.scope_id m.scopes ≡ some s
    → (or_else
        (lookup s.scope_id (scoped_event_transcript_projection m s turns stats).model.scopes)
        s).scope_id
      ≡ s.scope_id
unfolding scoped_event_transcript_projection
projected-eq m s turns stats l =
    let s2 = with_projection s turns stats in
    elim (Bool-cases (not (is_some turns) && not (is_some stats))) [
      | inl h ↦ rw (h, scoped_event_transcript_projection) (ground (arith, l))
      | inr h ↦
          rw (h, scoped_event_transcript_projection)
            (ground (arith, update_scope-lookup m s2 false))
    ]

accept_stream-quiet :
    (m : Model) (s : Scope) (type : StreamType) (turns : Option (List View)) (stats : Option Stats)
    → lookup s.scope_id m.scopes ≡ some s
    → is_selected m s.scope_id ≡ false
    → speaks (accept_stream m s type turns stats) ≡ false
unfolding accept_stream scoped_event_transcript_projection
accept_stream-quiet m s type turns stats l h =
    let r = scoped_event_transcript_projection m s turns stats in
    let id = (or_else (lookup s.scope_id r.model.scopes) s).scope_id in
    let q = projected-eq m s turns stats l in
    quiet-if (is_selected r.model id) r.effects (events_accepted type id ∷ [])
      (ground (arith, update_scope-quiet m (with_projection s turns stats) false h))
      (ground (arith, q, h, update_scope-unselected m (with_projection s turns stats) false h))

accept_reply-quiet :
    (m : Model) (s : Scope) (type : ReplyType) (message : Option String) (stop : Bool)
    → lookup s.scope_id m.scopes ≡ some s
    → is_selected m s.scope_id ≡ false
    → speaks (accept_reply m s type message stop) ≡ false
unfolding accept_reply
accept_reply-quiet m s type message stop l h = ground (arith, l, h)

apply_status-quiet :
    (m : Model) (s : Scope) (e : StatusMessage)
    → is_selected m s.scope_id ≡ false
    → speaks (apply_status m s e) ≡ false
unfolding apply_status
apply_status-quiet m s e h =
    elim (Bool-cases (any (λ x. same_status x s.status) e.skip_when_status)) [
      | inl k ↦ rw (k, apply_status) refl
      | inr k ↦
          rw (k, apply_status)
            (updated-quiet m (with_status s e (or_else e.status (status_for_message e.type))) _ _ h)
    ]

with_scope-quiet :
    (m : Model) (t : Target) (body : Scope → Reduction)
    → IsValid m
    → IsElsewhere m t
    → ((s : Scope)
        → lookup s.scope_id m.scopes ≡ some s
        → is_selected m s.scope_id ≡ false
        → speaks (body s) ≡ false)
    → speaks (with_scope m t body) ≡ false
unfolding with_scope
with_scope-quiet m t body v h k = elim (Option-cases (resolve_message_scope m t)) [
  | inl e ↦ rw (e, with_scope) refl
  | inr (s, e) ↦
      let (id, _, l, _) = resolve_message_scope_sound m t s e in
      let found = subst (λ i. lookup i m.scopes ≡ some s) (sym (lookup-keyed id s v l).keyed) l in
      let apart : is_selected m s.scope_id ≡ false = subst (IsUnselected m) e h in
      rw (e, with_scope) (k s found apart)
]

upsert_scope-quiet :
    (m : Model) (s : Scope) (clear : Bool)
    → is_selected m s.scope_id ≡ false
    → speaks (upsert_scope m s false clear) ≡ false
unfolding upsert_scope update_scope
upsert_scope-quiet m s false h = ground (arith, h)
upsert_scope-quiet m s true h =
    let t : Scope = record s { pending_next_turns = [] } in
    let kept : is_selected (refresh_visible (put_scope m t) t.scope_id) t.scope_id ≡ false =
      update_scope-unselected m t false h in
    ground (arith, h, kept)

delete_scope-quiet : (m : Model) (id : String) → speaks (delete_scope m id) ≡ false
unfolding delete_scope
delete_scope-quiet m id = ground arith

begin_operation-quiet :
    (m : Model) (o : Operation)
    → o.optimistic_projection ≡ none
    → speaks (begin_operation m o) ≡ false
unfolding begin_operation update_scope
begin_operation-quiet m o h = ground (arith, h)

-- A message that is not about the selected scope shows nothing: its effects are none but the update
-- and the deletion of a scope, the settlement of an operation, and a refusal.
pub reduce_host_message-background :
    (m : Model) (message : Message)
    → IsValid m
    → IsBackground m message
    → speaks (reduce_host_message m message) ≡ false
unfolding reduce_host_message add_next_turn replace_next_turns
reduce_host_message-background m (scope_upsert s select clear) v (no_select, h) =
    rw no_select (upsert_scope-quiet m s clear h)
reduce_host_message-background m (scope_delete id) v h = delete_scope-quiet m id
reduce_host_message-background m (select_branch t) v h = absurd h
reduce_host_message-background m (branches run summaries) v h = absurd h
reduce_host_message-background m (operation_pending o) v (plain, h) =
    begin_operation-quiet m o plain
reduce_host_message-background m (status_changed x) v h =
    with_scope-quiet m x.target (λ k. apply_status m k x) v h
      λ s _ apart. apply_status-quiet m s x apart
reduce_host_message-background m (pending_next_turn u turn) v h =
    with_scope-quiet m u (λ k. add_next_turn m k turn) v h
      λ s _ apart. updated-quiet m _ false _ apart
reduce_host_message-background m (pending_next_turns u turns) v h =
    with_scope-quiet m u (λ k. replace_next_turns m k turns) v h
      λ s _ apart. updated-quiet m _ false _ apart
reduce_host_message-background m (streamed type u turns stats) v h =
    with_scope-quiet m u (λ k. accept_stream m k type turns stats) v h
      λ s found apart. accept_stream-quiet m s type turns stats found apart
reduce_host_message-background m (replied type u text stop) v h =
    with_scope-quiet m u (λ k. accept_reply m k type text stop) v h
      λ s found apart. accept_reply-quiet m s type text stop found apart
reduce_host_message-background m (operation_result outcome r) v h =
    with_scope-quiet m r.target (λ k. settle_operation m k outcome r) v h
      λ s _ apart. settle_operation-quiet m s outcome r apart
