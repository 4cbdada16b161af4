-- ===== src/ViewRuntime/Projections.antt =====
-- A projection that an effect carries is that of the model after the message.
pub mod Messages
use labrastro_vscode_extensi.Base.{
  String, Bool, true, false, not, ◌&&◌, ◌||◌, Option, none, some, ◌≡◌, refl, arith, inl, inr,
  Option-cases, Bool-cases, any, List, [], ◌∷◌, ◌++◌, if◌then◌else◌, is_some, or_else, subst, sym,
  ap, given, holds_text, ◌==◌,
}
use labrastro_vscode_extensi.Base.Dict.{lookup}
use labrastro_vscode_extensi.SessionRuntime.Model.{Outcome, Target, View, Stats, Status}
use labrastro_vscode_extensi.SessionRuntime.Resolve.{is_branch_create, scope_target}
use labrastro_vscode_extensi.SessionRuntime.Operations.{is_failure, same_kind}
use labrastro_vscode_extensi.ViewRuntime.Model.{
  Optimistic, Operation, Scope, Projection, Model, Result, StreamType, ReplyType, StatusMessage,
  Summary, ViewEffect, Effect, projection_updated, scope_deleted, next_turns_replaced,
  next_turn_added, events_accepted, Reduction, Message, scope_upsert, scope_delete, select_branch,
  status_changed, branches, pending_next_turn, pending_next_turns, streamed, replied,
  operation_pending, operation_result,
}
use labrastro_vscode_extensi.ViewRuntime.Visible.{
  resolve_message_scope, update_scope, is_selected, selected_session_run_id,
  scope_agent_run_conflicts, put_scope, refresh_visible, select_session_runtime_scope,
}
use labrastro_vscode_extensi.ViewRuntime.Operations.{
  branch_create_operation_has_source_scope, begin_operation, begin_optimistic, settle_found,
  settle_operation, settle_rollback, conflicts, rollback_scoped_branch_create_operation,
  selected_scope_operation_error_effects, without_operation,
}
use labrastro_vscode_extensi.ViewRuntime.Reducer.{
  upsert_scope, delete_scope, select_by_message, set_branches, add_next_turn, replace_next_turns,
  scoped_event_transcript_projection, with_projection, accept_stream, accept_reply, apply_status,
  with_scope, reduce_host_message, visible_view_effects, view_effects_for, error_notice_for,
  if_selected, same_status, with_status, status_for_message, is_terminal_effect,
}

-- The projections among the effects.
abbrev pub projections : List Effect → List Projection
projections [] = []
projections (projection_updated p ∷ xs) = p ∷ projections xs
projections (_ ∷ xs) = projections xs

abbrev pub AllAre : Projection → List Projection → Type 0
AllAre p [] = Unit {0}
AllAre p (q ∷ qs) = (q ≡ p) × AllAre p qs

-- Every projection among the effects is the visible one of the model.
abbrev pub IsCurrent : Reduction → Type 0
IsCurrent r = AllAre r.model.visible (projections r.effects)

pub update_scope-IsCurrent : (m : Model) (s : Scope) (b : Bool) → IsCurrent (update_scope m s b)
unfolding update_scope
update_scope-IsCurrent m s b =
    elim (Bool-cases (b && is_selected (update_scope m s b).model s.scope_id)) [
      | inl h ↦ rw (h, update_scope) (refl, tt)
      | inr h ↦ rw (h, update_scope) tt
    ]

abbrev pub is_projection : Effect → Bool
is_projection (projection_updated _) = true
is_projection _ = false

pub without :
    (p : Projection) (ys : List Effect) → any is_projection ys ≡ false → AllAre p (projections ys)
without p [] h = tt
without p (projection_updated q ∷ ys) h = absurd (cc)
without p (y ∷ ys) h = without p ys h

-- Effects without a projection may follow.
pub followed :
    (p : Projection) (xs ys : List Effect)
    → AllAre p (projections xs)
    → any is_projection ys ≡ false
    → AllAre p (projections (xs ++ ys))
followed p [] ys a h = without p ys h
followed p (projection_updated q ∷ xs) ys (e, a) h = (e, followed p xs ys a h)
followed p (x ∷ xs) ys a h = followed p xs ys a h

-- A list that is added under a test, and has no projection.
optional :
    (p : Projection) (b : Bool)
    → AllAre p (projections (if b then next_turns_replaced [] ∷ [] else []))
optional p true = tt
optional p false = tt

pub upsert_scope-IsCurrent :
    (m : Model) (s : Scope) (select clear : Bool) → IsCurrent (upsert_scope m s select clear)
unfolding upsert_scope
upsert_scope-IsCurrent m s select clear =
    let t : Scope = if clear then record s { pending_next_turns = [] } else s in
    let next = put_scope m t in
    elim (Bool-cases (scope_agent_run_conflicts (lookup t.scope_id m.scopes) t)) [
      | inl e ↦ rw (e, upsert_scope) tt
      | inr e ↦ elim (Bool-cases select) [
        | inl k ↦
            rw (e, k, upsert_scope)
              (
                refl,
                optional _ (
                    clear
                    && is_selected (select_session_runtime_scope next (scope_target t.scope_id))
                        t.scope_id),
              )
        | inr k ↦
            rw (e, k, upsert_scope)
              (optional _ (clear && is_selected (refresh_visible next t.scope_id) t.scope_id))
      ]
    ]

pub delete_scope-IsCurrent : (m : Model) (id : String) → IsCurrent (delete_scope m id)
unfolding delete_scope
delete_scope-IsCurrent m id = elim (Option-cases (lookup id m.scopes)) [
  | inl e ↦ rw (e, delete_scope) tt
  | inr (s, e) ↦ elim (Bool-cases (is_selected m id)) [
    | inl k ↦ rw (e, k, delete_scope) tt
    | inr k ↦ rw (e, k, delete_scope) tt
  ]
]

pub select_by_message-IsCurrent : (m : Model) (t : Target) → IsCurrent (select_by_message m t)
unfolding select_by_message
select_by_message-IsCurrent m t = elim (Option-cases (resolve_message_scope m t)) [
  | inl e ↦ rw (e, select_by_message) tt
  | inr (s, e) ↦ elim (Option-cases (resolve_message_scope m (scope_target s.scope_id))) [
    | inl k ↦ rw (e, k, select_by_message) tt
    | inr (_, k) ↦ rw (e, k, select_by_message) (refl, tt)
  ]
]

pub set_branches-IsCurrent :
    (m : Model) (run : Option String) (summaries : List Summary)
    → IsCurrent (set_branches m run summaries)
unfolding set_branches
set_branches-IsCurrent m run summaries = elim (Option-cases (given run)) [
  | inl e ↦ rw (e, set_branches) tt
  | inr (id, e) ↦ elim (Bool-cases (holds_text (selected_session_run_id m) id)) [
    | inl k ↦ rw (e, k, set_branches) (refl, tt)
    | inr k ↦ rw (e, k, set_branches) tt
  ]
]

pub begin_operation-IsCurrent : (m : Model) (o : Operation) → IsCurrent (begin_operation m o)
unfolding begin_operation update_scope
begin_operation-IsCurrent m o = elim (Option-cases (lookup o.scope_id m.scopes)) [
  | inl e ↦ rw (e, begin_operation) tt
  | inr (s, e) ↦ elim (Bool-cases (branch_create_operation_has_source_scope m s o)) [
    | inr h ↦ rw (e, h, begin_operation) tt
    | inl h ↦ elim (Option-cases o.optimistic_projection) [
      | inl n ↦ rw (e, h, n, begin_operation) tt
      | inr (p, n) ↦ elim (Bool-cases (p.branch_binding_id == s.branch_binding_id)) [
        | inr b ↦ rw (e, h, n, b, begin_operation) tt
        | inl b ↦ rw (e, h, n, b, begin_operation) (refl, tt)
      ]
    ]
  ]
]

error_effects-none :
    (o : Operation) (id : String) (message : Option String) (a b : Bool)
    → any is_projection (selected_scope_operation_error_effects o id message a b) ≡ false
unfolding selected_scope_operation_error_effects
error_effects-none o id message a b = ground arith

ended :
    (p : Projection) (id : String) (d r : Bool) (xs : List Effect)
    → any is_projection xs ≡ false
    → AllAre p (
        projections (
          (if d then scope_deleted id ∷ [] else [])
          ++ ((if r then projection_updated p ∷ [] else []) ++ xs)))
ended p id true true xs h = (refl, without p xs h)
ended p id true false xs h = without p xs h
ended p id false true xs h = (refl, without p xs h)
ended p id false false xs h = without p xs h

settle_rollback-IsCurrent :
    (m : Model) (s : Scope) (o : Operation) (r : Result) → IsCurrent (settle_rollback m s o r)
settle_rollback-IsCurrent m s o r =
    let c = rollback_scoped_branch_create_operation m s o in
    ended c.model.visible s.scope_id c.deleted c.rolled_back
      (selected_scope_operation_error_effects o s.scope_id r.message c.rolled_back c.rolled_back)
      (error_effects-none o s.scope_id r.message c.rolled_back c.rolled_back)

settle_found-IsCurrent :
    (m : Model) (s : Scope) (o : Operation) (outcome : Outcome) (r : Result)
    → IsCurrent (settle_found m s o outcome r)
unfolding settle_found
settle_found-IsCurrent m s o outcome r =
    let settled = (update_scope m (without_operation s r.operation_id) true).model in
    elim (Bool-cases (not (is_failure outcome && (o.visible && is_selected settled s.scope_id)))) [
      | inl e ↦ rw (e, settle_found) tt
      | inr e ↦ elim (Bool-cases r.is_info) [
        | inl i ↦ rw (e, i, settle_found) tt
        | inr i ↦ elim (Bool-cases (is_branch_create o.kind && is_some o.rollback)) [
          | inl b ↦ rw (e, i, b, settle_found) (settle_rollback-IsCurrent settled s o r)
          | inr b ↦
              rw (e, i, b, settle_found)
                (without settled.visible
                  (selected_scope_operation_error_effects o s.scope_id r.message true true)
                  (error_effects-none o s.scope_id r.message true true))
        ]
      ]
    ]

pub settle_operation-IsCurrent :
    (m : Model) (s : Scope) (outcome : Outcome) (r : Result)
    → IsCurrent (settle_operation m s outcome r)
unfolding settle_operation
settle_operation-IsCurrent m s outcome r =
    elim (Option-cases (lookup r.operation_id s.operations_by_id)) [
      | inl e ↦ rw (e, settle_operation) tt
      | inr (o, e) ↦ elim (Bool-cases (not (same_kind o.kind r.kind))) [
        | inl k ↦ rw (e, k, settle_operation) tt
        | inr k ↦
            elim (Bool-cases (conflicts o.target_branch_binding_id r.target.branch_binding_id)) [
              | inl c ↦ rw (e, k, c, settle_operation) tt
              | inr c ↦ rw (e, k, c, settle_operation) (settle_found-IsCurrent m s o outcome r)
            ]
      ]
    ]
