-- ===== src/ViewRuntime/Reducer.antt =====
-- `reduceSessionRuntimeHostMessage` of sessionRuntimeReducer.ts of the webview.
use labrastro_vscode_extensi.Base.{
  ℕ, String, Bool, true, false, not, ◌&&◌, Option, none, some, if◌then◌else◌, ◌==◌, or_else, given,
  is_some, holds_text, List, [], ◌∷◌, ◌++◌, map, keep, any, eqb,
}
use labrastro_vscode_extensi.Base.Dict.{lookup, erase}
use labrastro_vscode_extensi.SessionRuntime.Model.{View, Status, Stats, Target, Outcome, failure}
use labrastro_vscode_extensi.SessionRuntime.Model
use labrastro_vscode_extensi.SessionRuntime.Resolve.{scope_id_for, scope_target, has_scope_proof}
use labrastro_vscode_extensi.ViewRuntime.Model.{
  Summary, Scope, Projection, Model, Terminal, ViewEffect, StatusType, is_done, is_stopped,
  is_cancelled, is_error, is_running, is_stopping, is_interrupted, StatusMessage, StreamType,
  ReplyType, approval_error, user_input_error, projection_error, Message, scope_upsert,
  scope_delete, select_branch, status_changed, branches, pending_next_turn, pending_next_turns,
  streamed, replied, operation_pending, operation_result, missing_proof, unknown_scope,
  wrong_operation, NoticeType, approval_notice, user_input_notice, projection_notice, run_notice,
  Effect, message_rejected, scope_updated, scope_deleted, events_accepted, scoped_error_notice,
  projection_updated, projection_error_stopped, next_turn_added, next_turn_consumed,
  next_turns_replaced, shows_running, shows_stopping, shows_error, shows_terminal, Reduction,
}
use labrastro_vscode_extensi.ViewRuntime.Visible.{
  resolve_message_scope, is_selected, selected_session_run_id, stats_run_status,
  select_session_runtime_scope, refresh_visible, put_scope, update_scope, scope_agent_run_conflicts,
}
use labrastro_vscode_extensi.ViewRuntime.Operations.{
  refused, spread_stats, text_or, begin_operation, settle_operation,
}

unfoldable pub upsert_scope : Model → Scope → Bool → Bool → Reduction
upsert_scope m given_scope select clear =
    let s = if clear then record given_scope { pending_next_turns = [] } else given_scope in
    if scope_agent_run_conflicts (lookup s.scope_id m.scopes) s
    then refused m wrong_operation
    else let next = put_scope m s in
      let selected =
        if select
        then select_session_runtime_scope next (scope_target s.scope_id)
        else refresh_visible next s.scope_id in
      record {
        model = selected;
        effects =
            scope_updated s.scope_id
            ∷ ((if select then projection_updated selected.visible ∷ [] else [])
                ++ (if clear && is_selected selected s.scope_id
                    then next_turns_replaced [] ∷ []
                    else []));
      }

unfoldable pub delete_scope : Model → String → Reduction
delete_scope m id = elim (lookup id m.scopes) [
  | none ↦ refused m unknown_scope
  | some _ ↦ if is_selected m id then refused m wrong_operation else record {
    model = record m { scopes = erase id m.scopes };
    effects = scope_deleted id ∷ [];
  }
]

abbrev pub no_scope : Model → Target → Reduction
no_scope m t = refused m (if has_scope_proof t then unknown_scope else missing_proof)

-- The model that the selection returns is the one that it was given exactly when no scope was found.
unfoldable pub select_by_message : Model → Target → Reduction
select_by_message m t = elim (resolve_message_scope m t) [
  | none ↦ no_scope m t
  | some s ↦ elim (resolve_message_scope m (scope_target s.scope_id)) [
    | none ↦ no_scope m t
    | some _ ↦
        let next = select_session_runtime_scope m (scope_target s.scope_id) in
        record { model = next; effects = projection_updated next.visible ∷ [] }
  ]
]

-- One round of the `flatMap`: a branch of this run under its own scope id.
abbrev pub is_branch_of : String → Summary → Bool
is_branch_of run branch =
    branch.session_run_id == run && branch.scope_id == scope_id_for run branch.branch_binding_id

abbrev pub replace_branches : Model → String → List Summary → Reduction
replace_branches m run summaries =
    let visible : Projection = record m.visible {
      branch_summaries =
          map (λ (x : Summary). record x { selected = is_selected m x.scope_id })
            (keep (is_branch_of run) summaries);
    } in
    record { model = record m { visible = visible }; effects = projection_updated visible ∷ [] }

unfoldable pub set_branches : Model → Option String → List Summary → Reduction
set_branches m run summaries = elim (given run) [
  | none ↦ refused m unknown_scope
  | some id ↦
      if holds_text (selected_session_run_id m) id
      then replace_branches m id summaries
      else refused m unknown_scope
]

-- An effect that is added if the scope is selected afterwards.
abbrev pub if_selected : Model → String → Effect → List Effect
if_selected m id effect = if is_selected m id then effect ∷ [] else []

unfoldable pub add_next_turn : Model → Scope → View → Reduction
add_next_turn m s turn =
    let r =
      update_scope m (record s { pending_next_turns = s.pending_next_turns ++ turn ∷ [] }) false in
    record r { effects = r.effects ++ if_selected r.model s.scope_id (next_turn_added turn) }

unfoldable pub replace_next_turns : Model → Scope → List View → Reduction
replace_next_turns m s turns =
    let r = update_scope m (record s { pending_next_turns = turns }) false in
    record r { effects = r.effects ++ if_selected r.model s.scope_id (next_turns_replaced turns) }

-- The scope with the turns and the statistics of the message.
abbrev pub with_projection : Scope → Option (List View) → Option Stats → Scope
with_projection s turns stats = record s {
  turns = or_else turns s.turns;
  stats = elim stats [ none ↦ s.stats | some new ↦ spread_stats s.stats new ];
}

-- `scopedEventTranscriptProjection`, for the two messages that can bring turns and statistics.
unfoldable pub scoped_event_transcript_projection :
    Model → Scope → Option (List View) → Option Stats → Reduction
scoped_event_transcript_projection m s turns stats =
    if not (is_some turns) && not (is_some stats)
    then record { model = m; effects = [] }
    else update_scope m (with_projection s turns stats) false

-- The scope that is projected stands under the id of the one that was found, with the same id.
unfoldable pub accept_stream :
    Model → Scope → StreamType → Option (List View) → Option Stats → Reduction
accept_stream m s type turns stats =
    let r = scoped_event_transcript_projection m s turns stats in
    let projected = or_else (lookup s.scope_id r.model.scopes) s in
    record r {
      effects =
          r.effects
          ++ if_selected r.model projected.scope_id (events_accepted type projected.scope_id);
    }

abbrev pub notice_of : ReplyType → Option NoticeType
notice_of approval_error = some approval_notice
notice_of user_input_error = some user_input_notice
notice_of projection_error = some projection_notice
notice_of _ = none

abbrev pub is_projection_error : ReplyType → Bool
is_projection_error projection_error = true
is_projection_error _ = false

unfoldable pub accept_reply : Model → Scope → ReplyType → Option String → Bool → Reduction
accept_reply m s type message stop_working =
    let id = (or_else (lookup s.scope_id m.scopes) s).scope_id in
    record {
      model = m;
      effects =
          elim (notice_of type) [
            | none ↦ []
            | some notice ↦
                if_selected m id (scoped_error_notice notice id (text_or message "unknown error"))
          ]
          ++ (if is_projection_error type && stop_working
              then if_selected m id (projection_error_stopped id)
              else []);
    }

unfoldable pub status_for_message : StatusType → Status
status_for_message is_done = Model.done
status_for_message is_stopped = Model.done
status_for_message is_cancelled = Model.cancelled
status_for_message is_error = Model.error
status_for_message is_stopping = Model.stopping
status_for_message is_interrupted = Model.interrupted
status_for_message is_running = Model.running

abbrev status_code : Status → ℕ
status_code Model.idle = 0
status_code Model.queued = 1
status_code Model.running = 2
status_code Model.waiting = 3
status_code Model.stopping = 4
status_code Model.cancelled = 5
status_code Model.done = 6
status_code Model.error = 7
status_code Model.interrupted = 8

-- `a === b` of two statuses
abbrev pub same_status : Status → Status → Bool
same_status a b = eqb (status_code a) (status_code b)

unfoldable pub terminal_status_for : Status → Option Terminal
terminal_status_for Model.cancelled = some Terminal.cancelled
terminal_status_for Model.done = some Terminal.done
terminal_status_for Model.error = some Terminal.error
terminal_status_for Model.interrupted = some Terminal.interrupted
terminal_status_for _ = none

unfoldable pub visible_view_effects : ViewEffect → Status → List Effect
visible_view_effects (ViewEffect.running text consume) status =
    shows_running (text_or text "处理中")
    ∷ elim consume [ none ↦ [] | some consumed ↦ next_turn_consumed consumed ∷ [] ]
visible_view_effects (ViewEffect.stopping text) status = shows_stopping (text_or text "正在停止") ∷ []
visible_view_effects ViewEffect.error status = shows_error ∷ []
visible_view_effects (ViewEffect.terminal (some terminal) next) status =
    shows_terminal terminal next ∷ []
visible_view_effects (ViewEffect.terminal none next) status = elim (terminal_status_for status) [
  | none ↦ []
  | some terminal ↦ shows_terminal terminal next ∷ []
]

abbrev pub is_error_type : StatusType → Bool
is_error_type is_error = true
is_error_type _ = false

abbrev pub is_terminal_effect : Option ViewEffect → Bool
is_terminal_effect (some (ViewEffect.terminal _ _)) = true
is_terminal_effect _ = false

abbrev pub with_status : Scope → StatusMessage → Status → Scope
with_status s e status = record s {
  session_id = elim e.session_id [ none ↦ s.session_id | some id ↦ some id ];
  status = status;
  stats = record s.stats { run_status = some (stats_run_status status) };
}

abbrev pub view_effects_for : StatusMessage → Status → List Effect
view_effects_for e status = elim e.view_effect [
  | none ↦ []
  | some effect ↦ visible_view_effects effect status
]

abbrev pub error_notice_for : StatusMessage → String → List Effect
error_notice_for e id = elim (given e.message) [
  | none ↦ []
  | some message ↦
      if is_error_type e.type then scoped_error_notice run_notice id message ∷ [] else []
]

unfoldable pub apply_status : Model → Scope → StatusMessage → Reduction
apply_status m s e =
    if any (λ x. same_status x s.status) e.skip_when_status
    then record { model = m; effects = [] }
    else let status = or_else e.status (status_for_message e.type) in
      let r = update_scope m (with_status s e status) (not (is_terminal_effect e.view_effect)) in
      record r {
        effects =
            r.effects
            ++ (if is_selected r.model s.scope_id
                then view_effects_for e status ++ error_notice_for e s.scope_id
                else []);
      }

-- The messages that name a scope: it has to be found.
unfoldable pub with_scope : Model → Target → (Scope → Reduction) → Reduction
with_scope m t body = elim (resolve_message_scope m t) [ none ↦ no_scope m t | some s ↦ body s ]

unfoldable pub reduce_host_message : Model → Message → Reduction
unfolding with_scope
reduce_host_message m (scope_upsert s select clear) = upsert_scope m s select clear
reduce_host_message m (scope_delete id) = delete_scope m id
reduce_host_message m (select_branch t) = select_by_message m t
reduce_host_message m (branches run summaries) = set_branches m run summaries
reduce_host_message m (operation_pending o) = begin_operation m o
reduce_host_message m (operation_result outcome r) =
    with_scope m r.target λ s. settle_operation m s outcome r
reduce_host_message m (pending_next_turn t turn) = with_scope m t λ s. add_next_turn m s turn
reduce_host_message m (pending_next_turns t turns) =
    with_scope m t λ s. replace_next_turns m s turns
reduce_host_message m (streamed type t turns stats) =
    with_scope m t λ s. accept_stream m s type turns stats
reduce_host_message m (replied type t message stop) =
    with_scope m t λ s. accept_reply m s type message stop
reduce_host_message m (status_changed e) = with_scope m e.target λ s. apply_status m s e

-- `effect.kind === "message.rejected"`
abbrev pub is_rejection : Effect → Bool
is_rejection (message_rejected _) = true
is_rejection _ = false
