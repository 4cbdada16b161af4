-- ===== src/ViewRuntime/Effects.antt =====
-- sessionRuntimeEffects.ts of the webview: the calls that an effect makes on its view target. The view
-- is that of ChatView.tsx, with the setters as assignments; what it hands on to the trace, to the
-- notices and to the prompt queue is kept as the list of those calls.
pub mod Showing
pub mod Timer
pub mod Composition
use labrastro_vscode_extensi.Base.{
  String, Bool, true, false, not, Option, none, some, if◌then◌else◌, or_else, given, List, [], ◌∷◌,
  ◌++◌,
}
use labrastro_vscode_extensi.SessionRuntime.Model.{
  View, Status, queued, running, waiting, stopping, error, Stats,
}
use labrastro_vscode_extensi.SessionRuntime.Model
use labrastro_vscode_extensi.ViewRuntime.Model.{
  Rollback, Restore, Summary, Projection, Terminal, NoticeType, Effect, message_rejected,
  scope_updated, scope_deleted, events_accepted, scoped_error_notice, projection_updated,
  visible_rollback, operation_restore, operation_notice, projection_error_stopped, next_turn_added,
  next_turn_consumed, next_turns_replaced, working_stopped, shows_running, shows_stopping,
  shows_error, shows_terminal, operation_settled,
}

-- The methods of `SessionRuntimeViewTarget` but `hasTimer`; the Boolean of a notice is its level
-- "info".
pub data Call : Type 0 where
  set_selected_branch_binding_id : String → Call
  set_active_session_run_id : Option String → Call
  set_current_run_session_id : String → Call
  set_session_run_status : Status → Call
  set_is_working : Bool → Call
  set_working_text : String → Call
  replace_current_turns : List View → Stats → Call
  patch_stats : Stats → Call
  append_operation_error_notice : String → Bool → Call
  append_scoped_error_notice : String → NoticeType → Call
  enqueue_pending_next_turn : View → Call
  consume_pending_next_turn : String → Call
  replace_pending_next_turns : List View → Call
  set_branch_summaries : List Summary → Call
  finish_session_run : Terminal → Bool → Call
  start_timer stop_timer : Call

abbrev pub start_without : Bool → List Call
start_without has_timer = if not has_timer then start_timer ∷ [] else []

abbrev pub only_status : Status → Stats
only_status status = record { run_status = some status; others = [] }

unfoldable pub operation_restore_calls : Bool → Restore → List Call
operation_restore_calls has_timer restore =
    set_selected_branch_binding_id restore.selected_branch_binding_id
    ∷ set_active_session_run_id restore.active_session_run_id
    ∷ set_current_run_session_id restore.current_run_session_id
    ∷ set_session_run_status restore.session_run_status
    ∷ set_is_working restore.is_working
    ∷ set_working_text restore.working_text
    ∷ patch_stats restore.stats
    ∷ (if restore.is_working then start_without has_timer else stop_timer ∷ [])

unfoldable pub working_stopped_calls : List Call
working_stopped_calls = set_is_working false ∷ set_working_text "" ∷ stop_timer ∷ []

unfoldable pub branch_projection_calls : String → List View → Stats → List Call
branch_projection_calls branch turns stats =
    set_selected_branch_binding_id branch ∷ replace_current_turns turns stats ∷ []

unfoldable pub running_calls : Bool → String → List Call
running_calls has_timer text =
    set_is_working true
    ∷ set_session_run_status running
    ∷ set_working_text text
    ∷ patch_stats (only_status running)
    ∷ start_without has_timer

unfoldable pub stopping_calls : String → List Call
stopping_calls text =
    set_session_run_status stopping
    ∷ set_working_text text
    ∷ patch_stats (only_status stopping)
    ∷ []

unfoldable pub error_calls : List Call
error_calls = set_session_run_status error ∷ patch_stats (only_status error) ∷ []

unfoldable pub normalize_visible_runtime_status : Status → Status
normalize_visible_runtime_status queued = running
normalize_visible_runtime_status waiting = running
normalize_visible_runtime_status status = status

unfoldable pub runtime_state_calls : Bool → Status → List Call
runtime_state_calls has_timer running =
    set_session_run_status running
    ∷ set_is_working true
    ∷ set_working_text "处理中"
    ∷ start_without has_timer
runtime_state_calls has_timer stopping =
    set_session_run_status stopping ∷ set_is_working true ∷ set_working_text "正在停止" ∷ []
runtime_state_calls has_timer status =
    set_session_run_status status ∷ set_is_working false ∷ set_working_text "" ∷ stop_timer ∷ []

unfoldable pub projection_calls : Bool → Projection → List Call
projection_calls has_timer p =
    set_selected_branch_binding_id p.selected_branch_binding_id
    ∷ set_active_session_run_id p.selected_session_run_id
    ∷ (elim (given p.selected_session_id) [
      | none ↦ []
      | some id ↦ set_current_run_session_id id ∷ []
    ]
        ++ (runtime_state_calls has_timer
              (normalize_visible_runtime_status p.selected_runtime_status)
            ++ set_branch_summaries p.branch_summaries
              ∷ replace_current_turns p.selected_transcript p.selected_stats
              ∷ []))

-- The calls of one effect on a target that has a timer or has none.
unfoldable pub calls_for : Bool → Effect → List Call
calls_for has_timer (projection_updated p) = projection_calls has_timer p
calls_for has_timer (visible_rollback _ _ r) =
    branch_projection_calls r.source_branch_binding_id r.turns r.stats
calls_for has_timer (operation_restore _ _ restore) = operation_restore_calls has_timer restore
calls_for has_timer (operation_notice _ _ message info) =
    append_operation_error_notice message info ∷ []
calls_for has_timer (projection_error_stopped _) = working_stopped_calls
calls_for has_timer (scoped_error_notice type _ message) =
    append_scoped_error_notice message type ∷ []
calls_for has_timer (next_turn_added turn) = enqueue_pending_next_turn turn ∷ []
calls_for has_timer (next_turn_consumed text) = consume_pending_next_turn text ∷ []
calls_for has_timer (next_turns_replaced turns) = replace_pending_next_turns turns ∷ []
calls_for has_timer (working_stopped _ _) = working_stopped_calls
calls_for has_timer (shows_running text) = running_calls has_timer text
calls_for has_timer (shows_stopping text) = stopping_calls text
calls_for has_timer shows_error = error_calls
calls_for has_timer (shows_terminal status next) = finish_session_run status next ∷ []
calls_for has_timer _ = []

-- `handed_on` holds the latest call first; `timer` tells if there is a timer.
pub record ViewState : Type 0 where
  pub selected_branch_binding_id : String
  pub active_session_run_id : Option String
  pub current_run_session_id : String
  pub trace_session_id : String
  pub session_run_status : Status
  pub is_working : Bool
  pub working_text : String
  pub branch_summaries : List Summary
  pub timer : Bool
  pub working_elapsed : String
  pub handed_on : List Call

abbrev pub status_of_terminal : Terminal → Status
status_of_terminal Terminal.cancelled = Model.cancelled
status_of_terminal Terminal.done = Model.done
status_of_terminal Terminal.error = Model.error
status_of_terminal Terminal.interrupted = Model.interrupted

-- `finishSessionRun`: the fields of the view. The call is handed on too, since the run's end also
-- settles messages, facts and interactions.
unfoldable pub finish : ViewState → Terminal → Bool → ViewState
finish v status next = record v {
  is_working = false;
  current_run_session_id =
      or_else (given (some v.current_run_session_id))
        (or_else (given (some v.trace_session_id)) v.current_run_session_id);
  session_run_status = status_of_terminal status;
  timer = false;
  handed_on = finish_session_run status next ∷ v.handed_on;
}

unfoldable pub perform : ViewState → Call → ViewState
perform v (set_selected_branch_binding_id id) = record v { selected_branch_binding_id = id }
perform v (set_active_session_run_id id) = record v { active_session_run_id = id }
perform v (set_current_run_session_id id) = record v { current_run_session_id = id }
perform v (set_session_run_status status) = record v { session_run_status = status }
perform v (set_is_working working) = record v { is_working = working }
perform v (set_working_text text) = record v { working_text = text }
perform v (set_branch_summaries summaries) = record v { branch_summaries = summaries }
perform v (finish_session_run status next) = finish v status next
perform v start_timer = record v { timer = true; working_elapsed = "0:00" }
perform v stop_timer = record v { timer = false }
perform v call = record v { handed_on = call ∷ v.handed_on }

unfoldable pub perform_all : ViewState → List Call → ViewState
perform_all v [] = v
perform_all v (call ∷ calls) = perform_all (perform v call) calls

-- `applySessionRuntimeEffectsToView`: no effect starts or stops the timer before it asks for it.
unfoldable pub apply_effects : ViewState → List Effect → ViewState
apply_effects v [] = v
apply_effects v (effect ∷ effects) =
    apply_effects (perform_all v (calls_for v.timer effect)) effects
