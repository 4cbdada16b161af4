-- ===== src/ViewRuntime/Model.antt =====
-- sessionRuntimeModel.ts: the state, the messages and the effects. Turns and the parts of statistics
-- that the reducer does not read are JSON objects. Statuses, kinds and targets are those of the host.
use labrastro_vscode_extensi.Base.{ℕ, String, Bool, Option, List}
use labrastro_vscode_extensi.Base.Dict.{Dict}
use labrastro_vscode_extensi.SessionRuntime.Model.{View, Status, Kind, Stats, Target, Outcome}

-- The kind of an optimistic projection, of a rollback and of a restore is a constant.
pub record Optimistic : Type 0 where
  pub branch_binding_id : String
  pub turns : List View
  pub stats : Stats

pub record Rollback : Type 0 where
  pub source_branch_binding_id : String
  pub turns : List View
  pub stats : Stats

pub record Restore : Type 0 where
  pub selected_branch_binding_id : String
  pub current_run_session_id : String
  pub session_run_status : Status
  pub is_working : Bool
  pub working_text : String
  pub stats : Stats
  pub active_session_run_id : Option String

pub record Operation : Type 0 where
  pub operation_id : String
  pub kind : Kind
  pub created_at : Option ℕ
  pub scope_id : String
  pub source_branch_binding_id : Option String
  pub target_branch_binding_id : Option String
  pub visible : Bool
  pub optimistic_projection : Option Optimistic
  pub rollback : Option Rollback
  pub restore : Option Restore

-- `others` holds the optional fields that are passed on unread.
pub record Summary : Type 0 where
  pub scope_id : String
  pub session_run_id : String
  pub branch_binding_id : String
  pub agent_run_id : Option String
  pub base_session_item_id : String
  pub selected : Bool
  pub status : Status
  pub current_index : ℕ
  pub total_sibling_count : ℕ
  pub others : View

pub record Scope : Type 0 where
  pub scope_id : String
  pub session_run_id : String
  pub branch_binding_id : String
  pub session_id : Option String
  pub agent_run_id : Option String
  pub status : Status
  pub turns : List View
  pub stats : Stats
  pub pending_next_turns : List View
  pub operations_by_id : Dict Operation

pub record Projection : Type 0 where
  pub selected_scope_id : Option String
  pub selected_session_run_id : Option String
  pub selected_session_id : Option String
  pub selected_branch_binding_id : String
  pub selected_transcript : List View
  pub selected_stats : Stats
  pub selected_runtime_status : Status
  pub branch_summaries : List Summary

pub record Model : Type 0 where
  pub scopes : Dict Scope
  pub visible : Projection

-- `"cancelled" | "done" | "error" | "interrupted"`
pub data Terminal : Type 0 where
  cancelled done error interrupted : Terminal

pub data ViewEffect : Type 0 where
  running : Option String → Option String → ViewEffect
  stopping : Option String → ViewEffect
  error : ViewEffect
  terminal : Option Terminal → Bool → ViewEffect

pub data StatusType : Type 0 where
  is_done is_stopped is_cancelled is_error is_running is_stopping is_interrupted : StatusType

pub record StatusMessage : Type 0 where
  pub type : StatusType
  pub target : Target
  pub session_id : Option String
  pub status : Option Status
  pub message : Option String
  pub view_effect : Option ViewEffect
  pub skip_when_status : List Status

-- `sessionRun.events` and `sessionRun.stream`
pub data StreamType : Type 0 where
  events stream : StreamType

pub data ReplyType : Type 0 where
  approval_ok approval_error user_input_ok user_input_error projection_error : ReplyType

pub record Result : Type 0 where
  pub target : Target
  pub operation_id : String
  pub kind : Kind
  pub message : Option String
  pub is_info : Bool

pub data Message : Type 0 where
  scope_upsert : Scope → Bool → Bool → Message
  scope_delete : String → Message
  select_branch : Target → Message
  status_changed : StatusMessage → Message
  branches : Option String → List Summary → Message
  pending_next_turn : Target → View → Message
  pending_next_turns : Target → List View → Message
  streamed : StreamType → Target → Option (List View) → Option Stats → Message
  replied : ReplyType → Target → Option String → Bool → Message
  operation_pending : Operation → Message
  operation_result : Outcome → Result → Message

pub data Reason : Type 0 where
  missing_proof unknown_scope wrong_operation : Reason

-- The types of message that an error notice names.
pub data NoticeType : Type 0 where
  approval_notice user_input_notice projection_notice run_notice : NoticeType

-- The level of an operation's notice is "info" or "error".
pub data Effect : Type 0 where
  message_rejected : Reason → Effect
  scope_updated scope_deleted : String → Effect
  events_accepted : StreamType → String → Effect
  scoped_error_notice : NoticeType → String → String → Effect
  projection_updated : Projection → Effect
  visible_rollback : String → String → Rollback → Effect
  operation_restore : String → String → Restore → Effect
  operation_notice : String → String → String → Bool → Effect
  projection_error_stopped : String → Effect
  next_turn_added : View → Effect
  next_turn_consumed : String → Effect
  next_turns_replaced : List View → Effect
  working_stopped : String → String → Effect
  shows_running shows_stopping : String → Effect
  shows_error : Effect
  shows_terminal : Terminal → Bool → Effect
  operation_settled : String → String → Effect

pub record Reduction : Type 0 where
  pub model : Model
  pub effects : List Effect
