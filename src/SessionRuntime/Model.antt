-- ===== src/SessionRuntime/Model.antt =====
-- SessionRuntimeModel.ts: the state, the events and the effects of the reducer. A value of type
-- `unknown` is a JSON value; an optional field is an `Option`.
use labrastro_vscode_extensi.Base.{ℕ, String, List, Bool, Option}
use labrastro_vscode_extensi.Base.Dict.{Dict}

mutual
  pub data Value : Type 0 where
    null_value : Value
    boolean : Bool → Value
    number : ℕ → Value
    string : String → Value
    array : Elements → Value
    object : Members → Value

  pub data Elements : Type 0 where
    no_element : Elements
    element : Value → Elements → Elements

  pub data Members : Type 0 where
    no_member : Members
    member : String → Value → Members → Members

-- `Record<string, unknown>`
abbrev pub View : Type 0
View = Dict Value

pub data Status : Type 0 where
  idle queued running waiting stopping cancelled done error interrupted : Status

pub data Kind : Type 0 where
  start continue steer recover stop cancel branch_create branch_select : Kind

-- `Record<string, unknown> & { runStatus?: SessionRuntimeStatus }`
pub record Stats : Type 0 where
  pub run_status : Option Status
  pub others : View

pub record Summary : Type 0 where
  pub scope_id : String
  pub session_run_id : String
  pub branch_binding_id : String
  pub agent_run_id : String
  pub status : Status
  pub pending_next_turn_count : ℕ
  pub pending_approval_count : ℕ
  pub pending_user_input_count : ℕ
  pub operation_count : ℕ

pub record Projection : Type 0 where
  pub selected_scope_id : Option String
  pub selected_branch_binding_id : String
  pub selected_transcript : List View
  pub selected_stats : Stats
  pub selected_runtime_status : Status
  pub branch_summaries : List Summary

-- The one kind of optimistic effect is `visible.rollback`.
pub record OptimisticEffect : Type 0 where
  pub rollback : Projection

pub record Operation : Type 0 where
  pub operation_id : String
  pub kind : Kind
  pub scope_id : String
  pub source_identity_revision : ℕ
  pub active_session_run_id : Option String
  pub source_session_run_id : Option String
  pub source_branch_binding_id : Option String
  pub source_agent_run_id : Option String
  pub target_branch_binding_id : Option String
  pub visible : Bool
  pub optimistic_effect : Option OptimisticEffect

pub record Scope : Type 0 where
  pub scope_id : String
  pub session_run_id : String
  pub branch_binding_id : String
  pub agent_run_id : String
  pub active_activation_id : Option String
  pub runtime_revision : ℕ
  pub status : Status
  pub stream_cursor : Option ℕ
  pub pending_next_turns : List View
  pub pending_approvals : List View
  pub pending_user_inputs : List View
  pub operations_by_id : Dict Operation
  pub transcript : Option (List View)
  pub stats : Option Stats

pub record Model : Type 0 where
  pub scopes : Dict Scope
  pub visible : Projection

pub data Reason : Type 0 where
  missing_proof unknown_scope stale_revision wrong_target : Reason

pub data Effect : Type 0 where
  event_rejected : Reason → String → Option String → Effect
  scope_updated : String → Effect
  scope_deleted : String → Effect
  projection_updated : Projection → Effect
  visible_rollback : String → String → Projection → Effect
  operation_settled : String → String → Kind → Effect

pub record Reduction : Type 0 where
  pub model : Model
  pub effects : List Effect

-- The three optional fields by which an event names its scope.
pub record Target : Type 0 where
  pub session_run_id : Option String
  pub branch_binding_id : Option String
  pub scope_id : Option String

-- The types `sessionRun.running` to `sessionRun.interrupted`.
pub data StatusType : Type 0 where
  is_running is_waiting is_stopping is_cancelled is_stopped is_done is_error is_interrupted :
      StatusType

pub record StatusUpdate : Type 0 where
  pub type : StatusType
  pub target : Target
  pub agent_run_id : Option String
  pub runtime_revision : Option ℕ
  pub status : Option Status
  pub transcript : Option (List View)
  pub stats : Option Stats

pub record Removal : Type 0 where
  pub client_request_id : Option String
  pub queued_at : Option String
  pub text : Option String

-- `sessionRun.operation.success` and `sessionRun.operation.error`
pub data Outcome : Type 0 where
  success failure : Outcome

pub data Event : Type 0 where
  scope_upsert : Scope → Bool → Event
  scope_delete : String → Event
  select_branch : Target → Event
  runtime_status : StatusUpdate → Event
  pending_next_turn : Target → Option ℕ → View → Event
  pending_remove : Target → Removal → Event
  pending_clear : Target → Event
  operation_begin : Operation → Option Scope → Bool → Event
  operation_settle : Outcome → Target → String → Kind → Event
