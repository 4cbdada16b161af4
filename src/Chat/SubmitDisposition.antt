-- ===== src/Chat/SubmitDisposition.antt =====
-- sessionSubmitDisposition.ts: what the composer may do with a text that the user submits.
pub mod Decisions
use labrastro_vscode_extensi.Base.{
  String, Bool, true, false, not, ◌&&◌, ◌||◌, Option, none, some, if◌then◌else◌, or_else, given,
  holds_text, is_some,
}

pub data RuntimeStatus : Type 0 where
  idle queued running waiting stopping cancelled done error interrupted : RuntimeStatus

-- The state `"none"` is `no_mainline`; likewise below.
pub data MainlineState : Type 0 where
  no_mainline starting executing waiting_user settled closed cancelled failed blocked
        unrecoverable :
      MainlineState

pub data ActivationState : Type 0 where
  no_activation queued dispatched running waiting_server waiting_user completed failed cancelled
        blocked :
      ActivationState

pub data BindingStatus : Type 0 where
  no_binding pending active closed deleted : BindingStatus

pub data ProjectionState : Type 0 where
  live recovered drained unavailable nonrecoverable : ProjectionState

pub data TransportState : Type 0 where
  disconnected connecting streaming reconnecting closed error : TransportState

-- The status of the server event stream, of runtimeState.ts.
pub data StreamStatus : Type 0 where
  idle connecting reconnecting error : StreamStatus

pub data DispositionKind : Type 0 where
  start continue queue_next_turn blocked disabled : DispositionKind

pub data Intent : Type 0 where
  normal current_activation : Intent

pub record Proof : Type 0 where
  pub active_session_run_id : Option String
  pub selected_branch_binding_id : Option String
  pub selected_runtime_status : RuntimeStatus
  pub mainline_state : MainlineState
  pub activation_state : ActivationState
  pub binding_status : BindingStatus
  pub working : Bool
  pub continuable : Bool
  pub recoverable : Bool
  pub event_stream_allowed : Bool
  pub projection_state : ProjectionState
  pub transport_state : TransportState
  pub server_event_stream_status : StreamStatus
  pub server_event_stream_applies : Bool
  pub current_run_session_matches : Bool
  pub start_in_flight : Bool

pub record Disposition : Type 0 where
  pub kind : DispositionKind
  pub reason : String
  pub proof : Proof

-- An optional flag that is only tested is a `Bool`; one with a default is an `Option`.
pub record Input : Type 0 where
  pub has_text : Bool
  pub active_session_run_id : Option String
  pub selected_branch_binding_id : Option String
  pub selected_runtime_status : RuntimeStatus
  pub mainline_state : Option MainlineState
  pub activation_state : Option ActivationState
  pub binding_status : Option BindingStatus
  pub working : Option Bool
  pub continuable : Option Bool
  pub recoverable : Option Bool
  pub event_stream_allowed : Option Bool
  pub projection_state : Option ProjectionState
  pub transport_state : Option TransportState
  pub server_event_stream_status : StreamStatus
  pub server_event_stream_session_run_id : Option String
  pub server_event_stream_branch_binding_id : Option String
  pub current_run_session_matches : Bool
  pub start_in_flight : Bool
  pub intent : Option Intent
  pub disabled : Bool

unfoldable pub session_runtime_status_is_executing : RuntimeStatus → Bool
session_runtime_status_is_executing RuntimeStatus.queued = true
session_runtime_status_is_executing RuntimeStatus.running = true
session_runtime_status_is_executing RuntimeStatus.waiting = true
session_runtime_status_is_executing RuntimeStatus.stopping = true
session_runtime_status_is_executing _ = false

abbrev pub activation_state_is_executing : ActivationState → Bool
activation_state_is_executing ActivationState.queued = true
activation_state_is_executing ActivationState.dispatched = true
activation_state_is_executing ActivationState.running = true
activation_state_is_executing ActivationState.waiting_server = true
activation_state_is_executing _ = false

abbrev pub activation_state_from_runtime_status : RuntimeStatus → ActivationState
activation_state_from_runtime_status RuntimeStatus.queued = ActivationState.queued
activation_state_from_runtime_status RuntimeStatus.running = ActivationState.running
activation_state_from_runtime_status RuntimeStatus.waiting = ActivationState.waiting_server
activation_state_from_runtime_status RuntimeStatus.stopping = ActivationState.running
activation_state_from_runtime_status RuntimeStatus.done = ActivationState.completed
activation_state_from_runtime_status RuntimeStatus.cancelled = ActivationState.cancelled
activation_state_from_runtime_status RuntimeStatus.error = ActivationState.failed
activation_state_from_runtime_status RuntimeStatus.interrupted = ActivationState.failed
activation_state_from_runtime_status RuntimeStatus.idle = ActivationState.no_activation

abbrev pub mainline_of_settled_status : RuntimeStatus → MainlineState
mainline_of_settled_status RuntimeStatus.done = MainlineState.settled
mainline_of_settled_status RuntimeStatus.cancelled = MainlineState.cancelled
mainline_of_settled_status RuntimeStatus.error = MainlineState.failed
mainline_of_settled_status RuntimeStatus.interrupted = MainlineState.failed
mainline_of_settled_status _ = MainlineState.no_mainline

abbrev pub mainline_state_from_runtime_status : RuntimeStatus → ActivationState → MainlineState
mainline_state_from_runtime_status status activation =
    if activation_state_is_executing activation
    then MainlineState.executing
    else mainline_of_settled_status status

abbrev pub binding_status_from_mainline_state : MainlineState → BindingStatus
binding_status_from_mainline_state MainlineState.no_mainline = BindingStatus.no_binding
binding_status_from_mainline_state MainlineState.closed = BindingStatus.closed
binding_status_from_mainline_state MainlineState.cancelled = BindingStatus.closed
binding_status_from_mainline_state MainlineState.failed = BindingStatus.closed
binding_status_from_mainline_state MainlineState.unrecoverable = BindingStatus.closed
binding_status_from_mainline_state _ = BindingStatus.active

abbrev pub transport_state_from_server_event_stream : StreamStatus → Bool → TransportState
transport_state_from_server_event_stream status false = TransportState.disconnected
transport_state_from_server_event_stream StreamStatus.connecting true = TransportState.connecting
transport_state_from_server_event_stream StreamStatus.reconnecting true =
    TransportState.reconnecting
transport_state_from_server_event_stream StreamStatus.error true = TransportState.error
transport_state_from_server_event_stream _ true = TransportState.streaming

abbrev pub is_settled : MainlineState → Bool
is_settled MainlineState.settled = true
is_settled _ = false

abbrev pub is_active : BindingStatus → Bool
is_active BindingStatus.active = true
is_active _ = false

-- The states that the default of `recoverable` excludes.
abbrev pub excludes_recovery : MainlineState → Bool
excludes_recovery MainlineState.no_mainline = true
excludes_recovery MainlineState.cancelled = true
excludes_recovery MainlineState.closed = true
excludes_recovery MainlineState.failed = true
excludes_recovery MainlineState.unrecoverable = true
excludes_recovery _ = false

-- `a === b` of two optional texts, the first of which is not empty.
unfoldable pub stream_applies : Input → Bool
stream_applies i = elim (given i.server_event_stream_session_run_id) [
  | none ↦ false
  | some run ↦
      holds_text i.active_session_run_id run
      && elim (given i.server_event_stream_branch_binding_id) [
        | none ↦ true
        | some branch ↦ holds_text i.selected_branch_binding_id branch
      ]
]

unfoldable pub proof_of : Input → Proof
proof_of i =
    let activation =
      or_else i.activation_state (activation_state_from_runtime_status i.selected_runtime_status) in
    let mainline =
      or_else i.mainline_state
        (mainline_state_from_runtime_status i.selected_runtime_status activation) in
    let binding = or_else i.binding_status (binding_status_from_mainline_state mainline) in
    let working = or_else i.working (activation_state_is_executing activation) in
    let allowed = or_else i.event_stream_allowed (working && is_active binding) in
    record {
      active_session_run_id = given i.active_session_run_id;
      selected_branch_binding_id = given i.selected_branch_binding_id;
      selected_runtime_status = i.selected_runtime_status;
      mainline_state = mainline;
      activation_state = activation;
      binding_status = binding;
      working = working;
      continuable = or_else i.continuable (is_settled mainline && is_active binding);
      recoverable = or_else i.recoverable (is_active binding && not (excludes_recovery mainline));
      event_stream_allowed = allowed;
      projection_state = or_else i.projection_state (
          if is_settled mainline
          then ProjectionState.drained
          else if allowed
          then ProjectionState.live
          else ProjectionState.unavailable);
      transport_state =
          or_else i.transport_state
            (transport_state_from_server_event_stream i.server_event_stream_status allowed);
      server_event_stream_status = i.server_event_stream_status;
      server_event_stream_applies = stream_applies i;
      current_run_session_matches = i.current_run_session_matches;
      start_in_flight = i.start_in_flight;
    }

abbrev pub is_ended : MainlineState → BindingStatus → Bool
is_ended MainlineState.closed _ = true
is_ended MainlineState.cancelled _ = true
is_ended MainlineState.failed _ = true
is_ended _ BindingStatus.closed = true
is_ended _ BindingStatus.deleted = true
is_ended _ _ = false

abbrev pub is_nonrecoverable : ProjectionState → Bool
is_nonrecoverable ProjectionState.nonrecoverable = true
is_nonrecoverable _ = false

-- The tests from `waiting_user` on: every one of them blocks.
unfoldable pub blocked_reason : Proof → String
blocked_reason p = elim p.mainline_state [
  | MainlineState.waiting_user ↦ "waiting_user_action"
  | MainlineState.blocked ↦ if p.recoverable then "repair_required" else "nonrecoverable"
  | MainlineState.unrecoverable ↦ "nonrecoverable"
  | other ↦
      if is_ended other p.binding_status
      then "start_new_task_required"
      else if is_nonrecoverable p.projection_state
      then "nonrecoverable"
      else "selected_mainline_state_missing"
]

unfoldable pub resolve_session_submit_disposition : Input → Disposition
resolve_session_submit_disposition i =
    let p = proof_of i in
    if i.disabled
    then record { kind = DispositionKind.disabled; reason = "composer_disabled"; proof = p }
    else if not i.has_text
    then record { kind = DispositionKind.disabled; reason = "empty_text"; proof = p }
    else if i.start_in_flight
    then record { kind = DispositionKind.blocked; reason = "session_run_start_pending"; proof = p }
    else if not (is_some (given i.active_session_run_id))
    then record { kind = DispositionKind.start; reason = "no_active_session_run"; proof = p }
    else if not i.current_run_session_matches
    then record { kind = DispositionKind.blocked; reason = "active_run_not_visible"; proof = p }
    else if activation_state_is_executing p.activation_state
    then record {
      kind = DispositionKind.queue_next_turn;
      reason = "selected_branch_not_accepting_continuation";
      proof = p;
    }
    else if is_settled p.mainline_state && (p.continuable && is_active p.binding_status)
    then record { kind = DispositionKind.continue; reason = "selected_branch_settled"; proof = p }
    else record { kind = DispositionKind.blocked; reason = blocked_reason p; proof = p }
