-- ===== src/Chat/SubmitDisposition/Decisions.antt =====
-- When a submission starts, continues or queues, and that a shown status decides by default.
use labrastro_vscode_extensi.Base.{true, false, none, given, ◌≡◌, ◌≢◌, ◌↔◌, refl, arith}
use labrastro_vscode_extensi.Chat.SubmitDisposition.{
  RuntimeStatus, MainlineState, BindingStatus, DispositionKind, Input,
  activation_state_is_executing, proof_of, session_runtime_status_is_executing,
  resolve_session_submit_disposition,
}

-- The composer is open: enabled, with a text, and no run is being started.
abbrev pub IsOpen : Input → Type 0
IsOpen i = (i.disabled ≡ false) × (i.has_text ≡ true) × (i.start_in_flight ≡ false)

-- There is an active run, and it is the one that the user sees.
abbrev pub SeesRun : Input → Type 0
SeesRun i = (given i.active_session_run_id ≢ none) × (i.current_run_session_matches ≡ true)

-- What the three answers that send a text ask for.
abbrev pub MayStart : Input → Type 0
MayStart i = IsOpen i × (given i.active_session_run_id ≡ none)

abbrev pub MayQueue : Input → Type 0
MayQueue i =
    IsOpen i × SeesRun i × (activation_state_is_executing (proof_of i).activation_state ≡ true)

abbrev pub MayContinue : Input → Type 0
MayContinue i =
    IsOpen i
    × SeesRun i
    × (activation_state_is_executing (proof_of i).activation_state ≡ false)
    × ((proof_of i).mainline_state ≡ MainlineState.settled)
    × ((proof_of i).continuable ≡ true)
    × ((proof_of i).binding_status ≡ BindingStatus.active)

-- A submission starts a run exactly when the composer is open and there is no active run; it
-- queues exactly when it is open, the active run is the one shown, and the branch is executing;
-- it continues exactly when it is open, the active run is the one shown, the branch is not
-- executing, and its mainline is settled and continuable under an active binding.
pub resolve-kind :
    (i : Input)
    → (((resolve_session_submit_disposition i).kind ≡ DispositionKind.start) ↔ MayStart i)
      × (((resolve_session_submit_disposition i).kind ≡ DispositionKind.queue_next_turn)
          ↔ MayQueue i)
      × (((resolve_session_submit_disposition i).kind ≡ DispositionKind.continue) ↔ MayContinue i)
unfolding resolve_session_submit_disposition
resolve-kind i = (
  (λ h. ground (arith, h), λ h. ground (arith, h)),
  (λ h. ground (arith, h), λ h. ground (arith, h)),
  (λ h. ground (arith, h), λ h. ground (arith, h)),
)

-- No state but the runtime status is given.
pub record OnlyStatus (i : Input) : Type 0 where
  pub mainline : i.mainline_state ≡ none
  pub activation : i.activation_state ≡ none
  pub binding : i.binding_status ≡ none
  pub working : i.working ≡ none
  pub continuable : i.continuable ≡ none
  pub allowed : i.event_stream_allowed ≡ none

abbrev pub kind_for : RuntimeStatus → DispositionKind
kind_for RuntimeStatus.queued = DispositionKind.queue_next_turn
kind_for RuntimeStatus.running = DispositionKind.queue_next_turn
kind_for RuntimeStatus.waiting = DispositionKind.queue_next_turn
kind_for RuntimeStatus.stopping = DispositionKind.queue_next_turn
kind_for RuntimeStatus.done = DispositionKind.continue
kind_for _ = DispositionKind.blocked

-- With no state given but the runtime status, in an open composer that shows the active run: an
-- executing status queues the text, `done` continues, any other status blocks; and the event
-- stream is allowed exactly for the executing statuses.
pub resolve_by_status :
    (i : Input)
    → OnlyStatus i
    → IsOpen i
    → SeesRun i
    → ((resolve_session_submit_disposition i).kind ≡ kind_for i.selected_runtime_status)
      × ((proof_of i).event_stream_allowed
          ≡ session_runtime_status_is_executing i.selected_runtime_status)
unfolding resolve_session_submit_disposition proof_of session_runtime_status_is_executing
resolve_by_status i o h k = go i.selected_runtime_status refl
  where
    go :
        (s : RuntimeStatus)
        → i.selected_runtime_status ≡ s
        → ((resolve_session_submit_disposition i).kind ≡ kind_for i.selected_runtime_status)
          × ((proof_of i).event_stream_allowed
              ≡ session_runtime_status_is_executing i.selected_runtime_status)
    go RuntimeStatus.idle e = ground (arith, e)
    go _ e = ground (arith, e)
