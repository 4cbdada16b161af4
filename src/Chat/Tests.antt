-- ===== src/Chat/Tests.antt =====
-- The theorems of the chat, applied to a submission, a queue and an operation.
use labrastro_vscode_extensi.Base.{
  ℕ, String, true, false, Option, none, some, ◌≡◌, ◌↔◌, refl, List, [], ◌∷◌, ◌++◌, same,
}
use labrastro_vscode_extensi.Base.{ne_of_test, not, keep, any}
use labrastro_vscode_extensi.SessionRuntime.Model.{View, string}
use labrastro_vscode_extensi.Chat.Approvals.{
  PendingApproval, allow_once, submitting, is_of, merge_status_approvals,
}
use labrastro_vscode_extensi.Chat.Approvals.Renewal.{
  IsRenewed, has_id, merge_status_approvals-IsRenewed,
}
use labrastro_vscode_extensi.Chat.Approvals.Completeness.{merge_status_approvals_iff}
use labrastro_vscode_extensi.Chat.Approvals.Requests.{IsRequested}
use labrastro_vscode_extensi.Chat.SubmitDisposition.{
  RuntimeStatus, StreamStatus, DispositionKind, Input, resolve_session_submit_disposition, proof_of,
  session_runtime_status_is_executing,
}
use labrastro_vscode_extensi.Chat.SubmitDisposition.Decisions.{
  MayStart, MayQueue, MayContinue, resolve-kind, resolve_by_status,
}
use labrastro_vscode_extensi.Chat.PromptQueue.{Options, done, create_prompt_queue_state}
use labrastro_vscode_extensi.Chat.PromptQueue.Order.{
  Action, enqueue, chat_end, resume, act_all, act_all-order, entered,
}
use labrastro_vscode_extensi.Chat.OperationGate.{
  PendingOperation, OperationInput, merge_pending_session_run_operation_view, new_pending,
  merge_into, is_session_run_operation_kind,
}
use labrastro_vscode_extensi.Chat.OperationGate.Merging.{Extends, merge_all, merge_all-Extends}
use labrastro_vscode_extensi.Chat.OperationGate.Coherence.{IsCoherent, merge_all-IsCoherent}

-- A run that is shown and executes.
abbrev shown_run : Input
shown_run = record {
  has_text = true;
  active_session_run_id = some "run";
  selected_branch_binding_id = some "main";
  selected_runtime_status = RuntimeStatus.running;
  mainline_state = none;
  activation_state = none;
  binding_status = none;
  working = none;
  continuable = none;
  recoverable = none;
  event_stream_allowed = none;
  projection_state = none;
  transport_state = none;
  server_event_stream_status = StreamStatus.idle;
  server_event_stream_session_run_id = some "run";
  server_event_stream_branch_binding_id = none;
  current_run_session_matches = true;
  start_in_flight = false;
  intent = none;
  disabled = false;
}

resolve-kind_example :
    (((resolve_session_submit_disposition shown_run).kind ≡ DispositionKind.start)
      ↔ MayStart shown_run)
    × (((resolve_session_submit_disposition shown_run).kind ≡ DispositionKind.queue_next_turn)
        ↔ MayQueue shown_run)
    × (((resolve_session_submit_disposition shown_run).kind ≡ DispositionKind.continue)
        ↔ MayContinue shown_run)
resolve-kind_example = resolve-kind shown_run

resolve_by_status_example :
    ((resolve_session_submit_disposition shown_run).kind ≡ DispositionKind.queue_next_turn)
    × ((proof_of shown_run).event_stream_allowed
        ≡ session_runtime_status_is_executing RuntimeStatus.running)
unfolding same
resolve_by_status_example =
    resolve_by_status shown_run
      (record {
        mainline = refl;
        activation = refl;
        binding = refl;
        working = refl;
        continuable = refl;
        allowed = refl;
      })
      (refl, refl, refl) ((λ e. absurd (cc)), refl)

abbrev options : Options
options = record { id = none; created_at = none; request_id = none; mentions = none }

-- Two prompts and a text of white space are entered, and two chat turns end.
abbrev actions : List Action
actions =
    enqueue (0x61 ∷ []) options 1 "p1"
    ∷ enqueue (0x20 ∷ 0x20 ∷ []) options 2 "p2"
    ∷ enqueue (0x62 ∷ []) options 3 "p3"
    ∷ chat_end done
    ∷ resume
    ∷ []

act_all-order_example :
    (act_all create_prompt_queue_state actions).0
      ++ (act_all create_prompt_queue_state actions).1.items
    ≡ entered actions
act_all-order_example = act_all-order create_prompt_queue_state actions

abbrev message : Option String → Option String → OperationInput
message run target = record {
  operation_id = "op";
  kind = "branch.create";
  created_at = none;
  session_run_id = run;
  source_branch_binding_id = some "main";
  target_branch_binding_id = target;
  optimistic_projection = none;
  rollback = some (record {
    kind = "branch.create.optimistic-ui";
    source_branch_binding_id = "main";
    turns = [];
    stats = [];
  });
  restore = none;
}

abbrev messages : List (OperationInput × ℕ)
messages = (message none none, 1) ∷ (message (some "run") (some "new"), 2) ∷ []

merge_all-Extends_example :
    (new : PendingOperation) × (merge_all (some (new_pending (message none none) 1)) messages
      ≡ some new)
    × Extends (new_pending (message none none) 1) new
merge_all-Extends_example = merge_all-Extends (new_pending (message none none) 1) messages

merge_all-IsCoherent_example :
    IsCoherent (merge_into (new_pending (message none none) 1) (message (some "run") (some "new")))
unfolding merge_all merge_pending_session_run_operation_view is_session_run_operation_kind same
merge_all-IsCoherent_example =
    merge_all-IsCoherent messages
      (merge_into (new_pending (message none none) 1) (message (some "run") (some "new"))) refl

abbrev report : List (Option View)
report =
    none
    ∷ some (("approval_id", string "a1") ∷ ("state", string "requested") ∷ [])
    ∷ some (("approval_id", string "a2") ∷ ("branch_binding_id", string "side") ∷ [])
    ∷ []

abbrev waiting_approval : String → String → PendingApproval
waiting_approval id branch = record {
  approval_id = id;
  session_run_id = "run";
  branch_binding_id = some branch;
  details = [];
  submitted_decision = some allow_once;
  submission_state = some submitting;
  submission_error = none;
}

abbrev approvals : List PendingApproval
approvals = waiting_approval "a1" "main" ∷ waiting_approval "a2" "side" ∷ []

merge_status_approvals-IsRenewed_example :
    let merged = merge_status_approvals (λ _. "") approvals report "run" (some "main") in
    IsRenewed "run" "main" merged
    × (keep (λ y. not (is_of "run" "main" y)) merged ≡ waiting_approval "a2" "side" ∷ [])
unfolding same
merge_status_approvals-IsRenewed_example =
    merge_status_approvals-IsRenewed (λ _. "") approvals report "run" "main"
      (ne_of_test "run" "" refl) (ne_of_test "main" "" refl)

merge_status_approvals_iff_example :
    (any
        (has_id "run" "main" "a1")
        (merge_status_approvals (λ _. "") approvals report "run" (some "main"))
      ≡ true)
    ↔ IsRequested (λ _. "") "main" "a1" report
merge_status_approvals_iff_example =
    merge_status_approvals_iff (λ _. "") approvals report "run" "main" "a1"
      (ne_of_test "run" "" refl) (ne_of_test "main" "" refl)
