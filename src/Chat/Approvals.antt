-- ===== src/Chat/Approvals.antt =====
-- approval-state.ts of the webview: the approvals that wait for a decision, and their renewal from a
-- status report. A report's entry is the record that it holds, or nothing if it holds no record.
pub mod Renewal
pub mod Requests
pub mod Completeness
use labrastro_vscode_extensi.Base.{
  String, Bool, true, false, not, ◌&&◌, ◌||◌, Option, none, some, if◌then◌else◌, ◌==◌, or_else, eqb,
  given, holds_text, List, [], ◌∷◌, ◌++◌, map, keep, any,
}
use labrastro_vscode_extensi.Base.Dict.{lookup}
use labrastro_vscode_extensi.SessionRuntime.Model.{
  Value, null_value, boolean, number, string, array, object, View,
}

pub data ApprovalDecision : Type 0 where
  allow_once deny_once : ApprovalDecision

pub data SubmissionState : Type 0 where
  submitting submit_failed : SubmissionState

-- `details` is the record that the details of the approval are read from.
pub record PendingApproval : Type 0 where
  pub approval_id : String
  pub session_run_id : String
  pub branch_binding_id : Option String
  pub details : View
  pub submitted_decision : Option ApprovalDecision
  pub submission_state : Option SubmissionState
  pub submission_error : Option String

unfoldable pub approval_matches : PendingApproval → String → Option String → Option String → Bool
approval_matches item id run branch = elim (given run) [
  | none ↦ false
  | some r ↦ elim (given branch) [
    | none ↦ false
    | some b ↦
        item.approval_id == id && (item.session_run_id == r && holds_text item.branch_binding_id b)
  ]
]

unfoldable pub mark_approval_submitting :
    List PendingApproval
    → String
    → ApprovalDecision
    → Option String
    → Option String
    → List PendingApproval
mark_approval_submitting items id decision run branch =
    map
      (λ (item : PendingApproval).
        if approval_matches item id run branch
        then record item {
          submitted_decision = some decision;
          submission_state = some submitting;
          submission_error = none;
        }
        else item)
      items

unfoldable pub mark_approval_submit_failed :
    List PendingApproval → String → String → Option String → Option String → List PendingApproval
mark_approval_submit_failed items id error run branch =
    map
      (λ (item : PendingApproval).
        if approval_matches item id run branch
        then record item {
          submission_state = some submit_failed;
          submission_error = some (or_else (given (some error)) "approval reply failed");
        }
        else item)
      items

unfoldable pub mark_approval_submit_succeeded :
    List PendingApproval → String → Option String → Option String → List PendingApproval
mark_approval_submit_succeeded items id run branch =
    keep (λ item. not (approval_matches item id run branch)) items

-- `payload.state && payload.state !== "requested"`
abbrev pub is_decided : Option Value → Bool
is_decided none = false
is_decided (some null_value) = false
is_decided (some (boolean b)) = b
is_decided (some (number n)) = not (eqb n 0)
is_decided (some (string s)) = not (s == "" || s == "requested")
is_decided (some (array _)) = true
is_decided (some (object _)) = true

-- Whether the item is of this run and branch.
abbrev pub is_of : String → String → PendingApproval → Bool
is_of run branch item = item.session_run_id == run && holds_text item.branch_binding_id branch

-- The branch that an approval of the report names, or the one that the report is about.
abbrev pub first_named : String → String → String → String
first_named a b fallback = or_else (given (some a)) (or_else (given (some b)) fallback)

-- The loop looks for the place of an item, replaces it there or adds the item at the end.
unfoldable pub put_approval :
    (PendingApproval → Bool) → PendingApproval → List PendingApproval → List PendingApproval
put_approval p x [] = x ∷ []
put_approval p x (y ∷ ys) = let rest = put_approval p x ys in if p y then x ∷ ys else y ∷ rest

-- `printed` is the language's text for a number, a list or a record.
module _ (printed : Value → String) where
  -- `stringValue`
  abbrev pub text_value : Option Value → String
  text_value none = ""
  text_value (some null_value) = ""
  text_value (some (string s)) = s
  text_value (some (boolean b)) = if b then "true" else "false"
  text_value (some value) = printed value

  unfoldable pub restored_approval : String → String → View → Option PendingApproval
  restored_approval run branch payload =
      if is_decided (lookup "state" payload)
      then none
      else elim (given (some (text_value (lookup "approval_id" payload)))) [
        | none ↦ none
        | some id ↦
            let own =
              first_named (text_value (lookup "branch_binding_id" payload))
                (text_value (lookup "branchBindingId" payload)) branch in
            if not (own == branch)
            then none
            else some (record {
              approval_id = id;
              session_run_id = run;
              branch_binding_id = some branch;
              details = payload;
              submitted_decision = none;
              submission_state = none;
              submission_error = none;
            })
      ]

  -- One round of the loop over the report.
  abbrev pub restore_one : String → String → List PendingApproval → View → List PendingApproval
  restore_one run branch next payload = elim (restored_approval run branch payload) [
    | none ↦ next
    | some x ↦
        put_approval (λ item. approval_matches item x.approval_id (some run) (some branch)) x next
  ]

  unfoldable pub restore_all :
      String → String → List PendingApproval → List (Option View) → List PendingApproval
  restore_all run branch next [] = next
  restore_all run branch next (none ∷ raws) = restore_all run branch next raws
  restore_all run branch next (some payload ∷ raws) =
      restore_all run branch (restore_one run branch next payload) raws

  unfoldable pub merge_status_approvals :
      List PendingApproval → List (Option View) → String → Option String → List PendingApproval
  merge_status_approvals items status run branch = elim (given branch) [
    | none ↦ items
    | some b ↦ restore_all run b (keep (λ item. not (is_of run b item)) items) status
  ]
