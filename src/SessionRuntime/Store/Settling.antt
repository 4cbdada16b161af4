-- ===== src/SessionRuntime/Store/Settling.antt =====
-- SessionRuntimeStore.ts: how the store answers the results of operations. A method gives its answer
-- and the next model.
use labrastro_vscode_extensi.Base.{
  ℕ, String, Bool, true, false, not, ◌&&◌, Option, none, some, if◌then◌else◌, ◌==◌, or_else, given,
  holds_text, is_some, List, [], ◌∷◌, eqb,
}
use labrastro_vscode_extensi.Base.Dict.{lookup, insert}
use labrastro_vscode_extensi.SessionRuntime.Model.{
  running, Kind, start, branch_create, branch_select, Operation, Scope, Model, Outcome, success,
  failure, scope_upsert, scope_delete, operation_settle,
}
use labrastro_vscode_extensi.SessionRuntime.Resolve.{scope_id_for, scope_target}
use labrastro_vscode_extensi.SessionRuntime.Visible.{is_selected}
use labrastro_vscode_extensi.SessionRuntime.Reducer.{reduce}
use labrastro_vscode_extensi.SessionRuntime.Store.{
  MainlineIdentity, Response, Criteria, same_text, find_operations, find_operation,
}

unfoldable pub settle : Model → Operation → Outcome → Model
settle m o outcome =
    (reduce m (operation_settle outcome (scope_target o.scope_id) o.operation_id o.kind)).model

abbrev pub outcome_of : Bool → Outcome
outcome_of true = success
outcome_of false = failure

unfoldable pub source_still_current : Option MainlineIdentity → ℕ → Operation → Bool
source_still_current none revision o = false
source_still_current (some mainline) revision o =
    eqb revision o.source_identity_revision
    && (same_text mainline.session_run_id o.source_session_run_id
        && (same_text mainline.branch_binding_id o.source_branch_binding_id
            && same_text mainline.agent_run_id o.source_agent_run_id))

abbrev pub run_of : Option MainlineIdentity → Option String
run_of none = none
run_of (some mainline) = mainline.session_run_id

unfoldable pub start_source_still_current : Option MainlineIdentity → ℕ → Operation → Bool
start_source_still_current mainline revision o =
    if not (eqb revision o.source_identity_revision)
    then false
    else elim (given o.active_session_run_id) [
      | some run ↦ holds_text (run_of mainline) run
      | none ↦ not (is_some (given (run_of mainline)))
    ]

unfoldable pub response_matches_operation : Response → Operation → Bool
response_matches_operation response o =
    same_text o.source_session_run_id response.session_run_id
    && (same_text o.target_branch_binding_id response.branch_binding_id
        && same_text o.source_agent_run_id response.agent_run_id)

unfoldable pub operation_still_current_for_failure : Option MainlineIdentity → ℕ → Operation → Bool
operation_still_current_for_failure mainline revision o = elim o.kind [
  | start ↦ start_source_still_current mainline revision o
  | _ ↦ source_still_current mainline revision o
]

-- The operation with this id and kind, shown or not.
abbrev pub named : String → Kind → Bool → Criteria
named id kind visible = record {
  operation_id = some id;
  operation_kind = some kind;
  visible = some visible;
}

-- The operation as it stands in the scope of the run that the server has started.
abbrev pub operation_on_target : Operation → String → String → Operation
operation_on_target o run branch = record o {
  scope_id = scope_id_for run branch;
  active_session_run_id = some run;
  target_branch_binding_id = some branch;
}

abbrev pub confirmed_scope : Scope → Operation → String → String → Option String → Scope
confirmed_scope s o run branch agent = record s {
  scope_id = scope_id_for run branch;
  session_run_id = run;
  branch_binding_id = branch;
  agent_run_id = or_else (given agent) s.agent_run_id;
  status = running;
  operations_by_id = insert o.operation_id (operation_on_target o run branch) s.operations_by_id;
}

unfoldable pub confirm_start_operation : Model → Operation → String → String → Option String → Model
confirm_start_operation m o run branch agent = elim (lookup o.scope_id m.scopes) [
  | none ↦ settle m o success
  | some s ↦
      let confirmed =
        (reduce m
          (scope_upsert (confirmed_scope s o run branch agent) (is_selected m s.scope_id))).model in
      let left =
        if s.scope_id == scope_id_for run branch
        then confirmed
        else (reduce confirmed (scope_delete s.scope_id)).model in
      settle left (operation_on_target o run branch) success
]

unfoldable pub accepts_start_success :
    Model → String → Option MainlineIdentity → ℕ → Response → Bool × Model
accepts_start_success m id mainline revision response =
    elim (find_operation m (named id start true)) [
      | none ↦ (false, m)
      | some o ↦
          let accepted = start_source_still_current mainline revision o in
          let settled = settle m o (outcome_of accepted) in
          (
            accepted,
            if not accepted then settled else elim (given response.session_run_id) [
              | none ↦ settled
              | some run ↦ elim (given response.branch_binding_id) [
                | none ↦ settled
                | some branch ↦ confirm_start_operation m o run branch response.agent_run_id
              ]
            ],
          )
    ]

unfoldable pub accepts_branch_create_success :
    Model → String → Option MainlineIdentity → ℕ → String → Bool × Model
accepts_branch_create_success m id mainline revision branch =
    elim (find_operation m (named id branch_create true)) [
      | none ↦ (false, m)
      | some o ↦
          let accepted =
            source_still_current mainline revision o
            && holds_text o.target_branch_binding_id branch in
          (accepted, settle m o (outcome_of accepted))
    ]

unfoldable pub branch_select_success_still_current :
    Model → String → Option MainlineIdentity → ℕ → String → Bool
branch_select_success_still_current m id mainline revision branch =
    elim (find_operation m (named id branch_select true)) [
      | none ↦ false
      | some o ↦
          source_still_current mainline revision o && holds_text o.target_branch_binding_id branch
    ]

-- What the methods that only look for the operation do.
unfoldable pub settle_named : Model → String → Kind → Bool → Outcome → Bool × Model
settle_named m id kind visible outcome = elim (find_operation m (named id kind visible)) [
  | none ↦ (false, m)
  | some o ↦ (true, settle m o outcome)
]

abbrev pub settle_branch_select_success : Model → String → Bool × Model
settle_branch_select_success m id = settle_named m id branch_select true success

abbrev pub reject_visible_operation : Model → String → Kind → Bool × Model
reject_visible_operation m id kind = settle_named m id kind true failure

abbrev pub settle_branch_local_failure : Model → String → Kind → Bool × Model
settle_branch_local_failure m id kind = settle_named m id kind false failure

unfoldable pub accepts_control_success :
    Model → String → Kind → Option MainlineIdentity → ℕ → Response → Bool × Model
accepts_control_success m id kind mainline revision response =
    elim (find_operation m (named id kind true)) [
      | none ↦ (false, m)
      | some o ↦
          let accepted =
            source_still_current mainline revision o && response_matches_operation response o in
          (accepted, settle m o (outcome_of accepted))
    ]

unfoldable pub settle_branch_local_success : Model → String → Kind → Response → Bool × Model
settle_branch_local_success m id kind response = elim (find_operation m (named id kind false)) [
  | none ↦ (false, m)
  | some o ↦
      let accepted = response_matches_operation response o in
      (accepted, settle m o (outcome_of accepted))
]

unfoldable pub accepts_failure : Model → String → Kind → Option MainlineIdentity → ℕ → Bool × Model
accepts_failure m id kind mainline revision = elim (find_operation m (named id kind true)) [
  | none ↦ (false, m)
  | some o ↦
      let accepted = operation_still_current_for_failure mainline revision o in
      (accepted, if accepted then settle m o failure else m)
]

abbrev pub settle_all : Model → List Operation → Model
settle_all m [] = m
settle_all m (o ∷ rest) = settle_all (settle m o failure) rest

unfoldable pub clear_visible_operations : Model → Model
clear_visible_operations m =
    settle_all m (
      find_operations m
        (record { operation_id = none; operation_kind = none; visible = some true }))
