-- ===== src/ViewRuntime/Tests.antt =====
-- A run with two branches in the webview, and the theorems applied to it.
use mathlib.Core.Option.{some-injective}
use labrastro_vscode_extensi.Base.{
  ne_of_test, String, true, false, Option, none, some, ◌≡◌, ◌≢◌, refl, List, [], ◌∷◌, same, subst,
  length, arith,
}
use labrastro_vscode_extensi.Base.Dict.{Dict, lookup, insert, erase}
use labrastro_vscode_extensi.SessionRuntime.Model.{
  running, done, idle, continue, branch_create, Stats, success,
}
use labrastro_vscode_extensi.SessionRuntime.Resolve.{scope_target, scope_id_for}
use labrastro_vscode_extensi.ViewRuntime.Model.{
  Operation, Scope, Projection, Model, is_done, Result, ViewEffect, Message, Reduction,
  status_changed, select_branch, scope_delete, operation_pending, pending_next_turn,
}
use labrastro_vscode_extensi.ViewRuntime.Visible.{
  resolve_message_scope, matching, scope_matches_target,
}
use labrastro_vscode_extensi.ViewRuntime.Reducer.{reduce_host_message, delete_scope}
use labrastro_vscode_extensi.ViewRuntime.Invariant.{ShowsScope, IsValid}
use labrastro_vscode_extensi.ViewRuntime.Invariant.Messages.{reduce_host_message-IsValid}
use labrastro_vscode_extensi.SessionRuntime.Model as Host
use labrastro_vscode_extensi.SessionRuntime.Resolve.{resolve_event_scope}
use labrastro_vscode_extensi.ViewRuntime.Agreement.{
  KnowsSame, host_identity, view_identity, resolve_event_scope-agrees,
}
use labrastro_vscode_extensi.ViewRuntime.Projections.{IsCurrent}
use labrastro_vscode_extensi.ViewRuntime.Projections.Messages.{reduce_host_message-IsCurrent}
use labrastro_vscode_extensi.ViewRuntime.Refusals.{reduce_host_message-IsAtomic}
use labrastro_vscode_extensi.ViewRuntime.Effects.{ViewState, apply_effects}
use labrastro_vscode_extensi.ViewRuntime.Effects.Showing.{ShowsProjection}
use labrastro_vscode_extensi.ViewRuntime.Effects.Composition.{
  background_message-view, select_branch-shown,
}
use labrastro_vscode_extensi.ViewRuntime.Session.{scope_for_upsert, reduce_operation_result}
use labrastro_vscode_extensi.Chat.OperationGate.{result_target_branch_binding_id}
use labrastro_vscode_extensi.ViewRuntime.Visible.{
  update_scope, put_scope, refresh_visible, scope_agent_run_conflicts,
}
use labrastro_vscode_extensi.ViewRuntime.Operations.{
  begin_operation, branch_create_operation_has_source_scope, settle_operation, settle_found,
}
use labrastro_vscode_extensi.ViewRuntime.Reducer.{upsert_scope}
use labrastro_vscode_extensi.ViewRuntime.Results.{
  ResultMessage, ResultTarget, kind_name, kind_of, only_match, existing_operation,
  session_proof_matches_existing, branch_proof_matches_existing, operation_result_target,
  reduce_accepted, release, adopt, with_target, model_for_operation_result,
}
use labrastro_vscode_extensi.ViewRuntime.Results.Adoption.{Holds}
use labrastro_vscode_extensi.ViewRuntime.Session.Settlement.{
  IsGone, model_for_operation_result-adopts, reduce_operation_result-IsGone,
}
use labrastro_vscode_extensi.ViewRuntime.Session.Invariants.{
  ChatIsValid, apply_messages, apply_messages-ChatIsValid,
}

abbrev empty_stats : Stats
empty_stats = record { run_status = some running; others = [] }

abbrev scope_of : String → String → Dict Operation → Scope
scope_of id branch operations = record {
  scope_id = id;
  session_run_id = "run";
  branch_binding_id = branch;
  session_id = some "session";
  agent_run_id = some "agent";
  status = running;
  turns = [];
  stats = empty_stats;
  pending_next_turns = [];
  operations_by_id = operations;
}

-- An operation of the side branch whose result names the main branch.
abbrev continuing : Operation
continuing = record {
  operation_id = "op";
  kind = continue;
  created_at = none;
  scope_id = "run:side";
  source_branch_binding_id = some "side";
  target_branch_binding_id = some "main";
  visible = true;
  optimistic_projection = none;
  rollback = none;
  restore = none;
}

abbrev main_scope : Scope
main_scope = scope_of "run:main" "main" []

abbrev side_scope : Scope
side_scope = scope_of "run:side" "side" (("op", continuing) ∷ [])

abbrev shown_main : Projection
shown_main = record {
  selected_scope_id = some "run:main";
  selected_session_run_id = some "run";
  selected_session_id = some "session";
  selected_branch_binding_id = "main";
  selected_transcript = [];
  selected_stats = empty_stats;
  selected_runtime_status = running;
  branch_summaries = [];
}

abbrev two_branches : Model
two_branches = record {
  scopes = ("run:main", main_scope) ∷ ("run:side", side_scope) ∷ [];
  visible = shown_main;
}

main_named : ◌≢◌ {A = String} "run:main" ""
main_named = ne_of_test "run:main" "" refl

side_named : ◌≢◌ {A = String} "run:side" ""
side_named = ne_of_test "run:side" "" refl

two_branches-IsValid : IsValid two_branches
unfolding lookup same
two_branches-IsValid = record {
  distinct = (refl, (refl, tt));
  entries = (
    record { keyed = refl; valid = record { named = main_named; operations = tt } },
    (
      record {
        keyed = refl;
        valid = record { named = side_named; operations = ((refl, λ k. absurd (cc)), tt) };
      },
      tt,
    ),
  );
  shows = λ id e.
      subst
        (λ i.
          (i ≢ "")
          × ((s : Scope) × (lookup i two_branches.scopes ≡ some s) × ShowsScope shown_main s))
        (some-injective "run:main" id e)
        (
          main_named,
          (
            main_scope,
            refl,
            record {
              run = refl;
              session = refl;
              branch = refl;
              transcript = refl;
              stats = refl;
              status = refl;
            },
          ),
        );
}

abbrev view : ViewState
view = record {
  selected_branch_binding_id = "main";
  active_session_run_id = some "run";
  current_run_session_id = "session";
  trace_session_id = "";
  session_run_status = running;
  is_working = true;
  working_text = "";
  branch_summaries = [];
  timer = true;
  working_elapsed = "0:07";
  handed_on = [];
}

abbrev ended : String → Message
ended id = status_changed (record {
  type = is_done;
  target = scope_target id;
  session_id = none;
  status = none;
  message = none;
  view_effect = some (ViewEffect.terminal none true);
  skip_when_status = done ∷ [];
})

reduce_host_message-IsValid_example :
    IsValid (reduce_host_message two_branches (operation_pending continuing)).model
reduce_host_message-IsValid_example =
    reduce_host_message-IsValid two_branches (operation_pending continuing) two_branches-IsValid
      λ k. absurd (cc)

reduce_host_message-IsAtomic_example :
    ((reduce_host_message two_branches (scope_delete "run:main")).model ≡ two_branches)
    × (length (reduce_host_message two_branches (scope_delete "run:main")).effects ≡ 1)
unfolding reduce_host_message delete_scope lookup same
reduce_host_message-IsAtomic_example =
    reduce_host_message-IsAtomic two_branches (scope_delete "run:main") refl

background_message-view_example :
    apply_effects view (reduce_host_message two_branches (ended "run:side")).effects ≡ view
unfolding resolve_message_scope matching scope_matches_target lookup same
background_message-view_example =
    background_message-view view two_branches (ended "run:side") two_branches-IsValid refl

select_branch-shown_example :
    let r = reduce_host_message two_branches (select_branch (scope_target "run:side")) in
    ShowsScope r.model.visible side_scope
    × ShowsProjection true (apply_effects view r.effects) r.model.visible
unfolding resolve_message_scope matching scope_matches_target lookup same
select_branch-shown_example =
    select_branch-shown view two_branches (scope_target "run:side") side_scope two_branches-IsValid
      refl

abbrev continued : ResultMessage
continued = record {
  operation_id = some "op";
  operation_kind = some "continue";
  session_run_id = some "run";
  branch_binding_id = some "main";
  target_branch_binding_id = none;
}

abbrev main_target : ResultTarget
main_target = record { session_run_id = "run"; branch_binding_id = "main"; scope_id = "run:main" }

abbrev or_shown : Option Model → Model
or_shown none = two_branches
or_shown (some m) = m

abbrev or_reduction : Option Reduction → Reduction
or_reduction none = record { model = two_branches; effects = [] }
or_reduction (some r) = r

-- The main branch after it has taken the operation over from the side branch.
abbrev prepared : Model
prepared =
    or_shown (
      model_for_operation_result (scope_for_upsert none) two_branches continued main_target success)

model_for_operation_result-adopts_example : Holds prepared "run:main" "op"
unfolding model_for_operation_result with_target existing_operation only_match adopt release
    reduce_accepted reduce_host_message upsert_scope begin_operation
    branch_create_operation_has_source_scope update_scope put_scope refresh_visible
    scope_agent_run_conflicts operation_result_target result_target_branch_binding_id
    session_proof_matches_existing branch_proof_matches_existing kind_name scope_id_for lookup
    insert erase same
model_for_operation_result-adopts_example =
    model_for_operation_result-adopts two_branches prepared continued success main_target "op"
      (record { scope = side_scope; operation = continuing }) two_branches-IsValid refl refl refl
      refl

abbrev settled : Reduction
settled = or_reduction (reduce_operation_result two_branches success continued none false)

reduce_operation_result-IsGone_example :
    (id : String) × (target : ResultTarget) × (some "op" ≡ some id)
    × (operation_result_target two_branches continued success ≡ some target)
    × IsGone settled.model target.scope_id id
unfolding reduce_operation_result kind_of model_for_operation_result with_target existing_operation
    only_match adopt release reduce_accepted reduce_host_message resolve_message_scope matching
    scope_matches_target settle_operation settle_found upsert_scope begin_operation
    branch_create_operation_has_source_scope update_scope put_scope refresh_visible
    scope_agent_run_conflicts operation_result_target result_target_branch_binding_id
    session_proof_matches_existing branch_proof_matches_existing kind_name scope_id_for lookup
    insert erase same
reduce_operation_result-IsGone_example =
    reduce_operation_result-IsGone two_branches success continued none false settled
      two_branches-IsValid refl

abbrev history : List Message
history =
    ended "run:side"
    ∷ select_branch (scope_target "run:side")
    ∷ scope_delete "run:main"
    ∷ pending_next_turn (scope_target "run:main") []
    ∷ []

apply_messages-ChatIsValid_example :
    ChatIsValid (apply_messages (record { model = two_branches; view = view }) history)
apply_messages-ChatIsValid_example =
    apply_messages-ChatIsValid (record { model = two_branches; view = view }) history
      (two_branches-IsValid, λ h. refl) (tt, (tt, (tt, (tt, tt))))

abbrev creating : String → Operation
creating target = record {
  operation_id = "new";
  kind = branch_create;
  created_at = none;
  scope_id = "run:main";
  source_branch_binding_id = some "main";
  target_branch_binding_id = some target;
  visible = true;
  optimistic_projection = none;
  rollback = some (record { source_branch_binding_id = "main"; turns = []; stats = empty_stats });
  restore = none;
}

abbrev created_side : Scope
created_side = scope_of "run:side" "side" (("new", creating "side") ∷ [])

abbrev refusal : Result
refusal = record {
  target = scope_target "run:side";
  operation_id = "new";
  kind = branch_create;
  message = none;
  is_info = false;
}

reduce_host_message-IsCurrent_example :
    IsCurrent (reduce_host_message two_branches (select_branch (scope_target "run:side")))
reduce_host_message-IsCurrent_example =
    reduce_host_message-IsCurrent two_branches (select_branch (scope_target "run:side"))

abbrev host_scope : String → String → Host.Scope
host_scope id branch = record {
  scope_id = id;
  session_run_id = "run";
  branch_binding_id = branch;
  agent_run_id = "agent";
  active_activation_id = none;
  runtime_revision = 4;
  status = running;
  stream_cursor = none;
  pending_next_turns = [];
  pending_approvals = [];
  pending_user_inputs = [];
  operations_by_id = [];
  transcript = none;
  stats = none;
}

abbrev host_model : Host.Model
host_model = record {
  scopes =
      ("run:main", host_scope "run:main" "main") ∷ ("run:side", host_scope "run:side" "side") ∷ [];
  visible = record {
    selected_scope_id = none;
    selected_branch_binding_id = "";
    selected_transcript = [];
    selected_stats = empty_stats;
    selected_runtime_status = idle;
    branch_summaries = [];
  };
}

host_model-KnowsSame : KnowsSame host_model two_branches
unfolding lookup
host_model-KnowsSame id = elim (same "run:main" id) [
  | yes p ↦ ground (arith, p)
  | no p ↦ elim (same "run:side" id) [ yes q ↦ ground (arith, p, q) | no q ↦ ground (arith, p, q) ]
]

resolve_event_scope-agrees_example :
    host_identity (resolve_event_scope host_model (scope_target "run:side"))
    ≡ view_identity (resolve_message_scope two_branches (scope_target "run:side"))
resolve_event_scope-agrees_example =
    resolve_event_scope-agrees host_model two_branches (scope_target "run:side")
      host_model-KnowsSame
