-- ===== src/SessionRuntime/Tests.antt =====
-- A session run with two branches, and the theorems of the session runtime applied to it.
use mathlib.Core.Option.{some-injective}
use labrastro_vscode_extensi.Base.{
  ne_of_test, String, true, false, none, some, ◌≡◌, ◌≢◌, ◌↔◌, refl, List, [], ◌∷◌, same, subst, map,
}
use labrastro_vscode_extensi.Base.Dict.{lookup, insert}
use labrastro_vscode_extensi.SessionRuntime.Model.{
  View, string, running, waiting, steer, branch_create, Stats, Projection, Operation, Scope, Model,
  Target, is_waiting, StatusUpdate, Removal, success, failure, Event, scope_delete, select_branch,
  runtime_status, operation_begin, operation_settle, operation_settled, scope_deleted,
  projection_updated, visible_rollback,
}
use labrastro_vscode_extensi.SessionRuntime.Resolve.{
  scope_target, branch_create_operation_has_source_scope, operation_source_conflicts,
  resolve_event_scope, resolve_event_scope_id, scope_matches_target, scope_agent_run_conflicts,
  branch_create_source_scope, has_source_fields, rejected, target_is_new, is_source,
}
use labrastro_vscode_extensi.SessionRuntime.Resolve.Naming.{Names, resolve_event_scope_iff}
use labrastro_vscode_extensi.SessionRuntime.Visible.{
  visible_projection_for, stats_for_scope, select_branch_projection,
}
use labrastro_vscode_extensi.SessionRuntime.Scopes.{
  delete_scope, remove_pending_next_turn, upsert_scope, put_scope, status_for_event_type,
}
use labrastro_vscode_extensi.SessionRuntime.Reducer.{reduce, run}
use labrastro_vscode_extensi.SessionRuntime.Invariant.{ScopeIsValid, ShowsScope, IsValid}
use labrastro_vscode_extensi.SessionRuntime.Invariant.Events.{reduce-IsValid}
use labrastro_vscode_extensi.SessionRuntime.Refusals.{reduce-IsAtomic}
use labrastro_vscode_extensi.SessionRuntime.Locality.{lookup-reduce_other}
use labrastro_vscode_extensi.SessionRuntime.Succession.{run-Evolves}
use labrastro_vscode_extensi.SessionRuntime.Succession.Writes.{Evolves}
use labrastro_vscode_extensi.SessionRuntime.RoundTrips.{succeeds, settle-begin}
use labrastro_vscode_extensi.SessionRuntime.Rollback.{settle-begin_failed}
use labrastro_vscode_extensi.SessionRuntime.Summaries.{Unrepeated, visible_projection_for-summaries}
use labrastro_vscode_extensi.SessionRuntime.PendingTurns.{
  RemovesFirst, remove_pending_next_turn-RemovesFirst,
}
use labrastro_vscode_extensi.SessionRuntime.StatusEvents.{reduce-status}

abbrev turn : String → View
turn id = ("clientRequestId", string id) ∷ ("text", string "go on") ∷ []

abbrev scope_of : String → String → List View → Scope
scope_of id branch turns = record {
  scope_id = id;
  session_run_id = "run";
  branch_binding_id = branch;
  agent_run_id = "agent";
  active_activation_id = none;
  runtime_revision = 4;
  status = running;
  stream_cursor = none;
  pending_next_turns = turns;
  pending_approvals = [];
  pending_user_inputs = [];
  operations_by_id = [];
  transcript = none;
  stats = none;
}

abbrev main_scope : Scope
main_scope = scope_of "run:main" "main" (turn "q1" ∷ turn "q2" ∷ [])

abbrev side_scope : Scope
side_scope = scope_of "run:side" "side" []

abbrev new_scope : Scope
new_scope = scope_of "run:new" "new" []

abbrev empty_stats : Stats
empty_stats = record { run_status = some running; others = [] }

abbrev shown_main : Projection
shown_main = record {
  selected_scope_id = some "run:main";
  selected_branch_binding_id = "main";
  selected_transcript = [];
  selected_stats = empty_stats;
  selected_runtime_status = running;
  branch_summaries = [];
}

abbrev two_branches : Model
two_branches = record {
  scopes = ("run:main", main_scope) ∷ ("run:side", side_scope) ∷ [];
  visible = shown_main;
}

scope_of-ScopeIsValid :
    (id branch : String) (turns : List View) → id ≢ "" → ScopeIsValid (scope_of id branch turns)
scope_of-ScopeIsValid id branch turns n = record { named = n; operations = tt }

main_named : ◌≢◌ {A = String} "run:main" ""
main_named = ne_of_test "run:main" "" refl

side_named : ◌≢◌ {A = String} "run:side" ""
side_named = ne_of_test "run:side" "" refl

new_named : ◌≢◌ {A = String} "run:new" ""
new_named = ne_of_test "run:new" "" refl

two_branches-IsValid : IsValid two_branches
unfolding lookup same stats_for_scope
two_branches-IsValid = record {
  distinct = (refl, (refl, tt));
  entries = (
    record { keyed = refl; valid = scope_of-ScopeIsValid "run:main" "main" _ main_named },
    (record { keyed = refl; valid = scope_of-ScopeIsValid "run:side" "side" [] side_named }, tt),
  );
  shows = λ id e.
      subst
        (λ i.
          (i ≢ "")
          × ((s : Scope) × (lookup i two_branches.scopes ≡ some s) × ShowsScope shown_main s))
        (some-injective "run:main" id e)
        (
          main_named,
          (
            main_scope,
            refl,
            record { branch = refl; transcript = refl; stats = refl; status = refl },
          ),
        );
}

abbrev waiting_update : StatusUpdate
waiting_update = record {
  type = is_waiting;
  target = scope_target "run:main";
  agent_run_id = some "agent";
  runtime_revision = some 5;
  status = none;
  transcript = none;
  stats = none;
}

abbrev waiting_event : Event
waiting_event = runtime_status waiting_update

abbrev side_target : Target
side_target = record {
  session_run_id = some "run";
  branch_binding_id = some "side";
  scope_id = none;
}

abbrev second : Removal
second = record { client_request_id = some "q2"; queued_at = none; text = some "" }

reduce-IsValid_example : IsValid (reduce two_branches waiting_event).model
reduce-IsValid_example = reduce-IsValid two_branches waiting_event two_branches-IsValid tt

reduce-IsAtomic_example : (reduce two_branches (scope_delete "run:main")).model ≡ two_branches
unfolding reduce delete_scope lookup same rejected
reduce-IsAtomic_example = (reduce-IsAtomic two_branches (scope_delete "run:main") refl).0

lookup-reduce_other_example :
    lookup "run:main" (reduce two_branches (scope_delete "run:side")).model.scopes
    ≡ lookup "run:main" two_branches.scopes
lookup-reduce_other_example =
    lookup-reduce_other two_branches (scope_delete "run:side") "run:main" two_branches-IsValid tt
      (ne_of_test "run:side" "run:main" refl, tt)

abbrev history : List Event
history = waiting_event ∷ select_branch (scope_target "run:side") ∷ scope_delete "run:main" ∷ []

run-Evolves_example : Evolves two_branches.scopes (run two_branches history).scopes
run-Evolves_example =
    run-Evolves two_branches history two_branches-IsValid (refl, (refl, (refl, tt)))

abbrev steering : Operation
steering = record {
  operation_id = "op";
  kind = steer;
  scope_id = "run:main";
  source_identity_revision = 1;
  active_session_run_id = none;
  source_session_run_id = some "run";
  source_branch_binding_id = some "main";
  source_agent_run_id = none;
  target_branch_binding_id = none;
  visible = true;
  optimistic_effect = none;
}

settle-begin_example :
    (reduce
      (reduce two_branches (operation_begin steering none false)).model
      (operation_settle success (scope_target "run:main") "op" steer)).model.scopes
    ≡ two_branches.scopes
unfolding lookup same branch_create_operation_has_source_scope operation_source_conflicts
settle-begin_example =
    (settle-begin two_branches steering main_scope success two_branches-IsValid refl refl refl refl
      (succeeds refl)).0

abbrev branching : Operation
branching = record {
  operation_id = "op";
  kind = branch_create;
  scope_id = "run:new";
  source_identity_revision = 1;
  active_session_run_id = none;
  source_session_run_id = some "run";
  source_branch_binding_id = some "main";
  source_agent_run_id = some "agent";
  target_branch_binding_id = some "new";
  visible = true;
  optimistic_effect = some (record { rollback = shown_main });
}

settle-begin_failed_example :
    let begun = (reduce two_branches (operation_begin branching (some new_scope) true)).model in
    let r = reduce begun (operation_settle failure (scope_target "run:new") "op" branch_create) in
    (c : Scope) × (lookup c.scope_id two_branches.scopes ≡ some c)
    × (some "main" ≡ some c.branch_binding_id)
    × (r.model.scopes ≡ two_branches.scopes)
    × (r.model.visible.selected_scope_id ≡ some c.scope_id)
    × (r.effects
        ≡ operation_settled "run:new" "op" branch_create
          ∷ scope_deleted "run:new"
          ∷ projection_updated r.model.visible
          ∷ visible_rollback "run:new" "op" shown_main
          ∷ [])
unfolding lookup insert same upsert_scope branch_create_operation_has_source_scope has_source_fields
    target_is_new branch_create_source_scope scope_agent_run_conflicts select_branch_projection
    resolve_event_scope resolve_event_scope_id put_scope scope_matches_target is_source
settle-begin_failed_example =
    settle-begin_failed two_branches branching new_scope (record { rollback = shown_main })
      two_branches-IsValid (scope_of-ScopeIsValid "run:new" "new" [] new_named) refl refl refl refl
      refl refl refl

visible_projection_for-summaries_example :
    Unrepeated []
      (map (λ x. x.scope_id) (visible_projection_for two_branches side_scope).branch_summaries)
unfolding lookup same
visible_projection_for-summaries_example =
    (visible_projection_for-summaries two_branches side_scope two_branches-IsValid refl).1

remove_pending_next_turn-RemovesFirst_example :
    RemovesFirst second
      (turn "q1" ∷ turn "q2" ∷ [])
      (remove_pending_next_turn (turn "q1" ∷ turn "q2" ∷ []) second)
remove_pending_next_turn-RemovesFirst_example =
    remove_pending_next_turn-RemovesFirst second (turn "q1" ∷ turn "q2" ∷ [])

reduce-status_example :
    let n = (reduce two_branches waiting_event).model in
    (t : Scope) × (lookup "run:main" n.scopes ≡ some t)
    × (t.status ≡ waiting)
    × ((stats_for_scope t).run_status ≡ some waiting)
    × (t.runtime_revision ≡ 5)
    × (two_branches.visible.selected_scope_id ≡ some "run:main"
        → (n.visible.selected_runtime_status ≡ waiting)
          × (n.visible.selected_stats.run_status ≡ some waiting))
unfolding resolve_event_scope resolve_event_scope_id scope_matches_target scope_agent_run_conflicts
    status_for_event_type lookup same
reduce-status_example =
    reduce-status two_branches waiting_update main_scope two_branches-IsValid refl refl refl

resolve_event_scope_iff_example :
    (resolve_event_scope two_branches side_target ≡ some side_scope)
    ↔ Names two_branches side_target side_scope
resolve_event_scope_iff_example = resolve_event_scope_iff two_branches side_target side_scope
