-- ===== src/SessionRuntime/Visible.antt =====
-- The visible projection of SessionRuntimeReducer.ts: what the webview shows of the selected
-- scope, and the summaries of the branches of its run.
use labrastro_vscode_extensi.Base.{
  String, Bool, not, Option, none, some, if◌then◌else◌, ◌==◌, or_else, holds_text, List, [], ◌∷◌,
  ◌++◌, map, keep, any, length,
}
use labrastro_vscode_extensi.Base.Dict.{Dict, lookup, values, spread}
use labrastro_vscode_extensi.SessionRuntime.Model.{Stats, Summary, Projection, Scope, Model, Target}
use labrastro_vscode_extensi.SessionRuntime.Clone.{clone_records}
use labrastro_vscode_extensi.SessionRuntime.Resolve.{resolve_event_scope}

abbrev pub no_stats : Stats
no_stats = record { run_status = none; others = [] }

unfoldable pub stats_for_scope : Scope → Stats
stats_for_scope s =
    let stats = or_else s.stats no_stats in
    record stats { run_status = some (or_else stats.run_status s.status) }

unfoldable pub branch_summary_for_scope : Scope → Summary
branch_summary_for_scope s = record {
  scope_id = s.scope_id;
  session_run_id = s.session_run_id;
  branch_binding_id = s.branch_binding_id;
  agent_run_id = s.agent_run_id;
  status = s.status;
  pending_next_turn_count = length s.pending_next_turns;
  pending_approval_count = length s.pending_approvals;
  pending_user_input_count = length s.pending_user_inputs;
  operation_count = length s.operations_by_id;
}

-- `new Map(scopes.map((scope) => [key, scope]))`
unfoldable pub map_by : (Scope → String) → List Scope → Dict Scope
map_by key scopes = spread [] (map (λ s. (key s, s)) scopes)

abbrev pub or_option {ℓ} : {A : Type ℓ} → Option A → Option A → Option A
or_option none o = o
or_option (some a) o = some a

abbrev pub contains : String → List String → Bool
contains k = any (λ j. j == k)

-- One round of the `flatMap`: the scope that takes the summary's place, if it stays.
unfoldable pub preserved_scope :
    String → Dict Scope → Dict Scope → List String → Summary → Option Scope
preserved_scope run by_id by_branch covered summary =
    if not (summary.session_run_id == run)
    then none
    else elim (or_option (lookup summary.scope_id by_id)
        (lookup summary.branch_binding_id by_branch)) [
          | none ↦ none
          | some s ↦ if contains s.scope_id covered then none else some s
        ]

-- The `flatMap`: the preserved scopes in order; `covered` is the set that it fills.
unfoldable pub preserved :
    String → Dict Scope → Dict Scope → List String → List Summary → List Scope
preserved run by_id by_branch covered [] = []
preserved run by_id by_branch covered (x ∷ xs) =
    elim (preserved_scope run by_id by_branch covered x) [
      | none ↦ preserved run by_id by_branch covered xs
      | some s ↦ s ∷ preserved run by_id by_branch (s.scope_id ∷ covered) xs
    ]

unfoldable pub covered_scopes : Dict Scope → Scope → List Summary → List Scope
covered_scopes scopes selected existing =
    let run = selected.session_run_id in
    let run_scopes = keep (λ s. s.session_run_id == run) (values scopes) in
    let kept =
      preserved run (map_by (λ s. s.scope_id) run_scopes)
        (map_by (λ s. s.branch_binding_id) run_scopes) [] existing in
    if contains selected.scope_id (map (λ s. s.scope_id) kept) then kept else kept ++ selected ∷ []

unfoldable pub branch_summaries_for_scopes : Dict Scope → Scope → List Summary → List Summary
branch_summaries_for_scopes scopes selected existing =
    map branch_summary_for_scope (covered_scopes scopes selected existing)

unfoldable pub visible_projection_for : Model → Scope → Projection
visible_projection_for m s = record {
  selected_scope_id = some s.scope_id;
  selected_branch_binding_id = s.branch_binding_id;
  selected_transcript = clone_records (or_else s.transcript []);
  selected_stats = stats_for_scope s;
  selected_runtime_status = s.status;
  branch_summaries = branch_summaries_for_scopes m.scopes s m.visible.branch_summaries;
}

abbrev pub is_selected : Model → String → Bool
is_selected m id = holds_text m.visible.selected_scope_id id

unfoldable pub select_branch_projection : Model → Target → Model
select_branch_projection m t = elim (resolve_event_scope m t) [
  | none ↦ m
  | some s ↦ record m { visible = visible_projection_for m s }
]

unfoldable pub refresh_visible_if_selected : Model → String → Model
refresh_visible_if_selected m id = if not (is_selected m id) then m else elim (lookup id m.scopes) [
  | none ↦ m
  | some s ↦ record m { visible = visible_projection_for m s }
]
