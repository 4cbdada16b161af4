-- ===== src/ViewRuntime/Visible.antt =====
-- sessionRuntimeReducer.ts of the webview: how a message finds its scope, and the projection that
-- shows the selected one. Values are immutable here, so a copy is the value itself.
use labrastro_vscode_extensi.Base.{
  String, Bool, true, false, not, ◌&&◌, Option, none, some, if◌then◌else◌, ◌==◌, or_else, given,
  given_other, holds_text, List, [], ◌∷◌, ◌++◌, map, keep, any,
}
use labrastro_vscode_extensi.Base.Dict.{Dict, lookup, insert, values, spread}
use labrastro_vscode_extensi.SessionRuntime.Model.{Status, queued, running, waiting, Target}
use labrastro_vscode_extensi.SessionRuntime.Resolve.{scope_id_for}
use labrastro_vscode_extensi.ViewRuntime.Model.{
  Summary, Scope, Projection, Model, Reduction, scope_updated, projection_updated,
}

unfoldable pub scope_matches_target : Scope → Target → Bool
scope_matches_target s t =
    not (given_other t.session_run_id s.session_run_id)
    && not (given_other t.branch_binding_id s.branch_binding_id)

-- `scope && scopeMatchesTarget(scope, target) ? scope : undefined`
unfoldable pub matching : Option Scope → Target → Option Scope
matching none t = none
matching (some s) t = if scope_matches_target s t then some s else none

unfoldable pub resolve_message_scope : Model → Target → Option Scope
resolve_message_scope m t = elim (given t.scope_id) [
  | some id ↦ matching (lookup id m.scopes) t
  | none ↦ elim (given t.session_run_id) [
    | none ↦ none
    | some run ↦ elim (given t.branch_binding_id) [
      | none ↦ none
      | some branch ↦ matching (lookup (scope_id_for run branch) m.scopes) t
    ]
  ]
]

abbrev pub is_selected : Model → String → Bool
is_selected m id = holds_text m.visible.selected_scope_id id

unfoldable pub selected_session_run_id : Model → Option String
selected_session_run_id m = elim (given m.visible.selected_scope_id) [
  | none ↦ none
  | some id ↦ elim (lookup id m.scopes) [ none ↦ none | some s ↦ some s.session_run_id ]
]

unfoldable pub stats_run_status : Status → Status
stats_run_status queued = running
stats_run_status waiting = running
stats_run_status status = status

-- `usedScopeIds.has(id)`, the set of the scopes of the summaries that are kept.
abbrev pub is_covered : String → List Summary → Bool
is_covered id = any (λ (x : Summary). x.scope_id == id)

-- `summary.scopeId || scopeIdFor(summary.sessionRunId, summary.branchBindingId)`
abbrev pub summary_scope_id : Summary → String
summary_scope_id x =
    or_else (given (some x.scope_id)) (scope_id_for x.session_run_id x.branch_binding_id)

abbrev pub renewed_summary : Scope → Summary → Scope → Summary
renewed_summary selected x s = record x {
  scope_id = s.scope_id;
  session_run_id = s.session_run_id;
  branch_binding_id = s.branch_binding_id;
  agent_run_id = elim (given s.agent_run_id) [ none ↦ x.agent_run_id | some agent ↦ some agent ];
  selected = s.scope_id == selected.scope_id;
  status = s.status;
}

unfoldable pub preserved_summaries : Dict Scope → Scope → List Summary → List Summary
preserved_summaries run_scopes selected [] = []
preserved_summaries run_scopes selected (x ∷ xs) = elim (lookup (summary_scope_id x) run_scopes) [
  | none ↦ preserved_summaries run_scopes selected xs
  | some s ↦ renewed_summary selected x s ∷ preserved_summaries run_scopes selected xs
]

abbrev pub generated_summary : Scope → Summary
generated_summary s = record {
  scope_id = s.scope_id;
  session_run_id = s.session_run_id;
  branch_binding_id = s.branch_binding_id;
  agent_run_id = given s.agent_run_id;
  base_session_item_id = "__root__";
  selected = true;
  status = s.status;
  current_index = 1;
  total_sibling_count = 1;
  others = [];
}

unfoldable pub summaries_for_scopes : Dict Scope → Scope → List Summary → List Summary
summaries_for_scopes scopes selected existing =
    let run_scopes : Dict Scope = spread [] (
      map (λ (s : Scope). (s.scope_id, s))
        (keep (λ (s : Scope). s.session_run_id == selected.session_run_id) (values scopes))) in
    let kept = preserved_summaries run_scopes selected existing in
    if is_covered selected.scope_id kept then kept else kept ++ generated_summary selected ∷ []

unfoldable pub projection_for : Model → Scope → Projection
projection_for m s = record {
  selected_scope_id = some s.scope_id;
  selected_session_run_id = some s.session_run_id;
  selected_session_id = s.session_id;
  selected_branch_binding_id = s.branch_binding_id;
  selected_transcript = s.turns;
  selected_stats = record s.stats {
    run_status = some (or_else s.stats.run_status (stats_run_status s.status));
  };
  selected_runtime_status = s.status;
  branch_summaries = summaries_for_scopes m.scopes s m.visible.branch_summaries;
}

unfoldable pub select_session_runtime_scope : Model → Target → Model
select_session_runtime_scope m t = elim (resolve_message_scope m t) [
  | none ↦ m
  | some s ↦ record m { visible = projection_for m s }
]

unfoldable pub refresh_visible : Model → String → Model
refresh_visible m id =
    if not (is_selected m id)
    then m
    else elim (lookup id m.scopes) [ none ↦ m | some s ↦ record m { visible = projection_for m s } ]

-- `{ ...model, scopes: { ...model.scopes, [scope.scopeId]: cloneScope(scope) } }`
unfoldable pub put_scope : Model → Scope → Model
put_scope m s = record m { scopes = insert s.scope_id s m.scopes }

-- `emit` is `options.emitVisibleProjection !== false`.
unfoldable pub update_scope : Model → Scope → Bool → Reduction
update_scope m s emit =
    let next = refresh_visible (put_scope m s) s.scope_id in
    record {
      model = next;
      effects =
          scope_updated s.scope_id
          ∷ (if emit && is_selected next s.scope_id
              then projection_updated next.visible ∷ []
              else []);
    }

unfoldable pub scope_agent_run_conflicts : Option Scope → Scope → Bool
scope_agent_run_conflicts none incoming = false
scope_agent_run_conflicts (some s) incoming = elim (given s.agent_run_id) [
  | none ↦ false
  | some own ↦ given_other incoming.agent_run_id own
]
