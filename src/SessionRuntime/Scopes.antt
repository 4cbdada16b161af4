-- ===== src/SessionRuntime/Scopes.antt =====
-- The writes to the scopes in SessionRuntimeReducer.ts: `upsertScope`, `deleteScope`,
-- `updateScope`, and the change that a status event makes to a scope.
pub mod Contents
use mathlib.Core.Option
use labrastro_vscode_extensi.Base.{
  ℕ, String, Bool, true, false, ◌&&◌, ◌||◌, Option, none, some, if◌then◌else◌, ◌==◌, or_else, given,
  is_some, List, [], ◌∷◌, ◌++◌, take, drop, find_index, suc,
}
use labrastro_vscode_extensi.Base.Dict.{lookup, insert, erase, spread}
use labrastro_vscode_extensi.SessionRuntime.Model.{
  Value, string, View, Status, running, waiting, stopping, cancelled, done, error, interrupted,
  Stats, Scope, Model, Reduction, Effect, unknown_scope, wrong_target, scope_updated, scope_deleted,
  projection_updated, StatusType, is_running, is_waiting, is_stopping, is_cancelled, is_stopped,
  is_done, is_error, is_interrupted, StatusUpdate, Removal,
}
use labrastro_vscode_extensi.SessionRuntime.Clone.{clone_scope, clone_records}
use labrastro_vscode_extensi.SessionRuntime.Resolve.{
  scope_agent_run_conflicts, rejected, scope_target, next_revision,
}
use labrastro_vscode_extensi.SessionRuntime.Visible.{
  no_stats, stats_for_scope, is_selected, select_branch_projection, refresh_visible_if_selected,
}

-- `{ ...model, scopes: { ...model.scopes, [scope.scopeId]: cloneScope(scope) } }`
unfoldable pub put_scope : Model → Scope → Model
put_scope m s = record m { scopes = insert s.scope_id (clone_scope s) m.scopes }

unfoldable pub upsert_scope : Model → Scope → Bool → Reduction
upsert_scope m s select =
    if scope_agent_run_conflicts (lookup s.scope_id m.scopes) (some s.agent_run_id)
    then record {
      model = m;
      effects = rejected wrong_target "sessionRun.scope.upsert" (some s.scope_id) ∷ [];
    }
    else record {
      model =
          if select
          then select_branch_projection (put_scope m s) (scope_target s.scope_id)
          else refresh_visible_if_selected (put_scope m s) s.scope_id;
      effects = scope_updated s.scope_id ∷ [];
    }

unfoldable pub delete_scope : Model → String → Reduction
delete_scope m id = elim (lookup id m.scopes) [
  | none ↦ record {
    model = m;
    effects = rejected unknown_scope "sessionRun.scope.delete" (some id) ∷ [];
  }
  | some _ ↦
      if is_selected m id
      then record {
        model = m;
        effects = rejected wrong_target "sessionRun.scope.delete" (some id) ∷ [];
      }
      else record {
        model = record m { scopes = erase id m.scopes };
        effects = scope_deleted id ∷ [];
      }
]

unfoldable pub update_scope : Model → Scope → Reduction
update_scope m s =
    let next = refresh_visible_if_selected (put_scope m s) s.scope_id in
    record {
      model = next;
      effects =
          scope_updated s.scope_id
          ∷ (if is_selected next s.scope_id then projection_updated next.visible ∷ [] else []);
    }

-- The types `sessionRun.stopped` and `sessionRun.done` both end in `done`.
unfoldable pub status_for_event_type : StatusType → Status
status_for_event_type is_running = running
status_for_event_type is_waiting = waiting
status_for_event_type is_stopping = stopping
status_for_event_type is_cancelled = cancelled
status_for_event_type is_stopped = done
status_for_event_type is_done = done
status_for_event_type is_error = error
status_for_event_type is_interrupted = interrupted

-- `{ ...a, ...b, runStatus: status }`
spread_stats : Stats → Stats → Status → Stats
spread_stats a b status = record { run_status = some status; others = spread a.others b.others }

unfoldable pub apply_runtime_status : Scope → StatusUpdate → Scope
unfolding spread_stats
apply_runtime_status s e =
    let status = or_else e.status (status_for_event_type e.type) in
    record s {
      status = status;
      runtime_revision = next_revision s e.runtime_revision;
      agent_run_id = or_else (given e.agent_run_id) s.agent_run_id;
      transcript = elim e.transcript [ none ↦ s.transcript | some t ↦ some (clone_records t) ];
      stats = some (spread_stats (stats_for_scope s) (or_else e.stats no_stats) status);
    }

-- `removal && turn.key === removal`
removal_matches : View → String → Option String → Bool
removal_matches turn key removal = elim (given removal) [
  | none ↦ false
  | some r ↦ elim (lookup key turn) [ some (string v) ↦ v == r | _ ↦ false ]
]

unfoldable pub is_removed : Removal → View → Bool
unfolding removal_matches
is_removed r turn =
    removal_matches turn "clientRequestId" r.client_request_id
    || (removal_matches turn "queuedAt" r.queued_at || removal_matches turn "text" r.text)

unfoldable pub remove_pending_next_turn : List View → Removal → List View
remove_pending_next_turn turns r = elim (find_index (is_removed r) turns) [
  | none ↦ turns
  | some index ↦ take index turns ++ drop (suc index) turns
]
