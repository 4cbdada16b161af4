-- ===== src/SessionRuntime/StatusEvents.antt =====
-- What a status event that is not refused leaves behind: the scope, its statistics and the
-- projection agree on the new status.
use labrastro_vscode_extensi.Base.{false, some, or_else, ◌≡◌, refl, arith, sym, ◌∙◌, ap}
use labrastro_vscode_extensi.Base.Dict.{lookup}
use labrastro_vscode_extensi.SessionRuntime.Model.{Scope, Model, StatusUpdate, runtime_status}
use labrastro_vscode_extensi.SessionRuntime.Resolve.{
  resolve_event_scope, scope_agent_run_conflicts, is_stale, next_revision,
}
use labrastro_vscode_extensi.SessionRuntime.Visible.{stats_for_scope}
use labrastro_vscode_extensi.SessionRuntime.Scopes.{
  update_scope, apply_runtime_status, status_for_event_type,
}
use labrastro_vscode_extensi.SessionRuntime.Scopes.Contents.{update_scope-lookup}
use labrastro_vscode_extensi.SessionRuntime.Reducer.{with_scope, status_body, reduce}
use labrastro_vscode_extensi.SessionRuntime.Invariant.{IsValid}
use labrastro_vscode_extensi.SessionRuntime.Invariant.Events.{reduce-IsValid}
use labrastro_vscode_extensi.SessionRuntime.Rollback.Cleanup.{update_scope-selected}

module _ (m : Model) (e : StatusUpdate) (s : Scope) (v : IsValid m)
    (found : resolve_event_scope m e.target ≡ some s)
    (fresh : is_stale s e.runtime_revision ≡ false)
    (agrees : scope_agent_run_conflicts (some s) e.agent_run_id ≡ false) where
  reduced : reduce m (runtime_status e) ≡ update_scope m (apply_runtime_status s e)
  unfolding reduce with_scope status_body
  reduced = ground (arith, found, fresh, agrees)

  applied_id : (apply_runtime_status s e).scope_id ≡ s.scope_id
  unfolding apply_runtime_status
  applied_id = refl

  -- The event's own status, or else that of its type, becomes the status of the scope and the run
  -- status of its statistics; the revision is the event's, or else one more than before. If the
  -- scope is the selected one, the projection shows the same status in both places.
  pub reduce-status :
      let n = (reduce m (runtime_status e)).model in
      let status = or_else e.status (status_for_event_type e.type) in
      (t : Scope) × (lookup s.scope_id n.scopes ≡ some t)
      × (t.status ≡ status)
      × ((stats_for_scope t).run_status ≡ some status)
      × (t.runtime_revision ≡ next_revision s e.runtime_revision)
      × (m.visible.selected_scope_id ≡ some s.scope_id
          → (n.visible.selected_runtime_status ≡ status)
            × (n.visible.selected_stats.run_status ≡ some status))
  unfolding apply_runtime_status stats_for_scope
  reduce-status = (
    apply_runtime_status s e,
    stored,
    refl,
    refl,
    refl,
    λ q.
        let shown = valid.shows s.scope_id (selected ∙ q) in
        let t = shown.1.0 in
        let same_scope : some t ≡ some (apply_runtime_status s e) = sym shown.1.1 ∙ stored in
        let same : t ≡ apply_runtime_status s e = cc in
        (
          shown.1.2.status ∙ ap (λ x. x.status) same,
          ap (λ x. x.run_status) (shown.1.2.stats ∙ ap stats_for_scope same),
        ),
  )
    where
      valid : IsValid (reduce m (runtime_status e)).model
      valid = reduce-IsValid m (runtime_status e) v tt

      stored :
          lookup s.scope_id (reduce m (runtime_status e)).model.scopes
          ≡ some (apply_runtime_status s e)
      stored = rw reduced (update_scope-lookup m (apply_runtime_status s e))

      selected :
          (reduce m (runtime_status e)).model.visible.selected_scope_id
          ≡ m.visible.selected_scope_id
      selected = rw reduced (update_scope-selected m (apply_runtime_status s e))
