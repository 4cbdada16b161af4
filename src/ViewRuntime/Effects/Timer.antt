-- ===== src/ViewRuntime/Effects/Timer.antt =====
-- The timer of the view under all effects.
use labrastro_vscode_extensi.Base.{Bool, true, sym, ◌∙◌, List, [], ◌∷◌, ◌≡◌, refl, arith}
use labrastro_vscode_extensi.SessionRuntime.Model.{
  Status, idle, cancelled, done, error, interrupted,
}
use labrastro_vscode_extensi.ViewRuntime.Model.{
  Restore, Projection, Effect, projection_updated, operation_restore, projection_error_stopped,
  working_stopped, shows_running, shows_terminal,
}
use labrastro_vscode_extensi.ViewRuntime.Effects.{
  ViewState, calls_for, perform, perform_all, finish, apply_effects, operation_restore_calls,
  working_stopped_calls, branch_projection_calls, running_calls, stopping_calls, error_calls,
  normalize_visible_runtime_status, projection_calls,
}
use labrastro_vscode_extensi.ViewRuntime.Effects.Showing.{
  is_active, timer_for, projection_calls-ShowsProjection,
}

-- The timer runs only while the view is working.
abbrev pub IsTimed : ViewState → Type 0
IsTimed v = v.timer ≡ true → v.is_working ≡ true

restore-IsTimed :
    (v : ViewState) (r : Restore) → IsTimed (perform_all v (operation_restore_calls v.timer r))
unfolding perform_all perform operation_restore_calls
restore-IsTimed v r h = ground (arith, h)

timer_for-active :
    (had : Bool) (s : Status)
    → timer_for had (normalize_visible_runtime_status s) ≡ true
    → is_active s ≡ true
unfolding normalize_visible_runtime_status
timer_for-active had idle h = cc
timer_for-active had cancelled h = cc
timer_for-active had done h = cc
timer_for-active had error h = cc
timer_for-active had interrupted h = cc
timer_for-active had _ h = refl

projection-IsTimed :
    (v : ViewState) (p : Projection) → IsTimed (perform_all v (projection_calls v.timer p))
projection-IsTimed v p h =
    let w = projection_calls-ShowsProjection v p in
    w.working ∙ timer_for-active v.timer p.selected_runtime_status (sym w.timed ∙ h)

apply-IsTimed :
    (v : ViewState) (effect : Effect)
    → IsTimed v
    → IsTimed (perform_all v (calls_for v.timer effect))
unfolding perform_all perform calls_for finish working_stopped_calls branch_projection_calls
    running_calls stopping_calls error_calls
apply-IsTimed v (projection_updated p) t = projection-IsTimed v p
apply-IsTimed v (operation_restore _ _ r) t = restore-IsTimed v r
apply-IsTimed v (shows_running text) t = λ h. ground (arith, h)
apply-IsTimed v (working_stopped _ _) t = λ h. h
apply-IsTimed v (shows_terminal _ _) t = λ h. h
apply-IsTimed v (projection_error_stopped _) t = λ h. h
apply-IsTimed v _ t = t

-- Whatever effects the view is given, its timer runs afterwards only while it is working, if this was
-- so before.
pub apply_effects-IsTimed :
    (v : ViewState) (effects : List Effect) → IsTimed v → IsTimed (apply_effects v effects)
unfolding apply_effects
apply_effects-IsTimed v [] t = t
apply_effects-IsTimed v (effect ∷ effects) t =
    apply_effects-IsTimed (perform_all v (calls_for v.timer effect)) effects
      (apply-IsTimed v effect t)
