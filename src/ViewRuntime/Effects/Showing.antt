-- ===== src/ViewRuntime/Effects/Showing.antt =====
-- What the view shows once a projection was applied.
use labrastro_vscode_extensi.Base.{
  String, Bool, true, false, sym, subst, ◌∙◌, or_else, given, List, [], ◌∷◌, ◌++◌, ◌≡◌, refl, arith,
  inl, inr, Option-cases,
}
use labrastro_vscode_extensi.SessionRuntime.Model.{
  Status, idle, queued, running, waiting, stopping, cancelled, done, error, interrupted,
}
use labrastro_vscode_extensi.ViewRuntime.Model.{Projection}
use labrastro_vscode_extensi.ViewRuntime.Effects.{
  Call, ViewState, perform, perform_all, runtime_state_calls, normalize_visible_runtime_status,
  projection_calls, set_branch_summaries, replace_current_turns,
}

-- A run in this status is at work.
abbrev pub is_active : Status → Bool
is_active queued = true
is_active running = true
is_active waiting = true
is_active stopping = true
is_active _ = false

-- The timer after a run in this status is shown.
abbrev pub timer_for : Bool → Status → Bool
timer_for had running = true
timer_for had stopping = had
timer_for had _ = false

-- What the view shows of a projection, with the timer that it had before: it has one if the run is
-- running, keeps the one it had while it is stopping, and has none otherwise.
pub record ShowsProjection (had : Bool) (v : ViewState) (p : Projection) : Type 0 where
  pub branch : v.selected_branch_binding_id ≡ p.selected_branch_binding_id
  pub run : v.active_session_run_id ≡ p.selected_session_run_id
  pub summaries : v.branch_summaries ≡ p.branch_summaries
  pub status : v.session_run_status ≡ normalize_visible_runtime_status p.selected_runtime_status
  pub working : v.is_working ≡ is_active p.selected_runtime_status
  pub timed : v.timer ≡ timer_for had (normalize_visible_runtime_status p.selected_runtime_status)
  pub transcript :
      (rest : List Call) × (v.handed_on
        ≡ replace_current_turns p.selected_transcript p.selected_stats ∷ rest)

-- The calls that end the application of a projection in the status `s`.
abbrev last_calls : Bool → Projection → Status → List Call
last_calls had p s =
    runtime_state_calls had (normalize_visible_runtime_status s)
    ++ set_branch_summaries p.branch_summaries
      ∷ replace_current_turns p.selected_transcript p.selected_stats
      ∷ []

-- The state in which these calls leave a view.
abbrev after_last : ViewState → Projection → Status → String → String → ViewState
after_last v p s text elapsed = record v {
  session_run_status = normalize_visible_runtime_status s;
  is_working = is_active s;
  working_text = text;
  branch_summaries = p.branch_summaries;
  timer = timer_for v.timer (normalize_visible_runtime_status s);
  working_elapsed = elapsed;
  handed_on = replace_current_turns p.selected_transcript p.selected_stats ∷ v.handed_on;
}

last-eq :
    (had : Bool) (v : ViewState) (p : Projection) (s : Status)
    → v.timer ≡ had
    → (text : String) × (elapsed : String) × (perform_all v (last_calls had p s)
        ≡ after_last v p s text elapsed)
unfolding perform_all perform runtime_state_calls normalize_visible_runtime_status
last-eq had v p idle e = (_, _, refl)
last-eq true v p queued e = ("处理中", v.working_elapsed, ground (arith, e))
last-eq false v p queued e = (_, _, refl)
last-eq true v p running e = ("处理中", v.working_elapsed, ground (arith, e))
last-eq false v p running e = (_, _, refl)
last-eq true v p waiting e = ("处理中", v.working_elapsed, ground (arith, e))
last-eq false v p waiting e = (_, _, refl)
last-eq had v p stopping e = (_, _, refl)
last-eq had v p cancelled e = (_, _, refl)
last-eq had v p done e = (_, _, refl)
last-eq had v p error e = (_, _, refl)
last-eq had v p interrupted e = (_, _, refl)

-- The state after the calls for a projection that come first.
abbrev identified : ViewState → Projection → String → ViewState
identified v p session = record v {
  selected_branch_binding_id = p.selected_branch_binding_id;
  active_session_run_id = p.selected_session_run_id;
  current_run_session_id = session;
}

identified-eq :
    (v : ViewState) (p : Projection)
    → perform_all v (projection_calls v.timer p)
      ≡ perform_all
          (identified v p (or_else (given p.selected_session_id) v.current_run_session_id))
          (last_calls v.timer p p.selected_runtime_status)
unfolding perform_all perform projection_calls
identified-eq v p = elim (Option-cases (given p.selected_session_id)) [
  | inl e ↦ rw e refl
  | inr (id, e) ↦ rw e refl
]

projection-eq :
    (v : ViewState) (p : Projection)
    → (session : String) × (text : String) × (elapsed : String) × (perform_all v
          (projection_calls v.timer p)
        ≡ after_last (identified v p session) p p.selected_runtime_status text elapsed)
projection-eq v p =
    let session = or_else (given p.selected_session_id) v.current_run_session_id in
    let (text, elapsed, e) =
      last-eq v.timer (identified v p session) p p.selected_runtime_status refl in
    (session, text, elapsed, identified-eq v p ∙ e)

-- The view after a projection was applied shows it.
pub projection_calls-ShowsProjection :
    (v : ViewState) (p : Projection)
    → ShowsProjection v.timer (perform_all v (projection_calls v.timer p)) p
projection_calls-ShowsProjection v p =
    let (session, text, elapsed, e) = projection-eq v p in
    subst (λ w. ShowsProjection v.timer w p) (sym e)
      (record {
        branch = refl;
        run = refl;
        summaries = refl;
        status = refl;
        working = refl;
        timed = refl;
        transcript = (v.handed_on, refl);
      })
