-- ===== src/SessionRuntime/Store/Calls.antt =====
-- The calls that the extension host makes of the store, one after the other.
use labrastro_vscode_extensi.Base.{
  ℕ, String, Bool, true, false, not, Option, none, some, if◌then◌else◌, given, List, [], ◌∷◌, ◌≡◌,
  refl, arith, inl, inr, Option-cases, All,
}
use labrastro_vscode_extensi.SessionRuntime.Model.{
  Status, Kind, start, branch_create, Operation, Model, Target, Outcome, success, failure, Event,
  operation_begin,
}
use labrastro_vscode_extensi.SessionRuntime.Resolve.{resolve_event_scope}
use labrastro_vscode_extensi.SessionRuntime.Operations.{same_kind}
use labrastro_vscode_extensi.SessionRuntime.Reducer.{reduce}
use labrastro_vscode_extensi.SessionRuntime.Invariant.{IsValid, EventIsValid}
use labrastro_vscode_extensi.SessionRuntime.Invariant.Events.{reduce-IsValid}
use labrastro_vscode_extensi.SessionRuntime.Invariant.Writes.{select-IsValid}
use labrastro_vscode_extensi.SessionRuntime.Store.{
  MainlineIdentity, Response, EnsureInput, meets, select_branch_in, begin_in_store,
  ensure_branch_runtime_scope, restore_bootstrap_scope_if_unclaimed, record_stream_cursor,
  empty_session_runtime_model,
}
use labrastro_vscode_extensi.SessionRuntime.Store.Settling.{
  settle, outcome_of, named, confirm_start_operation, accepts_start_success,
  accepts_branch_create_success, settle_named, accepts_control_success, settle_branch_local_success,
  accepts_failure, clear_visible_operations, start_source_still_current,
  operation_still_current_for_failure,
}
use labrastro_vscode_extensi.SessionRuntime.Store.Reachable.{
  settle-IsValid, found-IsValid, ensure-IsValid, restore-IsValid, record-IsValid, confirm-IsValid,
  clear-IsValid,
}

-- `settled` stands for the three methods that look for an operation and settle it as it is.
pub data Call : Type 0 where
  reduced : Event → Call
  selected : Target → Call
  begun : Operation → Call
  ensured restored : EnsureInput → Call
  cursor_recorded : String → String → ℕ → Option Status → Call
  start_succeeded : String → Option MainlineIdentity → ℕ → Response → Call
  branch_create_succeeded : String → Option MainlineIdentity → ℕ → String → Call
  control_succeeded : String → Kind → Option MainlineIdentity → ℕ → Response → Call
  local_succeeded : String → Kind → Response → Call
  failed : String → Kind → Option MainlineIdentity → ℕ → Call
  settled : String → Kind → Bool → Outcome → Call
  visible_cleared : Call

unfoldable pub perform : Model → Call → Model
perform m (reduced e) = (reduce m e).model
perform m (selected t) = (select_branch_in m t).1
perform m (begun o) = (begin_in_store m o).1
perform m (ensured input) = (ensure_branch_runtime_scope m input).1
perform m (restored input) = (restore_bootstrap_scope_if_unclaimed m input).1
perform m (cursor_recorded run branch cursor status) =
    (record_stream_cursor m run branch cursor status).1
perform m (start_succeeded id mainline revision response) =
    (accepts_start_success m id mainline revision response).1
perform m (branch_create_succeeded id mainline revision branch) =
    (accepts_branch_create_success m id mainline revision branch).1
perform m (control_succeeded id kind mainline revision response) =
    (accepts_control_success m id kind mainline revision response).1
perform m (local_succeeded id kind response) = (settle_branch_local_success m id kind response).1
perform m (failed id kind mainline revision) = (accepts_failure m id kind mainline revision).1
perform m (settled id kind visible outcome) = (settle_named m id kind visible outcome).1
perform m visible_cleared = clear_visible_operations m

unfoldable pub perform_all : Model → List Call → Model
perform_all m [] = m
perform_all m (call ∷ rest) = perform_all (perform m call) rest

-- Only an event from outside can bring in a scope that the store did not make.
abbrev pub CallIsValid : Call → Type 0
CallIsValid (reduced e) = EventIsValid e
CallIsValid _ = Unit {0}

abbrev pub CallsAreValid : List Call → Type 0
CallsAreValid calls = All CallIsValid calls

select_branch_in-IsValid : (m : Model) (t : Target) → IsValid m → IsValid (select_branch_in m t).1
unfolding select_branch_in
select_branch_in-IsValid m t v = elim (Option-cases (resolve_event_scope m t)) [
  | inl e ↦ rw (e, select_branch_in) v
  | inr (s, e) ↦ rw (e, select_branch_in) (select-IsValid m t v.distinct v.entries (λ _. v))
]

meets-kind :
    (id : String) (kind : Kind) (visible : Bool) (o : Operation)
    → meets (named id kind visible) o ≡ true
    → same_kind o.kind kind ≡ true
unfolding meets
meets-kind id kind visible o h = ground (arith, h)

start-only : (kind : Kind) → same_kind kind start ≡ true → kind ≡ start
start-only start h = refl
start-only _ h = absurd (cc)

accepts_start_success-IsValid :
    (m : Model) (id : String) (mainline : Option MainlineIdentity) (revision : ℕ)
    (response : Response)
    → IsValid m
    → IsValid (accepts_start_success m id mainline revision response).1
unfolding accepts_start_success
accepts_start_success-IsValid m id mainline revision response v =
    found-IsValid m (named id start true) _ v λ o h.
      branches o (start-only o.kind (meets-kind id start true o h))
        (start_source_still_current mainline revision o) (given response.session_run_id)
        (given response.branch_binding_id)
  where
    branches :
        (o : Operation)
        → o.kind ≡ start
        → (accepted : Bool) (run branch : Option String)
        → IsValid (
            if not accepted then settle m o (outcome_of accepted) else elim run as (λ _. Model) [
              | none ↦ settle m o (outcome_of accepted)
              | some run ↦ elim branch as (λ _. Model) [
                | none ↦ settle m o (outcome_of accepted)
                | some branch ↦ confirm_start_operation m o run branch response.agent_run_id
              ]
            ])
    branches o k false run branch = settle-IsValid m o failure v
    branches o k true none branch = settle-IsValid m o success v
    branches o k true (some run) none = settle-IsValid m o success v
    branches o k true (some run) (some branch) =
        confirm-IsValid m o run branch response.agent_run_id k v

accepts_failure-IsValid :
    (m : Model) (id : String) (kind : Kind) (mainline : Option MainlineIdentity) (revision : ℕ)
    → IsValid m
    → IsValid (accepts_failure m id kind mainline revision).1
unfolding accepts_failure
accepts_failure-IsValid m id kind mainline revision v =
    found-IsValid m (named id kind true) _ v
      λ o h. branches o (operation_still_current_for_failure mainline revision o)
  where
    branches :
        (o : Operation) (accepted : Bool) → IsValid (if accepted then settle m o failure else m)
    branches o true = settle-IsValid m o failure v
    branches o false = v

perform-IsValid :
    (m : Model) (call : Call) → IsValid m → CallIsValid call → IsValid (perform m call)
unfolding perform begin_in_store accepts_branch_create_success accepts_control_success
    settle_branch_local_success settle_named
perform-IsValid m (reduced e) v w = reduce-IsValid m e v w
perform-IsValid m (selected t) v w = select_branch_in-IsValid m t v
perform-IsValid m (begun o) v w = reduce-IsValid m (operation_begin o none false) v tt
perform-IsValid m (ensured input) v w = ensure-IsValid m input v
perform-IsValid m (restored input) v w = restore-IsValid m input v
perform-IsValid m (cursor_recorded run branch cursor status) v w =
    record-IsValid m run branch cursor status v
perform-IsValid m (start_succeeded id mainline revision response) v w =
    accepts_start_success-IsValid m id mainline revision response v
perform-IsValid m (branch_create_succeeded id mainline revision branch) v w =
    found-IsValid m (named id branch_create true) _ v λ o h. settle-IsValid m o _ v
perform-IsValid m (control_succeeded id kind mainline revision response) v w =
    found-IsValid m (named id kind true) _ v λ o h. settle-IsValid m o _ v
perform-IsValid m (local_succeeded id kind response) v w =
    found-IsValid m (named id kind false) _ v λ o h. settle-IsValid m o _ v
perform-IsValid m (failed id kind mainline revision) v w =
    accepts_failure-IsValid m id kind mainline revision v
perform-IsValid m (settled id kind visible outcome) v w =
    found-IsValid m (named id kind visible) _ v λ o h. settle-IsValid m o outcome v
perform-IsValid m visible_cleared v w = clear-IsValid m v

perform_all_keeps-IsValid :
    (m : Model) (calls : List Call)
    → IsValid m
    → CallsAreValid calls
    → IsValid (perform_all m calls)
unfolding perform_all
perform_all_keeps-IsValid m [] v w = v
perform_all_keeps-IsValid m (call ∷ rest) v w =
    perform_all_keeps-IsValid (perform m call) rest (perform-IsValid m call v w.0) w.1

-- Whatever calls reach a new store, if the scopes that outside events bring in are well formed: its
-- model is well formed. The scope ids are distinct and the scopes' own, and a selected scope exists
-- and is what the projection shows.
pub perform_all-IsValid :
    (calls : List Call)
    → CallsAreValid calls
    → IsValid (perform_all empty_session_runtime_model calls)
perform_all-IsValid calls w =
    perform_all_keeps-IsValid empty_session_runtime_model calls
      (record { distinct = tt; entries = tt; shows = λ id e. absurd (cc) }) w
