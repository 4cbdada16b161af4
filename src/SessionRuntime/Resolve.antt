-- ===== src/SessionRuntime/Resolve.antt =====
-- How SessionRuntimeReducer.ts finds the scope that an event names, and the tests that compare an
-- event with the scope. A text used as a test is false when it is absent or empty (`given`).
pub mod Sound
pub mod Naming
use Prim.Native.String
use labrastro_vscode_extensi.Base.{
  ℕ, String, Bool, true, false, not, ◌&&◌, ◌||◌, Option, none, some, if◌then◌else◌, ◌==◌, given,
  given_other, ltb, is_some, holds_text, List, find, suc, ◌+◌,
}
use labrastro_vscode_extensi.Base.Dict.{lookup, values}
use labrastro_vscode_extensi.SessionRuntime.Model.{
  Kind, branch_create, Model, Scope, Operation, Target, Reason, Effect, event_rejected,
}

-- `${sessionRunId}:${branchBindingId}`
unfoldable pub scope_id_for : String → String → String
scope_id_for session_run_id branch_binding_id =
    String.◌++◌ session_run_id (String.◌++◌ ":" branch_binding_id)

unfoldable pub scope_matches_target : Scope → Target → Bool
scope_matches_target s t =
    if given_other t.session_run_id s.session_run_id
    then false
    else if given_other t.branch_binding_id s.branch_binding_id
    then false
    else true

-- The first branch names the scope by its id, the second by its run and branch.
resolve_by_id : Model → Target → String → Option String
resolve_by_id m t id = elim (lookup id m.scopes) [
  | none ↦ some id
  | some s ↦ if scope_matches_target s t then some id else none
]

resolve_by_branch : Model → Target → String → String → Option String
resolve_by_branch m t run branch = resolve_by_id m t (scope_id_for run branch)

unfoldable pub resolve_event_scope_id : Model → Target → Option String
unfolding resolve_by_id resolve_by_branch
resolve_event_scope_id m t = elim (given t.scope_id) [
  | some id ↦ resolve_by_id m t id
  | none ↦ elim (given t.session_run_id) [
    | none ↦ none
    | some run ↦ elim (given t.branch_binding_id) [
      | none ↦ none
      | some branch ↦ resolve_by_branch m t run branch
    ]
  ]
]

-- A resolved id is never empty, so the test `scopeId ?` is that there is one.
unfoldable pub resolve_event_scope : Model → Target → Option Scope
resolve_event_scope m t = elim (resolve_event_scope_id m t) [
  | none ↦ none
  | some id ↦ lookup id m.scopes
]

abbrev pub scope_target : String → Target
scope_target id = record { session_run_id = none; branch_binding_id = none; scope_id = some id }

unfoldable pub has_scope_proof : Target → Bool
has_scope_proof t =
    is_some (given t.scope_id)
    || (is_some (given t.session_run_id) && is_some (given t.branch_binding_id))

-- `existing` is a scope or nothing; the incoming agent run may be absent or empty.
unfoldable pub scope_agent_run_conflicts : Option Scope → Option String → Bool
scope_agent_run_conflicts none incoming = false
scope_agent_run_conflicts (some s) incoming = elim (given (some s.agent_run_id)) [
  | none ↦ false
  | some existing ↦ given_other incoming existing
]

abbrev pub is_branch_create : Kind → Bool
is_branch_create branch_create = true
is_branch_create _ = false

unfoldable pub operation_source_conflicts : Scope → Operation → Bool
operation_source_conflicts s o =
    if is_branch_create o.kind && holds_text o.target_branch_binding_id s.branch_binding_id
    then false
    else if given_other o.source_session_run_id s.session_run_id
    then true
    else if given_other o.source_branch_binding_id s.branch_binding_id
    then true
    else if given_other o.source_agent_run_id s.agent_run_id
    then true
    else false

unfoldable pub has_source_fields : Operation → Bool
has_source_fields o =
    is_some (given o.source_session_run_id)
    && (is_some (given o.source_branch_binding_id) && is_some (given o.source_agent_run_id))

-- The test of `find` in `branchCreateSourceScope`.
unfoldable pub is_source : Scope → Operation → Scope → Bool
is_source s o candidate =
    candidate.session_run_id == s.session_run_id
    && (holds_text o.source_session_run_id candidate.session_run_id
        && (holds_text o.source_branch_binding_id candidate.branch_binding_id
            && holds_text o.source_agent_run_id candidate.agent_run_id))

unfoldable pub branch_create_source_scope : Model → Scope → Operation → Option Scope
branch_create_source_scope m s o =
    if not (is_branch_create o.kind)
    then none
    else if not (has_source_fields o)
    then none
    else find (is_source s o) (values m.scopes)

-- `target === source` compares two optional texts; the sources are present at that point.
unfoldable pub target_is_new : Operation → Bool
target_is_new o = elim (given o.target_branch_binding_id) [
  | none ↦ false
  | some target ↦ not (holds_text o.source_branch_binding_id target)
]

unfoldable pub branch_create_operation_has_source_scope : Model → Scope → Operation → Bool
branch_create_operation_has_source_scope m s o =
    if not (is_branch_create o.kind)
    then true
    else if not (has_source_fields o)
    then false
    else if not (target_is_new o)
    then false
    else is_some (branch_create_source_scope m s o)

unfoldable pub rejected : Reason → String → Option String → Effect
rejected reason event_type scope_id = event_rejected reason event_type (given scope_id)

abbrev pub next_revision : Scope → Option ℕ → ℕ
next_revision s none = s.runtime_revision + 1
next_revision s (some revision) = revision

-- `eventHasRuntimeRevision(event) && event.runtimeRevision < scope.runtimeRevision`
abbrev pub is_stale : Scope → Option ℕ → Bool
is_stale s none = false
is_stale s (some revision) = ltb revision s.runtime_revision
