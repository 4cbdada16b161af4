-- ===== src/SessionRuntime/Store.antt =====
-- The class of SessionRuntimeStore.ts: each method that changes the store takes the model that the
-- store holds and gives the next one, with what the method returns.
pub mod Settling
pub mod Reachable
pub mod Calls
pub mod Answers
pub mod Unconfirmed
mod Tests
use labrastro_vscode_extensi.Base.{
  ℕ, String, Bool, true, false, not, ◌&&◌, ◌||◌, ◌+◌, Option, none, some, if◌then◌else◌, ◌==◌,
  or_else, given, given_other, is_some, holds_text, List, [], ◌∷◌, ◌++◌, keep, eqb,
}
use labrastro_vscode_extensi.Base.Dict.{lookup, insert, values}
use labrastro_vscode_extensi.SessionRuntime.Model.{
  View, Status, idle, queued, running, waiting, stopping, Kind, start, branch_create, branch_select,
  Stats, Operation, Scope, Model, Effect, projection_updated, Target, Outcome, success, failure,
  Event, scope_upsert, scope_delete, operation_begin, operation_settle,
}
use labrastro_vscode_extensi.SessionRuntime.Resolve.{
  scope_id_for, scope_target, resolve_event_scope,
}
use labrastro_vscode_extensi.SessionRuntime.Visible.{is_selected, select_branch_projection}
use labrastro_vscode_extensi.SessionRuntime.Operations.{same_kind}
use labrastro_vscode_extensi.SessionRuntime.Reducer.{reduce}

abbrev pub empty_session_runtime_model : Model
empty_session_runtime_model = record {
  scopes = [];
  visible = record {
    selected_scope_id = none;
    selected_branch_binding_id = "";
    selected_transcript = [];
    selected_stats = record { run_status = some idle; others = [] };
    selected_runtime_status = idle;
    branch_summaries = [];
  };
}

-- The fields of `SessionRuntimeSelectedMainlineIdentity` that the store reads.
pub record MainlineIdentity : Type 0 where
  pub session_run_id : Option String
  pub branch_binding_id : Option String
  pub agent_run_id : Option String

-- The fields of an answer of the server.
pub record Response : Type 0 where
  pub session_run_id : Option String
  pub branch_binding_id : Option String
  pub agent_run_id : Option String

pub record Criteria : Type 0 where
  pub operation_id : Option String
  pub operation_kind : Option Kind
  pub visible : Option Bool

abbrev pub same_flag : Bool → Bool → Bool
same_flag true b = b
same_flag false b = not b

-- `a === b` of two optional texts
abbrev pub same_text : Option String → Option String → Bool
same_text none none = true
same_text (some a) (some b) = a == b
same_text _ _ = false

unfoldable pub meets : Criteria → Operation → Bool
meets criteria o =
    not (given_other criteria.operation_id o.operation_id)
    && (elim criteria.operation_kind [ none ↦ true | some kind ↦ same_kind o.kind kind ]
        && elim criteria.visible [ none ↦ true | some visible ↦ same_flag o.visible visible ])

abbrev pub operations_in : Criteria → List Scope → List Operation
operations_in criteria [] = []
operations_in criteria (s ∷ rest) =
    keep (meets criteria) (values s.operations_by_id) ++ operations_in criteria rest

unfoldable pub find_operations : Model → Criteria → List Operation
find_operations m criteria = operations_in criteria (values m.scopes)

abbrev pub only : List Operation → Option Operation
only (o ∷ []) = some o
only _ = none

unfoldable pub find_operation : Model → Criteria → Option Operation
find_operation m criteria = only (find_operations m criteria)

abbrev pub current_operation : Model → Option Operation
current_operation m =
    find_operation m (record { operation_id = none; operation_kind = none; visible = some true })

unfoldable pub select_branch_in : Model → Target → List Effect × Model
select_branch_in m target = elim (resolve_event_scope m target) [
  | none ↦ ([], m)
  | some _ ↦
      let next = select_branch_projection m target in (projection_updated next.visible ∷ [], next)
]

unfoldable pub begin_in_store : Model → Operation → List Effect × Model
begin_in_store m o = let r = reduce m (operation_begin o none false) in (r.effects, r.model)

abbrev pub pending_next_turns_for_scope : Model → String → List View
pending_next_turns_for_scope m id = elim (lookup id m.scopes) [
  | none ↦ []
  | some s ↦ s.pending_next_turns
]

abbrev pub has_scope : Model → String → String → Bool
has_scope m run branch = is_some (lookup (scope_id_for run branch) m.scopes)

unfoldable pub selected_scope_matches : Model → String → String → Option String → Bool
selected_scope_matches m run branch agent = elim (given m.visible.selected_scope_id) [
  | none ↦ false
  | some id ↦ elim (lookup id m.scopes) [
    | none ↦ false
    | some s ↦
        s.session_run_id == run
        && (s.branch_binding_id == branch && not (given_other agent s.agent_run_id))
  ]
]

abbrev pub stream_status_is_open : Status → Bool
stream_status_is_open queued = true
stream_status_is_open running = true
stream_status_is_open waiting = true
stream_status_is_open stopping = true
stream_status_is_open _ = false

abbrev pub stream_scope_is_open : Model → String → String → Bool
stream_scope_is_open m run branch = elim (lookup (scope_id_for run branch) m.scopes) [
  | none ↦ false
  | some s ↦ stream_status_is_open s.status
]

abbrev pub stream_cursor_for_scope : Model → String → String → ℕ
stream_cursor_for_scope m run branch = elim (lookup (scope_id_for run branch) m.scopes) [
  | none ↦ 0
  | some s ↦ or_else s.stream_cursor 0
]

pub record EnsureInput : Type 0 where
  pub session_run_id : String
  pub branch_binding_id : String
  pub agent_run_id : Option String
  pub active_activation_id : Option String
  pub runtime_revision : Option ℕ
  pub status : Option Status
  pub stream_cursor : Option ℕ
  pub select : Bool

-- `a || b` and `a ?? b` where both may be absent
abbrev pub either {ℓ} : {A : Type ℓ} → Option A → Option A → Option A
either none b = b
either (some a) b = some a

-- `{ ...(stats || {}), runStatus: status }`
abbrev pub with_run_status : Option Stats → Status → Stats
with_run_status stats status = record {
  run_status = some status;
  others = elim stats [ none ↦ [] | some s ↦ s.others ];
}

-- The scope of a branch that is new, or that takes up what the existing one has.
unfoldable pub new_scope : EnsureInput → String → Scope
new_scope input agent =
    let status = or_else input.status running in
    record {
      scope_id = scope_id_for input.session_run_id input.branch_binding_id;
      session_run_id = input.session_run_id;
      branch_binding_id = input.branch_binding_id;
      agent_run_id = agent;
      active_activation_id = given input.active_activation_id;
      runtime_revision = or_else input.runtime_revision 1;
      status = status;
      stream_cursor = input.stream_cursor;
      pending_next_turns = [];
      pending_approvals = [];
      pending_user_inputs = [];
      operations_by_id = [];
      transcript = none;
      stats = some (with_run_status none status);
    }

unfoldable pub renewed_scope : EnsureInput → Scope → String → Scope
renewed_scope input s agent =
    let status = or_else input.status s.status in
    record {
      scope_id = scope_id_for input.session_run_id input.branch_binding_id;
      session_run_id = input.session_run_id;
      branch_binding_id = input.branch_binding_id;
      agent_run_id = agent;
      active_activation_id =
          either (given input.active_activation_id) (given s.active_activation_id);
      runtime_revision = or_else input.runtime_revision s.runtime_revision;
      status = status;
      stream_cursor = either input.stream_cursor s.stream_cursor;
      pending_next_turns = s.pending_next_turns;
      pending_approvals = s.pending_approvals;
      pending_user_inputs = s.pending_user_inputs;
      operations_by_id = s.operations_by_id;
      transcript = s.transcript;
      stats = some (with_run_status s.stats status);
    }

unfoldable pub ensure_branch_runtime_scope : Model → EnsureInput → Bool × Model
ensure_branch_runtime_scope m input =
    elim (lookup (scope_id_for input.session_run_id input.branch_binding_id) m.scopes) [
      | none ↦ elim (given input.agent_run_id) [
        | none ↦ (false, m)
        | some agent ↦ (true, (reduce m (scope_upsert (new_scope input agent) input.select)).model)
      ]
      | some s ↦ elim (given (some s.agent_run_id)) [
        | none ↦ elim (given input.agent_run_id) [
          | none ↦ (false, m)
          | some agent ↦
              (true, (reduce m (scope_upsert (renewed_scope input s agent) input.select)).model)
        ]
        | some agent ↦
            if given_other input.agent_run_id agent
            then (false, m)
            else (true, (reduce m (scope_upsert (renewed_scope input s agent) input.select)).model)
      ]
    ]

-- `existing?.agentRunId && existing.agentRunId !== input.agentRunId`
abbrev pub is_claimed : Option Scope → Option String → Bool
is_claimed none agent = false
is_claimed (some s) agent = elim (given (some s.agent_run_id)) [
  | none ↦ false
  | some own ↦ not (holds_text agent own)
]

unfoldable pub restore_bootstrap_scope_if_unclaimed : Model → EnsureInput → Bool × Model
restore_bootstrap_scope_if_unclaimed m input =
    if selected_scope_matches m input.session_run_id input.branch_binding_id input.agent_run_id
    then (true, m)
    else if is_some (given m.visible.selected_scope_id)
    then (false, m)
    else if is_claimed (lookup (scope_id_for input.session_run_id input.branch_binding_id) m.scopes)
        input.agent_run_id
    then (false, m)
    else ensure_branch_runtime_scope m (record input { select = true })

unfoldable pub record_stream_cursor :
    Model → String → String → ℕ → Option Status → List Effect × Model
record_stream_cursor m run branch cursor status = elim (lookup (scope_id_for run branch) m.scopes) [
  | none ↦ ([], m)
  | some s ↦
      let next_status = or_else status s.status in
      let r = reduce m (
        scope_upsert
          (record s {
            status = next_status;
            stream_cursor = some cursor;
            runtime_revision = s.runtime_revision + 1;
            stats = some (with_run_status s.stats next_status);
          })
          false) in
      (r.effects, r.model)
]
