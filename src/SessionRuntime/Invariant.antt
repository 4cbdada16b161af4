-- ===== src/SessionRuntime/Invariant.antt =====
-- The well-formedness of the runtime model: what the reducer relies on between two events.
pub mod Writes
pub mod Steps
pub mod Events
use labrastro_vscode_extensi.Base.{
  String, Bool, true, false, Option, none, some, or_else, ◌≡◌, ◌≢◌, refl, arith, List, [], ◌∷◌,
  ◌==◌, given, inl, inr, Option-cases, sym, subst, ◌∙◌,
}
use labrastro_vscode_extensi.Base.Dict.{Dict, lookup}
use labrastro_vscode_extensi.Base.DictKeys.{Distinct, Entries, Entries-lookup}
use labrastro_vscode_extensi.SessionRuntime.Model.{
  branch_create, Operation, Scope, Projection, Model, Target, Event, scope_upsert, operation_begin,
}
use labrastro_vscode_extensi.SessionRuntime.Resolve.{
  scope_matches_target, resolve_event_scope_id, resolve_event_scope,
}
use labrastro_vscode_extensi.SessionRuntime.Visible.{stats_for_scope}

-- The creation of a branch names another branch as its source.
abbrev pub OperationIsValid : Operation → Type 0
OperationIsValid o =
    o.kind ≡ branch_create → o.target_branch_binding_id ≢ o.source_branch_binding_id

-- The id of a scope is not empty, and its operations are valid.
pub record ScopeIsValid (s : Scope) : Type 0 where
  pub named : s.scope_id ≢ ""
  pub operations : Entries (λ _ o. OperationIsValid o) s.operations_by_id

-- A scope stands under its own id.
pub record EntryIsValid (id : String) (s : Scope) : Type 0 where
  pub keyed : s.scope_id ≡ id
  pub valid : ScopeIsValid s

-- The projection shows this scope: its branch, transcript, statistics and status.
pub record ShowsScope (p : Projection) (s : Scope) : Type 0 where
  pub branch : p.selected_branch_binding_id ≡ s.branch_binding_id
  pub transcript : p.selected_transcript ≡ or_else s.transcript []
  pub stats : p.selected_stats ≡ stats_for_scope s
  pub status : p.selected_runtime_status ≡ s.status

-- If a scope is selected, it is there, its id is not empty, and the projection shows it.
abbrev pub Shows : Model → Type 0
Shows m =
    (id : String)
    → m.visible.selected_scope_id ≡ some id
    → (id ≢ "") × ((s : Scope) × (lookup id m.scopes ≡ some s) × ShowsScope m.visible s)

pub record IsValid (m : Model) : Type 0 where
  pub distinct : Distinct m.scopes
  pub entries : Entries EntryIsValid m.scopes
  pub shows : Shows m

-- What an event brings in is checked by nobody: a scope that it carries has to be valid.
abbrev pub EventIsValid : Event → Type 0
EventIsValid (scope_upsert s select) = ScopeIsValid s
EventIsValid (operation_begin o (some s) select) = ScopeIsValid s
EventIsValid _ = Unit {0}

pub lookup-keyed :
    {m : Model} (id : String) (s : Scope)
    → IsValid m
    → lookup id m.scopes ≡ some s
    → EntryIsValid id s
lookup-keyed {m} id s v e = Entries-lookup EntryIsValid id s m.scopes v.entries e
