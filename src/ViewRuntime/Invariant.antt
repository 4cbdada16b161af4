-- ===== src/ViewRuntime/Invariant.antt =====
-- The well-formedness of the webview's model: the scopes stand under their own ids, and a selected
-- scope is there and is what the projection shows.
pub mod Writes
pub mod Steps
pub mod Messages
use labrastro_vscode_extensi.Base.{
  String, Bool, true, false, not, ◌&&◌, ◌||◌, Option, none, some, or_else, ◌≡◌, ◌≢◌, refl, arith,
  List, [], ◌∷◌, ◌==◌, given, inl, inr, Option-cases, Bool-cases, sym, subst, ◌∙◌, ap, same,
  if◌then◌else◌, is_some, holds_text,
}
use labrastro_vscode_extensi.Base.Dict.{
  Dict, lookup, insert, erase, lookup-insert_self, lookup-insert_ne, lookup-erase_ne,
}
use labrastro_vscode_extensi.Base.DictKeys.{
  Distinct, Entries, Entries-insert, Entries-erase, Entries-lookup, Distinct-insert, Distinct-erase,
}
use labrastro_vscode_extensi.SessionRuntime.Model.{branch_create, Target, Stats}
use labrastro_vscode_extensi.SessionRuntime.Resolve.{scope_id_for, scope_target}
use labrastro_vscode_extensi.SessionRuntime.Store.Reachable.{scope_id_for-ne}
use labrastro_vscode_extensi.ViewRuntime.Model.{
  Operation, Scope, Projection, Model, Message, scope_upsert, operation_pending,
}
use labrastro_vscode_extensi.ViewRuntime.Visible.{
  scope_matches_target, matching, resolve_message_scope, is_selected, stats_run_status,
  projection_for, select_session_runtime_scope, refresh_visible, put_scope, update_scope,
}

-- The creation of a branch has another source than the branch `branch`.
abbrev pub IsApart : String → Operation → Type 0
IsApart branch o = o.kind ≡ branch_create → o.source_branch_binding_id ≢ some branch

-- The creation of a branch names another branch as its source.
abbrev pub OperationIsValid : Operation → Type 0
OperationIsValid o =
    o.kind ≡ branch_create → o.target_branch_binding_id ≢ o.source_branch_binding_id

-- An operation of a scope stands under its own id, and is apart from the scope's branch.
abbrev pub IsOwn : String → String → Operation → Type 0
IsOwn branch id o = (o.operation_id ≡ id) × IsApart branch o

pub record ScopeIsValid (s : Scope) : Type 0 where
  pub named : s.scope_id ≢ ""
  pub operations : Entries (IsOwn s.branch_binding_id) s.operations_by_id

pub record EntryIsValid (id : String) (s : Scope) : Type 0 where
  pub keyed : s.scope_id ≡ id
  pub valid : ScopeIsValid s

-- The statistics that are shown: those of the scope, with a run status.
abbrev pub shown_stats : Scope → Stats
shown_stats s = record s.stats {
  run_status = some (or_else s.stats.run_status (stats_run_status s.status));
}

pub record ShowsScope (p : Projection) (s : Scope) : Type 0 where
  pub run : p.selected_session_run_id ≡ some s.session_run_id
  pub session : p.selected_session_id ≡ s.session_id
  pub branch : p.selected_branch_binding_id ≡ s.branch_binding_id
  pub transcript : p.selected_transcript ≡ s.turns
  pub stats : p.selected_stats ≡ shown_stats s
  pub status : p.selected_runtime_status ≡ s.status

abbrev pub Shows : Model → Type 0
Shows m =
    (id : String)
    → m.visible.selected_scope_id ≡ some id
    → (id ≢ "") × ((s : Scope) × (lookup id m.scopes ≡ some s) × ShowsScope m.visible s)

pub record IsValid (m : Model) : Type 0 where
  pub distinct : Distinct m.scopes
  pub entries : Entries EntryIsValid m.scopes
  pub shows : Shows m

-- What a message brings in is checked by nobody: a scope that it carries has to be valid, and the
-- creation of a branch has to name another branch as its source.
abbrev pub MessageIsValid : Message → Type 0
MessageIsValid (scope_upsert s select clear) = ScopeIsValid s
MessageIsValid (operation_pending o) = OperationIsValid o
MessageIsValid _ = Unit {0}

pub lookup-keyed :
    {m : Model} (id : String) (s : Scope)
    → IsValid m
    → lookup id m.scopes ≡ some s
    → EntryIsValid id s
lookup-keyed {m} id s v e = Entries-lookup EntryIsValid id s m.scopes v.entries e

given-ne-empty : (o : Option String) (s : String) → given o ≡ some s → s ≢ ""
given-ne-empty none s e = cc
given-ne-empty (some t) s e = ground arith

matching-eq :
    (o : Option Scope) (t : Target) (s : Scope)
    → matching o t ≡ some s
    → (o ≡ some s) × (scope_matches_target s t ≡ true)
unfolding matching
matching-eq none t s e = absurd (cc)
matching-eq (some x) t s e = ground (arith, e)

-- A scope that a message names stands under a non-empty id and agrees with what the message says.
pub resolve_message_scope_sound :
    (m : Model) (t : Target) (s : Scope)
    → resolve_message_scope m t ≡ some s
    → (id : String) × (id ≢ "") × (lookup id m.scopes ≡ some s) × (scope_matches_target s t ≡ true)
unfolding resolve_message_scope
resolve_message_scope_sound m t s e = elim (Option-cases (given t.scope_id)) [
  | inr (i, g) ↦
      let f = matching-eq (lookup i m.scopes) t s (ground (arith, e, g)) in
      (i, given-ne-empty t.scope_id i g, f.0, f.1)
  | inl g ↦ elim (Option-cases (given t.session_run_id)) [
    | inl h ↦ absurd (ground (arith, e, g, h))
    | inr (run, h) ↦ elim (Option-cases (given t.branch_binding_id)) [
      | inl k ↦ absurd (ground (arith, e, g, h, k))
      | inr (branch, k) ↦
          let f =
            matching-eq (lookup (scope_id_for run branch) m.scopes) t s
              (ground (arith, e, g, h, k)) in
          (scope_id_for run branch, scope_id_for-ne run branch, f.0, f.1)
    ]
  ]
]

-- A message that names a scope by its id alone finds it.
pub resolve-scope_target :
    (m : Model) (id : String) (s : Scope)
    → id ≢ ""
    → lookup id m.scopes ≡ some s
    → resolve_message_scope m (scope_target id) ≡ some s
unfolding resolve_message_scope matching scope_matches_target
resolve-scope_target m id s n e = ground (arith, n, e)
