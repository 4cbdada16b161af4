-- ===== src/SessionRuntime/Resolve/Sound.antt =====
-- What it means that the reducer finds a scope for an event.
use Prim.Native.String
use text.Mathlib.TextLemmas.{cons-append}
use labrastro_vscode_extensi.Base.{
  String, Bool, true, false, Option, none, some, ◌≡◌, ◌≢◌, refl, arith, given, inl, inr,
  Option-cases, ap,
}
use labrastro_vscode_extensi.Base.Dict.{lookup}
use labrastro_vscode_extensi.SessionRuntime.Model.{Scope, Model, Target}
use labrastro_vscode_extensi.SessionRuntime.Resolve.{
  scope_id_for, scope_matches_target, resolve_by_id, resolve_by_branch, resolve_event_scope_id,
  resolve_event_scope, scope_target,
}

abbrev is_empty : String → Bool
is_empty String.[] = true
is_empty (String.◌∷◌ _ _) = false

append-ne-empty : (s t : String) → s ≢ "" → String.◌++◌ s t ≢ ""
append-ne-empty String.[] t h = absurd (h refl)
append-ne-empty (String.◌∷◌ c s) t h =
    rw cons-append (λ e. let f : false ≡ true = ap is_empty e in cc)

scope_id_for-ne-empty : (run branch : String) → run ≢ "" → scope_id_for run branch ≢ ""
unfolding scope_id_for
scope_id_for-ne-empty run branch h = append-ne-empty run _ h

abbrev Found : Model → Target → String → Scope → Type 0
Found m t id s = (id ≢ "") × (lookup id m.scopes ≡ some s) × (scope_matches_target s t ≡ true)

resolve_by_id_sound :
    (m : Model) (t : Target) (i j : String) (s : Scope)
    → i ≢ ""
    → resolve_by_id m t i ≡ some j
    → lookup j m.scopes ≡ some s
    → Found m t j s
unfolding resolve_by_id
resolve_by_id_sound m t i j s n e l = ground arith

resolve_by_branch_sound :
    (m : Model) (t : Target) (run branch j : String) (s : Scope)
    → run ≢ ""
    → resolve_by_branch m t run branch ≡ some j
    → lookup j m.scopes ≡ some s
    → Found m t j s
unfolding resolve_by_branch
resolve_by_branch_sound m t run branch j s n e l =
    resolve_by_id_sound m t (scope_id_for run branch) j s (scope_id_for-ne-empty run branch n) e l

given-ne-empty : (o : Option String) (s : String) → given o ≡ some s → s ≢ ""
given-ne-empty none s e = cc
given-ne-empty (some t) s e = ground arith

pub resolve_event_scope_id_sound :
    (m : Model) (t : Target) (j : String) (s : Scope)
    → resolve_event_scope_id m t ≡ some j
    → lookup j m.scopes ≡ some s
    → Found m t j s
unfolding resolve_event_scope_id
resolve_event_scope_id_sound m t j s e l = elim (Option-cases (given t.scope_id)) [
  | inr (i, g) ↦ resolve_by_id_sound m t i j s (given-ne-empty t.scope_id i g) (ground (arith, g)) l
  | inl g ↦ elim (Option-cases (given t.session_run_id)) [
    | inl h ↦ absurd (ground (arith, g, h))
    | inr (run, h) ↦ elim (Option-cases (given t.branch_binding_id)) [
      | inl k ↦ absurd (ground (arith, g, h, k))
      | inr (branch, k) ↦
          resolve_by_branch_sound m t run branch j s (given-ne-empty t.session_run_id run h)
            (ground (arith, g, h, k)) l
    ]
  ]
]

-- What the tests of the code have checked of a scope that it finds.
pub resolve_event_scope_sound :
    (m : Model) (t : Target) (s : Scope)
    → resolve_event_scope m t ≡ some s
    → (id : String) × (id ≢ "") × (lookup id m.scopes ≡ some s) × (scope_matches_target s t ≡ true)
unfolding resolve_event_scope
resolve_event_scope_sound m t s e = elim (Option-cases (resolve_event_scope_id m t)) [
  | inl n ↦ absurd (ground (arith, n))
  | inr (id, n) ↦
      let l : lookup id m.scopes ≡ some s = ground (arith, n) in
      let (a, b, c) = resolve_event_scope_id_sound m t id s n l in (id, a, b, c)
]

-- An event that names a scope by its id alone finds it.
pub resolve-scope_target :
    (m : Model) (id : String) (s : Scope)
    → id ≢ ""
    → lookup id m.scopes ≡ some s
    → resolve_event_scope m (scope_target id) ≡ some s
unfolding resolve_event_scope resolve_event_scope_id resolve_by_id scope_matches_target
resolve-scope_target m id s n e = ground arith

pub resolve-scope_target_empty :
    (m : Model) (id : String) → id ≡ "" → resolve_event_scope m (scope_target id) ≡ none
unfolding resolve_event_scope resolve_event_scope_id
resolve-scope_target_empty m id e = ground arith

pub resolve-scope_target_absent :
    (m : Model) (id : String)
    → lookup id m.scopes ≡ none
    → resolve_event_scope m (scope_target id) ≡ none
unfolding resolve_event_scope resolve_event_scope_id resolve_by_id
resolve-scope_target_absent m id e = ground arith
