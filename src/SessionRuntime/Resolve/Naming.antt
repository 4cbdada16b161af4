-- ===== src/SessionRuntime/Resolve/Naming.antt =====
-- Which scope an event names, said without the tests of SessionRuntimeReducer.ts.
use labrastro_vscode_extensi.Base.{
  String, Option, none, some, given, given_other, false, true, ◌≡◌, ◌≢◌, ◌↔◌, ◌⊎◌, inl, inr, arith,
  Option-cases, sym, subst,
}
use labrastro_vscode_extensi.Base.Dict.{lookup}
use labrastro_vscode_extensi.SessionRuntime.Model.{Scope, Model, Target}
use labrastro_vscode_extensi.SessionRuntime.Resolve.{
  scope_id_for, scope_matches_target, resolve_by_id, resolve_by_branch, resolve_event_scope_id,
  resolve_event_scope,
}
use labrastro_vscode_extensi.SessionRuntime.Resolve.Sound.{resolve_event_scope_id_sound}

-- The id that an event names: the one it holds, or else that of its run and its branch.
pub data NamesId (t : Target) : String → Type 0 where
  by_id : (id : String) → given t.scope_id ≡ some id → NamesId t id
  by_branch :
      (run branch : String)
      → given t.scope_id ≡ none
      → given t.session_run_id ≡ some run
      → given t.branch_binding_id ≡ some branch
      → NamesId t (scope_id_for run branch)

-- The event says nothing, or it says this text.
abbrev pub Agrees : Option String → String → Type 0
Agrees o x = (given o ≡ none) ⊎ (given o ≡ some x)

-- The scope stands under the id that the event names, and has the run and the branch that the event
-- names.
pub record Names (m : Model) (t : Target) (s : Scope) : Type 0 where
  pub id : String
  pub named : NamesId t id
  pub non_empty : id ≢ ""
  pub found : lookup id m.scopes ≡ some s
  pub same_run : Agrees t.session_run_id s.session_run_id
  pub same_branch : Agrees t.branch_binding_id s.branch_binding_id

given_other-Agrees : (o : Option String) (x : String) → given_other o x ≡ false → Agrees o x
given_other-Agrees o x h = elim (Option-cases (given o)) [
  | inl e ↦ inl e
  | inr (a, e) ↦ inr (ground (arith, h, e))
]

Agrees-given_other : (o : Option String) (x : String) → Agrees o x → given_other o x ≡ false
Agrees-given_other o x (inl e) = ground (arith, e)
Agrees-given_other o x (inr e) = ground (arith, e)

matches-Agrees :
    (s : Scope) (t : Target)
    → scope_matches_target s t ≡ true
    → Agrees t.session_run_id s.session_run_id × Agrees t.branch_binding_id s.branch_binding_id
unfolding scope_matches_target
matches-Agrees s t h =
    let run : given_other t.session_run_id s.session_run_id ≡ false = ground (arith, h) in
    let branch : given_other t.branch_binding_id s.branch_binding_id ≡ false = ground (arith, h) in
    (
      given_other-Agrees t.session_run_id s.session_run_id run,
      given_other-Agrees t.branch_binding_id s.branch_binding_id branch,
    )

Agrees-matches :
    (s : Scope) (t : Target)
    → Agrees t.session_run_id s.session_run_id
    → Agrees t.branch_binding_id s.branch_binding_id
    → scope_matches_target s t ≡ true
unfolding scope_matches_target
Agrees-matches s t a b = ground (
  arith,
  Agrees-given_other t.session_run_id s.session_run_id a,
  Agrees-given_other t.branch_binding_id s.branch_binding_id b,
)

resolve_by_id-eq : (m : Model) (t : Target) (i j : String) → resolve_by_id m t i ≡ some j → j ≡ i
unfolding resolve_by_id
resolve_by_id-eq m t i j e = ground (arith, e)

resolve_by_id-found :
    (m : Model) (t : Target) (i : String) (s : Scope)
    → lookup i m.scopes ≡ some s
    → scope_matches_target s t ≡ true
    → resolve_by_id m t i ≡ some i
unfolding resolve_by_id
resolve_by_id-found m t i s l h = ground (arith, l, h)

resolve_event_scope_id-NamesId :
    (m : Model) (t : Target) (j : String) → resolve_event_scope_id m t ≡ some j → NamesId t j
unfolding resolve_event_scope_id resolve_by_branch
resolve_event_scope_id-NamesId m t j e = elim (Option-cases (given t.scope_id)) [
  | inr (i, g) ↦
      let h : resolve_by_id m t i ≡ some j = ground (arith, e, g) in
      subst (NamesId t) (sym (resolve_by_id-eq m t i j h)) (by_id i g)
  | inl g ↦ elim (Option-cases (given t.session_run_id)) [
    | inl h ↦ absurd (ground (arith, e, g, h))
    | inr (run, h) ↦ elim (Option-cases (given t.branch_binding_id)) [
      | inl k ↦ absurd (ground (arith, e, g, h, k))
      | inr (branch, k) ↦
          let r : resolve_by_id m t (scope_id_for run branch) ≡ some j =
            ground (arith, e, g, h, k) in
          subst (NamesId t) (sym (resolve_by_id-eq m t (scope_id_for run branch) j r))
            (by_branch run branch g h k)
    ]
  ]
]

NamesId-resolve_event_scope_id :
    (m : Model) (t : Target) (id : String) (s : Scope)
    → NamesId t id
    → lookup id m.scopes ≡ some s
    → scope_matches_target s t ≡ true
    → resolve_event_scope_id m t ≡ some id
unfolding resolve_event_scope_id resolve_by_branch
NamesId-resolve_event_scope_id m t id s (by_id _ g) l h =
    ground (arith, g, resolve_by_id-found m t id s l h)
NamesId-resolve_event_scope_id m t id s (by_branch run branch g r b) l h =
    ground (arith, g, r, b, resolve_by_id-found m t (scope_id_for run branch) s l h)

-- The host finds a scope for an event exactly when the event names that scope: the scope stands under
-- the non-empty id that the event holds, or, if it holds none, under that of its run and its branch,
-- and it is of the run and of the branch that the event names, where it names them.
pub resolve_event_scope_iff :
    (m : Model) (t : Target) (s : Scope) → (resolve_event_scope m t ≡ some s) ↔ Names m t s
unfolding resolve_event_scope
resolve_event_scope_iff m t s = (
  λ e. elim (Option-cases (resolve_event_scope_id m t)) [
    | inl n ↦ absurd (ground (arith, n, e))
    | inr (id, n) ↦
        let found : lookup id m.scopes ≡ some s = ground (arith, n, e) in
        let (non_empty, _, matches) = resolve_event_scope_id_sound m t id s n found in
        let (run, branch) = matches-Agrees s t matches in
        record {
          id = id;
          named = resolve_event_scope_id-NamesId m t id n;
          non_empty = non_empty;
          found = found;
          same_run = run;
          same_branch = branch;
        }
  ],
  λ names.
      let matches = Agrees-matches s t names.same_run names.same_branch in
      let resolved =
        NamesId-resolve_event_scope_id m t names.id s names.named names.found matches in
      let found = names.found in ground (arith, resolved, found),
)
