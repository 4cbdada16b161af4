-- ===== src/ViewRuntime/Agreement.antt =====
-- The two halves find the same branch for a target.
use labrastro_vscode_extensi.Base.{
  String, Option, none, some, ◌≡◌, refl, arith, given, if◌then◌else◌, inl, inr, Option-cases, ap,
  ◌∙◌,
}
use labrastro_vscode_extensi.Base.Dict.{lookup}
use labrastro_vscode_extensi.SessionRuntime.Model.{Target}
use labrastro_vscode_extensi.SessionRuntime.Model as Host
use labrastro_vscode_extensi.SessionRuntime.Resolve as Find
use labrastro_vscode_extensi.ViewRuntime.Model.{Scope, Model}
use labrastro_vscode_extensi.ViewRuntime.Visible.{
  scope_matches_target, matching, resolve_message_scope,
}

abbrev pub Identity : Type 0
Identity = Option (String × String)

abbrev pub host_identity : Option Host.Scope → Identity
host_identity none = none
host_identity (some s) = some (s.session_run_id, s.branch_binding_id)

abbrev pub view_identity : Option Scope → Identity
view_identity none = none
view_identity (some s) = some (s.session_run_id, s.branch_binding_id)

-- The halves know the same scopes: the same run and branch under each id.
abbrev pub KnowsSame : Host.Model → Model → Type 0
KnowsSame h m =
    (id : String) → host_identity (lookup id h.scopes) ≡ view_identity (lookup id m.scopes)

-- What the host finds under an id, if it fits the target.
abbrev fitting : Option Host.Scope → Target → Option Host.Scope
fitting none t = none
fitting (some s) t = if Find.scope_matches_target s t then some s else none

fitting-agrees :
    (s : Option Host.Scope) (w : Option Scope) (t : Target)
    → host_identity s ≡ view_identity w
    → host_identity (fitting s t) ≡ view_identity (matching w t)
unfolding Find.scope_matches_target scope_matches_target matching
fitting-agrees none none t e = refl
fitting-agrees none (some w) t e = absurd (cc)
fitting-agrees (some s) none t e = absurd (cc)
fitting-agrees (some s) (some w) t e =
    let run : s.session_run_id ≡ w.session_run_id = ground (arith, e) in
    let branch : s.branch_binding_id ≡ w.branch_binding_id = ground (arith, e) in
    ground (arith, run, branch)

resolve_by_id-eq :
    (h : Host.Model) (t : Target) (id : String)
    → given t.scope_id ≡ some id
    → Find.resolve_event_scope h t ≡ fitting (lookup id h.scopes) t
unfolding Find.resolve_event_scope Find.resolve_event_scope_id
resolve_by_id-eq h t id g = elim (Option-cases (lookup id h.scopes)) [
  | inl e ↦ ground (arith, g, e)
  | inr (s, e) ↦ ground (arith, g, e)
]

resolve_by_branch-eq :
    (h : Host.Model) (t : Target) (run branch : String)
    → given t.scope_id ≡ none
    → given t.session_run_id ≡ some run
    → given t.branch_binding_id ≡ some branch
    → Find.resolve_event_scope h t ≡ fitting (lookup (Find.scope_id_for run branch) h.scopes) t
unfolding Find.resolve_event_scope Find.resolve_event_scope_id
resolve_by_branch-eq h t run branch g a b =
    elim (Option-cases (lookup (Find.scope_id_for run branch) h.scopes)) [
      | inl e ↦ ground (arith, g, a, b, e)
      | inr (s, e) ↦ ground (arith, g, a, b, e)
    ]

-- If the host and the webview know the same run and branch under each scope id, they find the same
-- run and branch for every target, or both find nothing.
pub resolve_event_scope-agrees :
    (h : Host.Model) (m : Model) (t : Target)
    → KnowsSame h m
    → host_identity (Find.resolve_event_scope h t) ≡ view_identity (resolve_message_scope m t)
unfolding resolve_message_scope
resolve_event_scope-agrees h m t k = elim (Option-cases (given t.scope_id)) [
  | inr (id, g) ↦
      rw (g, resolve_message_scope)
        (ap host_identity (resolve_by_id-eq h t id g) ∙ fitting-agrees _ _ t (k id))
  | inl g ↦ elim (Option-cases (given t.session_run_id)) [
    | inl a ↦ unfold Find.resolve_event_scope Find.resolve_event_scope_id in ground (arith, g, a)
    | inr (run, a) ↦ elim (Option-cases (given t.branch_binding_id)) [
      | inl b ↦
          unfold Find.resolve_event_scope Find.resolve_event_scope_id in ground (arith, g, a, b)
      | inr (branch, b) ↦
          rw (g, a, b, resolve_message_scope)
            (ap host_identity (resolve_by_branch-eq h t run branch g a b)
              ∙ fitting-agrees _ _ t (k (Find.scope_id_for run branch)))
    ]
  ]
]
