-- ===== src/SessionRuntime/SourceIdentity/Soundness.antt =====
-- What a proven source identity rests on, and that an operation with it is current.
use labrastro_vscode_extensi.Base.{
  String, true, false, Option, none, some, ◌≡◌, ◌≢◌, refl, arith, inl, inr, ◌⊎◌, Option-cases,
  Bool-cases, given, ◌==◌, sym, ◌∙◌, subst, ap, ==_iff,
}
use labrastro_vscode_extensi.SessionRuntime.Model.{Operation}
use labrastro_vscode_extensi.SessionRuntime.Store.{MainlineIdentity}
use labrastro_vscode_extensi.SessionRuntime.Store.Settling.{source_still_current}
use labrastro_vscode_extensi.SessionRuntime.SourceIdentity.{
  SourceScope, selected_visible, branch_local, is_visible_scope, BranchIdentity, SelectedMainline,
  ResolvedIdentity, proven, IdentityInput, identity_for, text_of, branch_agent_run_id,
  resolve_in_run, resolve_source_identity,
}

-- The identity is that of the selected branch, at the present revision.
pub record IsSelected (i : IdentityInput) (w : SelectedMainline) (v : ResolvedIdentity)
    : Type 0 where
  pub marked : v.selected_branch ≡ true
  pub branch : text_of w.branch_binding_id ≡ v.source.branch_binding_id
  pub agent : text_of w.agent_run_id ≡ v.source.agent_run_id
  pub revision : v.source.source_identity_revision ≡ i.source_identity_revision

-- The identity is that of another branch, which the records of the branches name.
pub record IsListed (i : IdentityInput) (w : SelectedMainline) (v : ResolvedIdentity) : Type 0 where
  pub marked : v.selected_branch ≡ false
  pub background : i.scope ≡ branch_local
  pub agent : branch_agent_run_id w.branches v.source.branch_binding_id ≡ v.source.agent_run_id
  pub revision : v.source.source_identity_revision ≡ 0

pub record IsProven (i : IdentityInput) (v : ResolvedIdentity) : Type 0 where
  pub mainline : SelectedMainline
  pub known : i.selected_mainline ≡ some mainline
  pub run_named : given i.session_run_id ≡ some v.source.session_run_id
  pub run_own : given mainline.session_run_id ≡ some v.source.session_run_id
  pub target : given i.branch_binding_id ≡ some v.source.branch_binding_id
  pub agent_named : v.source.agent_run_id ≢ ""
  pub basis : IsSelected i mainline v ⊎ IsListed i mainline v

-- What `resolve_in_run` shows.
pub record IsProvenInRun (i : IdentityInput) (w : SelectedMainline) (run target : String)
    (v : ResolvedIdentity) : Type 0 where
  pub run_same : run ≡ v.source.session_run_id
  pub target_same : target ≡ v.source.branch_binding_id
  pub agent_named : v.source.agent_run_id ≢ ""
  pub basis : IsSelected i w v ⊎ IsListed i w v

given-eq : (s t : String) → given (some s) ≡ some t → (s ≡ t) × (t ≢ "")
given-eq s t e = (ground (arith, e), λ z. ground (arith, e, z))

is_local : (s : SourceScope) → is_visible_scope s ≡ false → s ≡ branch_local
is_local selected_visible e = absurd (cc)
is_local branch_local e = refl

resolve_in_run-proven :
    (i : IdentityInput) (w : SelectedMainline) (run target : String) (v : ResolvedIdentity)
    → resolve_in_run i w run target ≡ proven v
    → IsProvenInRun i w run target v
unfolding resolve_in_run
resolve_in_run-proven i w run target v e =
    elim (Bool-cases (text_of w.branch_binding_id == target)) [
      | inl s ↦ elim (Option-cases (given (some (text_of w.agent_run_id)))) [
        | inl a ↦ absurd (ground (arith, e, s, a))
        | inr (agent, a) ↦
            let (same_agent, filled) = given-eq (text_of w.agent_run_id) agent a in
            let q : identity_for i w run target agent true ≡ v = ground (arith, e, s, a) in
            subst (IsProvenInRun i w run target) q (record {
              run_same = refl;
              target_same = refl;
              agent_named = filled;
              basis = inl (record {
                marked = refl;
                branch = (==_iff (text_of w.branch_binding_id) target).0 s;
                agent = same_agent;
                revision = refl;
              });
            })
      ]
      | inr s ↦ elim (Bool-cases (is_visible_scope i.scope)) [
        | inl h ↦ absurd (ground (arith, e, s, h))
        | inr h ↦ elim (Option-cases (given (some (branch_agent_run_id w.branches target)))) [
          | inl a ↦ absurd (ground (arith, e, s, h, a))
          | inr (agent, a) ↦
              let (same_agent, filled) = given-eq (branch_agent_run_id w.branches target) agent a in
              let q : identity_for i w run target agent false ≡ v = ground (arith, e, s, h, a) in
              subst (IsProvenInRun i w run target) q (record {
                run_same = refl;
                target_same = refl;
                agent_named = filled;
                basis = inr (record {
                  marked = refl;
                  background = is_local i.scope h;
                  agent = same_agent;
                  revision = refl;
                });
              })
        ]
      ]
    ]

-- A source identity that is proven names the run and the branch that were asked for. The run is that
-- of the selected mainline, and the agent run is not empty: it is the mainline's if the branch is the
-- selected one, and otherwise that of the branch's record, which is so for background operations only.
pub resolve_source_identity-IsProven :
    (i : IdentityInput) (v : ResolvedIdentity) → resolve_source_identity i ≡ proven v → IsProven i v
unfolding resolve_source_identity
resolve_source_identity-IsProven i v e = elim (Option-cases (given i.branch_binding_id)) [
  | inl t ↦ absurd (ground (arith, e, t))
  | inr (target, t) ↦ elim (Option-cases (given i.session_run_id)) [
    | inl r ↦ absurd (ground (arith, e, t, r))
    | inr (run, r) ↦ elim (Option-cases i.selected_mainline) [
      | inl m ↦ absurd (ground (arith, e, t, r, m))
      | inr (w, m) ↦ elim (Option-cases (given w.session_run_id)) [
        | inl o ↦ absurd (ground (arith, e, t, r, m, o))
        | inr (own, o) ↦ elim (Bool-cases (own == run)) [
          | inr b ↦ absurd (ground (arith, e, t, r, m, o, b))
          | inl b ↦
              let p = resolve_in_run-proven i w run target v (ground (arith, e, t, r, m, o, b)) in
              record {
                mainline = w;
                known = m;
                run_named = r ∙ ap some p.run_same;
                run_own = o ∙ ap some ((==_iff own run).0 b ∙ p.run_same);
                target = t ∙ ap some p.target_same;
                agent_named = p.agent_named;
                basis = p.basis;
              }
        ]
      ]
    ]
  ]
]

given-some : (o : Option String) (s : String) → given o ≡ some s → o ≡ some s
given-some o s e = ground (arith, e)

given-ne : (o : Option String) (s : String) → given o ≡ some s → s ≢ ""
given-ne none s e = absurd (cc)
given-ne (some t) s e = (given-eq t s e).1

text_of-some : (o : Option String) (s : String) → text_of o ≡ s → s ≢ "" → o ≡ some s
text_of-some none s e n = absurd (n (sym e))
text_of-some (some t) s e n = ground (arith, e, n)

-- What the store compares an operation with.
abbrev pub store_identity : SelectedMainline → MainlineIdentity
store_identity w = record {
  session_run_id = w.session_run_id;
  branch_binding_id = w.branch_binding_id;
  agent_run_id = w.agent_run_id;
}

-- The operation starts from the identity.
abbrev pub StartsFrom : Operation → BranchIdentity → Type 0
StartsFrom o b =
    (o.source_session_run_id ≡ some b.session_run_id)
    × (o.source_branch_binding_id ≡ some b.branch_binding_id)
    × (o.source_agent_run_id ≡ some b.agent_run_id)
    × (o.source_identity_revision ≡ b.source_identity_revision)

-- An operation that starts from a proven identity of the selected branch is current for the mainline
-- and at the revision that the identity was proven from.
pub resolve_source_identity-current :
    (i : IdentityInput) (v : ResolvedIdentity) (w : SelectedMainline) (o : Operation)
    → resolve_source_identity i ≡ proven v
    → i.selected_mainline ≡ some w
    → v.selected_branch ≡ true
    → StartsFrom o v.source
    → source_still_current (some (store_identity w)) i.source_identity_revision o ≡ true
unfolding source_still_current
resolve_source_identity-current i v w o e k s (run, branch, agent, revision) =
    let p = resolve_source_identity-IsProven i v e in
    let q : some p.mainline ≡ some w = sym p.known ∙ k in
    let same_mainline : p.mainline ≡ w = cc in
    elim p.basis [
      | inr b ↦ let z : true ≡ false = sym s ∙ b.marked in absurd (cc)
      | inl b ↦
          let own : w.session_run_id ≡ some v.source.session_run_id =
            given-some w.session_run_id v.source.session_run_id (
              ap (λ (x : SelectedMainline). given x.session_run_id) (sym same_mainline)
              ∙ p.run_own) in
          let here : w.branch_binding_id ≡ some v.source.branch_binding_id =
            text_of-some w.branch_binding_id v.source.branch_binding_id
              (ap (λ (x : SelectedMainline). text_of x.branch_binding_id) (sym same_mainline)
                ∙ b.branch)
              (given-ne i.branch_binding_id v.source.branch_binding_id p.target) in
          let acting : w.agent_run_id ≡ some v.source.agent_run_id =
            text_of-some w.agent_run_id v.source.agent_run_id
              (ap (λ (x : SelectedMainline). text_of x.agent_run_id) (sym same_mainline) ∙ b.agent)
              p.agent_named in
          let same_revision = b.revision in
          ground (arith, own, here, acting, run, branch, agent, revision, same_revision)
    ]
