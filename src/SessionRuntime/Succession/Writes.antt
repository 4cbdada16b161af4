-- ===== src/SessionRuntime/Succession/Writes.antt =====
-- The writes to the scopes, read as successions.
use labrastro_vscode_extensi.Base.{
  String, ◌≤◌, none, some, ◌≡◌, ◌≢◌, refl, arith, inl, inr, Option-cases, Bool-cases, sym, ◌∙◌, ap,
  same, subst,
}
use labrastro_vscode_extensi.Base.Dict.{
  Dict, lookup, insert, erase, lookup-insert_ne, lookup-erase_ne, lookup-erase_self,
  lookup-insert_self,
}
use labrastro_vscode_extensi.SessionRuntime.Model.{Kind, Outcome, Operation, Scope, Model}
use labrastro_vscode_extensi.SessionRuntime.Resolve.{
  scope_target, branch_create_operation_has_source_scope, operation_source_conflicts,
  branch_create_source_scope,
}
use labrastro_vscode_extensi.SessionRuntime.Visible.{is_selected}
use labrastro_vscode_extensi.SessionRuntime.Scopes.{delete_scope, update_scope}
use labrastro_vscode_extensi.SessionRuntime.Scopes.Contents.{update_scope-scopes, select-scopes}
use labrastro_vscode_extensi.SessionRuntime.Operations.{
  refuse_begin, record_operation, begin_in, fails_branch, settle_found, is_named, settle_operation,
  cleanup_failed_branch_create_scope, without_operation,
}
use labrastro_vscode_extensi.SessionRuntime.Invariant.{IsValid, lookup-keyed}

pub record Successor (s t : Scope) : Type 0 where
  pub scope_id : t.scope_id ≡ s.scope_id
  pub session_run_id : t.session_run_id ≡ s.session_run_id
  pub branch_binding_id : t.branch_binding_id ≡ s.branch_binding_id
  pub agent_run_id : s.agent_run_id ≢ "" → t.agent_run_id ≡ s.agent_run_id
  pub runtime_revision : s.runtime_revision ≤ t.runtime_revision

pub Successor-refl : (s : Scope) → Successor s s
Successor-refl s = record {
  scope_id = refl;
  session_run_id = refl;
  branch_binding_id = refl;
  agent_run_id = λ _. refl;
  runtime_revision = omega arith;
}

pub Successor-trans : {s t u : Scope} → Successor s t → Successor t u → Successor s u
Successor-trans {s} {t} {u} a b = record {
  scope_id = b.scope_id ∙ a.scope_id;
  session_run_id = b.session_run_id ∙ a.session_run_id;
  branch_binding_id = b.branch_binding_id ∙ a.branch_binding_id;
  agent_run_id = λ n. let e = a.agent_run_id n in b.agent_run_id (λ z. n (sym e ∙ z)) ∙ e;
  runtime_revision = omega (arith, a.runtime_revision, b.runtime_revision);
}

-- Each scope of `e` was in `d` under the same key, and is its successor.
abbrev pub Evolves : Dict Scope → Dict Scope → Type 0
Evolves d e =
    (j : String) (t : Scope)
    → lookup j e ≡ some t
    → (s : Scope) × (lookup j d ≡ some s) × Successor s t

pub Evolves-refl : (d : Dict Scope) → Evolves d d
Evolves-refl d j t l = (t, l, Successor-refl t)

pub Evolves-trans : (c d e : Dict Scope) → Evolves c d → Evolves d e → Evolves c e
Evolves-trans c d e a b j u l =
    let (t, lt, st) = b j u l in let (s, ls, ss) = a j t lt in (s, ls, Successor-trans ss st)

pub update_scope-Evolves :
    (m : Model) (s t : Scope)
    → lookup t.scope_id m.scopes ≡ some s
    → Successor s t
    → Evolves m.scopes (update_scope m t).model.scopes
update_scope-Evolves m s t l h j u e = elim (same t.scope_id j) [
  | yes p ↦
      let hit : lookup j (insert t.scope_id t m.scopes) ≡ some t =
        subst (λ i. lookup i (insert t.scope_id t m.scopes) ≡ some t) p
          (lookup-insert_self t.scope_id t m.scopes) in
      let e1 : some t ≡ some u = sym hit ∙ sym (ap (lookup j) (update_scope-scopes m t)) ∙ e in
      let e2 : t ≡ u = cc in
      (s, subst (λ i. lookup i m.scopes ≡ some s) p l, subst (Successor s) e2 h)
  | no n ↦ (
    u,
    sym (lookup-insert_ne t.scope_id j t m.scopes n)
        ∙ sym (ap (lookup j) (update_scope-scopes m t))
        ∙ e,
    Successor-refl u,
  )
]

pub erase-Evolves : (d : Dict Scope) (id : String) → Evolves d (erase id d)
erase-Evolves d id j u e = elim (same id j) [
  | yes p ↦
      let e1 : none ≡ some u =
        sym (subst (λ i. lookup i (erase id d) ≡ none) p (lookup-erase_self id d)) ∙ e in
      absurd (cc)
  | no p ↦ (u, sym (lookup-erase_ne id j d p) ∙ e, Successor-refl u)
]

pub delete_scope-Evolves :
    (m : Model) (id : String) → Evolves m.scopes (delete_scope m id).model.scopes
unfolding delete_scope
delete_scope-Evolves m id = elim (Option-cases (lookup id m.scopes)) [
  | inl e ↦ rw (e, delete_scope) (Evolves-refl m.scopes)
  | inr (s, e) ↦ elim (Bool-cases (is_selected m id)) [
    | inl h ↦ rw (e, h, delete_scope) (Evolves-refl m.scopes)
    | inr h ↦ rw (e, h, delete_scope) (erase-Evolves m.scopes id)
  ]
]

pub begin_in-Evolves :
    (m : Model) (o : Operation) → IsValid m → Evolves m.scopes (begin_in m m o).model.scopes
unfolding begin_in refuse_begin record_operation
begin_in-Evolves m o v = elim (Option-cases (lookup o.scope_id m.scopes)) [
  | inl e ↦ rw (e, begin_in) (Evolves-refl m.scopes)
  | inr (s, e) ↦ elim (Bool-cases (branch_create_operation_has_source_scope m s o)) [
    | inr a ↦ rw (e, a, begin_in) (Evolves-refl m.scopes)
    | inl a ↦ elim (Bool-cases (operation_source_conflicts s o)) [
      | inl b ↦ rw (e, a, b, begin_in) (Evolves-refl m.scopes)
      | inr b ↦
          let k = (lookup-keyed o.scope_id s v e).keyed in
          rw (e, a, b, begin_in)
            (update_scope-Evolves m s _ (subst (λ i. lookup i m.scopes ≡ some s) (sym k) e)
              (record {
                scope_id = refl;
                session_run_id = refl;
                branch_binding_id = refl;
                agent_run_id = λ _. refl;
                runtime_revision = omega arith;
              }))
    ]
  ]
]

pub cleanup-Evolves :
    (m : Model) (s : Scope) (o : Operation)
    → Evolves m.scopes (cleanup_failed_branch_create_scope m s o).model.scopes
unfolding cleanup_failed_branch_create_scope
cleanup-Evolves m s o = elim (Option-cases (branch_create_source_scope m s o)) [
  | inl e ↦ rw (e, cleanup_failed_branch_create_scope) (Evolves-refl m.scopes)
  | inr (c, e) ↦ elim (Bool-cases (is_selected m s.scope_id)) [
    | inr k ↦ rw (e, k, cleanup_failed_branch_create_scope) (erase-Evolves m.scopes s.scope_id)
    | inl k ↦
        rw (e, k, cleanup_failed_branch_create_scope)
          (subst (Evolves m.scopes) (sym (select-scopes _ (scope_target c.scope_id)))
            (erase-Evolves m.scopes s.scope_id))
  ]
]

pub settle_operation-Evolves :
    (m : Model) (s : Scope) (id : String) (kind : Kind) (outcome : Outcome)
    → lookup s.scope_id m.scopes ≡ some s
    → Evolves m.scopes (settle_operation m s id kind outcome).model.scopes
unfolding settle_operation settle_found without_operation
settle_operation-Evolves m s id kind outcome l =
    elim (Option-cases (lookup id s.operations_by_id)) [
      | inl e ↦ rw (e, settle_operation) (Evolves-refl m.scopes)
      | inr (o, e) ↦ elim (Bool-cases (is_named o kind s.scope_id)) [
        | inr k ↦ rw (e, k, settle_operation) (Evolves-refl m.scopes)
        | inl k ↦ elim (Option-cases (fails_branch outcome s o)) [
          | inl f ↦ rw (e, k, settle_operation) (rw (f, settle_found) settled)
          | inr (p, f) ↦
              rw (e, k, settle_operation)
                (rw (f, settle_found)
                  (Evolves-trans m.scopes _ _ settled
                    (cleanup-Evolves (update_scope m (without_operation s id)).model s o)))
        ]
      ]
    ]
  where
    settled : Evolves m.scopes (update_scope m (without_operation s id)).model.scopes
    settled = update_scope-Evolves m s (without_operation s id) l (record {
      scope_id = refl;
      session_run_id = refl;
      branch_binding_id = refl;
      agent_run_id = λ _. refl;
      runtime_revision = omega arith;
    })
