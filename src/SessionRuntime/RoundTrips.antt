-- ===== src/SessionRuntime/RoundTrips.antt =====
-- An operation that begins and settles leaves the scopes as they were; the creation of a branch
-- that fails is undone.
use labrastro_vscode_extensi.Base.{
  String, Option, true, false, none, some, ◌≡◌, ◌≢◌, ◌==◌, refl, arith, inl, inr, Bool-cases,
  ==_iff, holds_text, [], ◌∷◌, sym, ◌∙◌, ap, subst,
}
use labrastro_vscode_extensi.Base.Dict.{
  Dict, lookup, insert, lookup-insert_self, insert-insert, insert_same, erase-insert_fresh,
}
use labrastro_vscode_extensi.SessionRuntime.Model.{
  Kind, Outcome, success, Operation, Scope, Model, Reduction, operation_settled, operation_begin,
  operation_settle,
}
use labrastro_vscode_extensi.SessionRuntime.Clone.{clone_operation_id}
use labrastro_vscode_extensi.SessionRuntime.Resolve.{
  scope_target, is_branch_create, branch_create_operation_has_source_scope,
  operation_source_conflicts,
}
use labrastro_vscode_extensi.SessionRuntime.Resolve.Sound.{resolve-scope_target}
use labrastro_vscode_extensi.SessionRuntime.Scopes.{update_scope}
use labrastro_vscode_extensi.SessionRuntime.Scopes.Contents.{
  update_scope-scopes, update_scope-lookup,
}
use labrastro_vscode_extensi.SessionRuntime.Operations.{
  same_kind, record_operation, begin_in, begin_operation, fails_branch, settle_found, is_named,
  settle_operation, without_operation,
}
use labrastro_vscode_extensi.SessionRuntime.Reducer.{with_scope, reduce}
use labrastro_vscode_extensi.SessionRuntime.Invariant.{IsValid, lookup-keyed}

pub same_kind_self : (k : Kind) → same_kind k k ≡ true
same_kind_self k = ground arith

-- The scope with the operation written to it.
abbrev pub with_operation : Scope → Operation → Scope
with_operation s o = record s { operations_by_id = insert o.operation_id o s.operations_by_id }

pub begin_in-eq :
    (m base : Model) (o : Operation) (s : Scope)
    → lookup o.scope_id base.scopes ≡ some s
    → branch_create_operation_has_source_scope base s o ≡ true
    → operation_source_conflicts s o ≡ false
    → begin_in m base o ≡ update_scope base (with_operation s o)
unfolding begin_in record_operation
begin_in-eq m base o s e h k = rw (e, h, k, begin_in) (rw (clone_operation_id o) refl)

pub without-with_operation :
    (s : Scope) (o : Operation)
    → lookup o.operation_id s.operations_by_id ≡ none
    → without_operation (with_operation s o) o.operation_id ≡ s
unfolding without_operation
without-with_operation s o h =
    ap (λ (d : Dict Operation). let t : Scope = record s { operations_by_id = d } in t)
      (erase-insert_fresh o.operation_id o s.operations_by_id h)

-- The settlement of an operation, from a model that holds it in the scope `s`.
module _ (m : Model) (s : Scope) (o : Operation) (outcome : Outcome)
    (l : lookup o.scope_id m.scopes ≡ some s) (k : s.scope_id ≡ o.scope_id) (n : o.scope_id ≢ "")
    (p : lookup o.operation_id s.operations_by_id ≡ some o) where
  pub settle-eq :
      reduce m (operation_settle outcome (scope_target o.scope_id) o.operation_id o.kind)
      ≡ settle_found m s o.operation_id o o.kind outcome
  unfolding reduce with_scope settle_operation is_named
  settle-eq = ground (arith, resolve-scope_target m o.scope_id s n l, p, same_kind_self o.kind, k)

settle_found-eq :
    (m : Model) (s : Scope) (id : String) (o : Operation) (kind : Kind) (outcome : Outcome)
    → fails_branch outcome s o ≡ none
    → settle_found m s id o kind outcome ≡ record {
      model = (update_scope m (without_operation s id)).model;
      effects = operation_settled s.scope_id id kind ∷ [];
    }
unfolding settle_found
settle_found-eq m s id o kind outcome e = rw (e, settle_found) refl

-- The settlement undoes no branch: it is a success, the operation creates no branch, it carries no
-- state to go back to, or its target is another branch than that of its scope.
pub data UndoesNothing (outcome : Outcome) (s : Scope) (o : Operation) : Type 0 where
  succeeds : outcome ≡ success → UndoesNothing outcome s o
  other_kind : is_branch_create o.kind ≡ false → UndoesNothing outcome s o
  no_state : o.optimistic_effect ≡ none → UndoesNothing outcome s o
  other_target : o.target_branch_binding_id ≢ some s.branch_binding_id → UndoesNothing outcome s o

holds_text-ne : (a : Option String) (x : String) → a ≢ some x → holds_text a x ≡ false
holds_text-ne none x n = refl
holds_text-ne (some y) x n = elim (Bool-cases (y == x)) [
  | inl e ↦ absurd (n (ap some ((==_iff y x).0 e)))
  | inr e ↦ ground (arith, e)
]

fails_branch-eq :
    (outcome : Outcome) (s : Scope) (o : Operation)
    → UndoesNothing outcome s o
    → fails_branch outcome s o ≡ none
unfolding fails_branch
fails_branch-eq outcome s o (succeeds h) = ground (arith, h)
fails_branch-eq outcome s o (other_kind h) = ground (arith, h)
fails_branch-eq outcome s o (no_state h) = ground (arith, h)
fails_branch-eq outcome s o (other_target h) =
    ground (arith, holds_text-ne o.target_branch_binding_id s.branch_binding_id h)

-- An operation that is admitted in the scope `s`, new to it, and undoes no branch.
module _ (m : Model) (o : Operation) (s : Scope) (outcome : Outcome) (v : IsValid m)
    (l : lookup o.scope_id m.scopes ≡ some s)
    (fresh : lookup o.operation_id s.operations_by_id ≡ none)
    (h : branch_create_operation_has_source_scope m s o ≡ true)
    (c : operation_source_conflicts s o ≡ false) (plain : UndoesNothing outcome s o) where
  begun-eq :
      (reduce m (operation_begin o none false)).model ≡ (update_scope m (with_operation s o)).model
  unfolding reduce begin_operation
  begun-eq = ap (λ r. r.model) (begin_in-eq m m o s l h c)

  moved : UndoesNothing outcome s o → UndoesNothing outcome (with_operation s o) o
  moved (succeeds h) = succeeds h
  moved (other_kind h) = other_kind h
  moved (no_state h) = no_state h
  moved (other_target h) = other_target h

  keyed : s.scope_id ≡ o.scope_id
  keyed = (lookup-keyed o.scope_id s v l).keyed

  begun-lookup :
      lookup o.scope_id (update_scope m (with_operation s o)).model.scopes
      ≡ some (with_operation s o)
  begun-lookup =
      subst
        (λ i.
          lookup i (update_scope m (with_operation s o)).model.scopes ≡ some (with_operation s o))
        keyed (update_scope-lookup m (with_operation s o))

  settle_found-plain :
      (n : Model)
      → settle_found n (with_operation s o) o.operation_id o o.kind outcome ≡ record {
        model = (update_scope n s).model;
        effects = operation_settled s.scope_id o.operation_id o.kind ∷ [];
      }
  settle_found-plain n =
      settle_found-eq n (with_operation s o) o.operation_id o o.kind outcome
        (fails_branch-eq outcome (with_operation s o) o (moved plain))
      ∙ ap
          (λ (t : Scope).
            let r : Reduction = record {
              model = (update_scope n t).model;
              effects = operation_settled s.scope_id o.operation_id o.kind ∷ [];
            } in
            r)
          (without-with_operation s o fresh)

  -- In a well-formed model, an operation that is begun in a scope that is there, and that settles,
  -- leaves all scopes as they were, with the one effect that it has settled. It is begun without a
  -- scope of its own; its id is new to the scope; the scope admits it (its source is the scope's, and
  -- the creation of a branch has its source scope); and the settlement undoes no branch: it is a
  -- success, or the operation creates no branch, carries no state to go back to, or has another target
  -- than the branch of its scope.
  pub settle-begin :
      let begun = (reduce m (operation_begin o none false)).model in
      let settled =
        reduce begun (operation_settle outcome (scope_target o.scope_id) o.operation_id o.kind) in
      (settled.model.scopes ≡ m.scopes)
      × (settled.effects ≡ operation_settled s.scope_id o.operation_id o.kind ∷ [])
  settle-begin = rw begun-eq (
      rw
        (settle-eq (update_scope m (with_operation s o)).model (with_operation s o) o outcome
          begun-lookup keyed (λ z. (lookup-keyed o.scope_id s v l).valid.named (keyed ∙ z))
          (lookup-insert_self o.operation_id o s.operations_by_id))
        (rw (settle_found-plain (update_scope m (with_operation s o)).model) (back, refl)))
    where
      back : (update_scope (update_scope m (with_operation s o)).model s).model.scopes ≡ m.scopes
      back =
          update_scope-scopes _ s
          ∙ ap (insert s.scope_id s) (update_scope-scopes m (with_operation s o))
          ∙ insert-insert s.scope_id (with_operation s o) s m.scopes
          ∙ insert_same s.scope_id s m.scopes
              (subst (λ i. lookup i m.scopes ≡ some s) (sym keyed) l)
