-- ===== src/Chat/OperationGate/Coherence.antt =====
-- An operation that waits holds only views that fit it.
use labrastro_vscode_extensi.Base.{
  ℕ, String, true, false, Option, none, some, ◌≡◌, ◌≢◌, ◌⊎◌, refl, arith, given, holds_text, List,
  [], ◌∷◌, sym, ◌∙◌, ap, inl, inr, Option-cases, subst,
}
use labrastro_vscode_extensi.Chat.OperationGate.{
  PendingOperation, OperationInput, RollbackView, OptimisticProjection, merge_into, new_pending,
  merge_pending_session_run_operation_view, rollback_for_pending_operation, fill,
  optimistic_projection_for_pending_operation, is_session_run_operation_kind,
  operation_field_conflicts,
}
use labrastro_vscode_extensi.Chat.OperationGate.Merging.{
  merge_all, merge_into-Extends, Stays, step-cases,
}

-- The branch that a view names, which may be empty, is the branch of the operation.
abbrev pub Fits : String → Option String → Type 0
Fits named own = named ≢ "" → given own ≡ some named

pub record IsCoherent (p : PendingOperation) : Type 0 where
  pub has_id : p.operation_id ≢ ""
  pub has_kind : is_session_run_operation_kind p.kind ≡ true
  pub rollback :
      (r : RollbackView)
      → p.rollback ≡ some r
      → (p.kind ≡ "branch.create") × Fits r.source_branch_binding_id p.source_branch_binding_id
  pub projection :
      (o : OptimisticProjection)
      → p.optimistic_projection ≡ some o
      → (p.kind ≡ "branch.create") × Fits o.branch_binding_id p.target_branch_binding_id

new-IsCoherent :
    (i : OperationInput) (now : ℕ)
    → i.operation_id ≢ ""
    → is_session_run_operation_kind i.kind ≡ true
    → IsCoherent (new_pending i now)
unfolding new_pending rollback_for_pending_operation optimistic_projection_for_pending_operation
new-IsCoherent i now h k = record {
  has_id = h;
  has_kind = k;
  rollback = λ r e. (ground (arith, e), λ f. ground (arith, e, f));
  projection = λ o e. (ground (arith, e), λ f. ground (arith, e, f));
}

-- What of two texts that do not conflict stands after the merge.
fill-Fits :
    (own new : Option String) (named : String)
    → operation_field_conflicts own new ≡ false
    → holds_text new named ≡ true
    → Fits named (fill own new)
fill-Fits own new named c h f = ground (arith, c, h, f)

-- A view of the merged operation is the old one, or comes with the message.
rollback-cases :
    (p : PendingOperation) (i : OperationInput) (r : RollbackView)
    → (merge_into p i).rollback ≡ some r
    → (p.rollback ≡ some r)
      ⊎ ((p.kind ≡ "branch.create")
          × Fits r.source_branch_binding_id (merge_into p i).source_branch_binding_id)
unfolding merge_into rollback_for_pending_operation
rollback-cases p i r e = elim (Option-cases p.rollback) [
  | inr (old, h) ↦ inl (ground (arith, e, h))
  | inl h ↦
      let kind : p.kind ≡ "branch.create" = ground (arith, e, h) in
      let same_source : holds_text i.source_branch_binding_id r.source_branch_binding_id ≡ true =
        ground (arith, e, h) in
      let free : operation_field_conflicts p.source_branch_binding_id i.source_branch_binding_id
          ≡ false =
        ground (arith, e, h) in
      let filled : (merge_into p i).source_branch_binding_id
          ≡ fill p.source_branch_binding_id i.source_branch_binding_id =
        ground (arith, e, h) in
      inr (
        kind,
        λ f.
            ap given filled
            ∙ fill-Fits p.source_branch_binding_id i.source_branch_binding_id
                r.source_branch_binding_id free same_source f,
      )
]

projection-cases :
    (p : PendingOperation) (i : OperationInput) (o : OptimisticProjection)
    → (merge_into p i).optimistic_projection ≡ some o
    → (p.optimistic_projection ≡ some o)
      ⊎ ((p.kind ≡ "branch.create")
          × Fits o.branch_binding_id (merge_into p i).target_branch_binding_id)
unfolding merge_into optimistic_projection_for_pending_operation
projection-cases p i o e = elim (Option-cases p.optimistic_projection) [
  | inr (old, h) ↦ inl (ground (arith, e, h))
  | inl h ↦
      let kind : p.kind ≡ "branch.create" = ground (arith, e, h) in
      let same_target : holds_text i.target_branch_binding_id o.branch_binding_id ≡ true =
        ground (arith, e, h) in
      let free : operation_field_conflicts p.target_branch_binding_id i.target_branch_binding_id
          ≡ false =
        ground (arith, e, h) in
      let filled : (merge_into p i).target_branch_binding_id
          ≡ fill p.target_branch_binding_id i.target_branch_binding_id =
        ground (arith, e, h) in
      inr (
        kind,
        λ f.
            ap given filled
            ∙ fill-Fits p.target_branch_binding_id i.target_branch_binding_id o.branch_binding_id
                free same_target f,
      )
]

Fits-Stays :
    (named : String) (old new : Option String) → Stays old new → Fits named old → Fits named new
Fits-Stays named old new s fits f =
    let h : new ≡ some named = s named (fits f) in ground (arith, h, f)

merge_into-IsCoherent :
    (p : PendingOperation) (i : OperationInput) → IsCoherent p → IsCoherent (merge_into p i)
merge_into-IsCoherent p i c =
    let x = merge_into-Extends p i in
    record {
      has_id = subst (λ s. s ≢ "") (sym x.operation_id) c.has_id;
      has_kind = ap is_session_run_operation_kind x.kind ∙ c.has_kind;
      rollback = λ r e. elim (rollback-cases p i r e) [
        | inr (kind, fits) ↦ (x.kind ∙ kind, fits)
        | inl h ↦
            let (kind, fits) = c.rollback r h in
            (
              x.kind ∙ kind,
              Fits-Stays r.source_branch_binding_id p.source_branch_binding_id
                  (merge_into p i).source_branch_binding_id x.source fits,
            )
      ];
      projection = λ o e. elim (projection-cases p i o e) [
        | inr (kind, fits) ↦ (x.kind ∙ kind, fits)
        | inl h ↦
            let (kind, fits) = c.projection o h in
            (
              x.kind ∙ kind,
              Fits-Stays o.branch_binding_id p.target_branch_binding_id
                  (merge_into p i).target_branch_binding_id x.target fits,
            )
      ];
    }

-- An absent operation is as good as a coherent one.
abbrev pub AllCoherent : Option PendingOperation → Type 0
AllCoherent o = (p : PendingOperation) → o ≡ some p → IsCoherent p

step-IsCoherent :
    (o : Option PendingOperation) (i : OperationInput) (now : ℕ)
    → AllCoherent o
    → AllCoherent (merge_pending_session_run_operation_view o i now)
unfolding merge_pending_session_run_operation_view
step-IsCoherent none i now c p e =
    let h : i.operation_id ≢ "" = ground (arith, e) in
    let k : is_session_run_operation_kind i.kind ≡ true = ground (arith, e) in
    let is_new : new_pending i now ≡ p = ground (arith, e) in
    subst IsCoherent is_new (new-IsCoherent i now h k)
step-IsCoherent (some old) i now c p e = elim (step-cases old i now) [
  | inl same_op ↦ c p (sym same_op ∙ e)
  | inr merged ↦
      let eq : merge_into old i ≡ p =
        let f : some (merge_into old i) ≡ some p = sym merged ∙ e in cc in
      subst IsCoherent eq (merge_into-IsCoherent old i (c old refl))
]

all_coherent :
    (messages : List (OperationInput × ℕ)) (o : Option PendingOperation)
    → AllCoherent o
    → AllCoherent (merge_all o messages)
unfolding merge_all
all_coherent [] o c = c
all_coherent ((i, now) ∷ rest) o c =
    all_coherent rest (merge_pending_session_run_operation_view o i now) (step-IsCoherent o i now c)

-- Whatever messages reach the gate, the operation that then waits, if one does, has an id and a
-- known kind; and a rollback or an optimistic projection that it holds belongs to a branch creation
-- and names the source, or the target, of the operation, unless the branch it names is empty.
pub merge_all-IsCoherent :
    (messages : List (OperationInput × ℕ)) (p : PendingOperation)
    → merge_all none messages ≡ some p
    → IsCoherent p
merge_all-IsCoherent messages p = all_coherent messages none (λ q e. absurd (cc)) p
