-- ===== src/Chat/OperationGate/Merging.antt =====
-- What the merges of messages keep of a waiting operation.
use labrastro_vscode_extensi.Base.{
  ℕ, String, not, ◌||◌, Option, some, ◌==◌, ◌≡◌, ◌≢◌, ◌⊎◌, refl, arith, given, List, [], ◌∷◌, ◌∙◌,
  ap, inl, inr, Bool-cases,
}
use labrastro_vscode_extensi.Chat.OperationGate.{
  PendingOperation, OperationInput, merge_into, merge_pending_session_run_operation_view,
  is_session_run_operation_kind,
}

-- The messages that reach the gate, with the time at which each does.
unfoldable pub merge_all :
    Option PendingOperation → List (OperationInput × ℕ) → Option PendingOperation
merge_all current [] = current
merge_all current ((incoming, now) ∷ rest) =
    merge_all (merge_pending_session_run_operation_view current incoming now) rest

-- What holds a text goes on to hold it.
abbrev pub Stays : Option String → Option String → Type 0
Stays old new = (s : String) → given old ≡ some s → new ≡ some s

abbrev pub StaysView {ℓ} : {A : Type ℓ} → Option A → Option A → Type ℓ
StaysView {A = A} old new = (a : A) → old ≡ some a → new ≡ some a

pub record Extends (old new : PendingOperation) : Type 0 where
  pub operation_id : new.operation_id ≡ old.operation_id
  pub kind : new.kind ≡ old.kind
  pub created_at : new.created_at ≡ old.created_at
  pub run : Stays old.session_run_id new.session_run_id
  pub source : Stays old.source_branch_binding_id new.source_branch_binding_id
  pub target : Stays old.target_branch_binding_id new.target_branch_binding_id
  pub projection : StaysView old.optimistic_projection new.optimistic_projection
  pub rollback : StaysView old.rollback new.rollback
  pub restore : StaysView old.restore new.restore

pub merge_into-Extends :
    (old : PendingOperation) (i : OperationInput) → Extends old (merge_into old i)
unfolding merge_into
merge_into-Extends old i = record {
  operation_id = ground arith;
  kind = ground arith;
  created_at = ground arith;
  run = λ s h. ground (arith, h);
  source = λ s h. ground (arith, h);
  target = λ s h. ground (arith, h);
  projection = λ a h. ground (arith, h);
  rollback = λ a h. ground (arith, h);
  restore = λ a h. ground (arith, h);
}

Stays-trans : (a b c : Option String) → Stays a b → Stays b c → Stays a c
Stays-trans a b c f g s h =
    g s (let e : b ≡ some s = f s h in let d : s ≢ "" = ground (arith, h) in ground (arith, e, d))

Extends-trans : (a b c : PendingOperation) → Extends a b → Extends b c → Extends a c
Extends-trans a b c f g = record {
  operation_id = g.operation_id ∙ f.operation_id;
  kind = g.kind ∙ f.kind;
  created_at = g.created_at ∙ f.created_at;
  run = Stays-trans a.session_run_id b.session_run_id c.session_run_id f.run g.run;
  source =
      Stays-trans a.source_branch_binding_id b.source_branch_binding_id c.source_branch_binding_id
        f.source g.source;
  target =
      Stays-trans a.target_branch_binding_id b.target_branch_binding_id c.target_branch_binding_id
        f.target g.target;
  projection = λ v h. g.projection v (f.projection v h);
  rollback = λ v h. g.rollback v (f.rollback v h);
  restore = λ v h. g.restore v (f.restore v h);
}

Extends-refl : (a : PendingOperation) → Extends a a
Extends-refl a = record {
  operation_id = refl;
  kind = refl;
  created_at = refl;
  run = λ s h. ground (arith, h);
  source = λ s h. ground (arith, h);
  target = λ s h. ground (arith, h);
  projection = λ v h. h;
  rollback = λ v h. h;
  restore = λ v h. h;
}

-- What one message makes of an operation that waits.
pub step-cases :
    (old : PendingOperation) (i : OperationInput) (now : ℕ)
    → (merge_pending_session_run_operation_view (some old) i now ≡ some old)
      ⊎ (merge_pending_session_run_operation_view (some old) i now ≡ some (merge_into old i))
unfolding merge_pending_session_run_operation_view
step-cases old i now =
    elim (Bool-cases (i.operation_id == "" || not (is_session_run_operation_kind i.kind))) [
      | inl h ↦ inl (ground (arith, h))
      | inr h ↦ inr (ground (arith, h))
    ]

-- Whatever messages follow, an operation that waits goes on waiting: it keeps its id, its kind, the
-- time at which it came, and every text and view that it already has.
pub merge_all-Extends :
    (old : PendingOperation) (messages : List (OperationInput × ℕ))
    → (new : PendingOperation) × (merge_all (some old) messages ≡ some new) × Extends old new
unfolding merge_all
merge_all-Extends old [] = (old, refl, Extends-refl old)
merge_all-Extends old ((i, now) ∷ rest) = elim (step-cases old i now) [
  | inl e ↦
      let (new, h, x) = merge_all-Extends old rest in (new, ap (λ c. merge_all c rest) e ∙ h, x)
  | inr e ↦
      let (new, h, x) = merge_all-Extends (merge_into old i) rest in
      (
        new,
        ap (λ c. merge_all c rest) e ∙ h,
        Extends-trans old (merge_into old i) new (merge_into-Extends old i) x,
      )
]
