-- ===== src/SessionRuntime/Clone.antt =====
-- The clones of SessionRuntimeReducer.ts. Values are immutable in this model, so what the clones
-- protect against (two holders of one object) does not arise, and a clone gives an equal value.
use labrastro_vscode_extensi.Base.{List, [], ◌∷◌, Option, none, some, ◌≡◌, refl, arith}
use labrastro_vscode_extensi.Base.Dict.{Dict}
use labrastro_vscode_extensi.SessionRuntime.Model.{
  View, Stats, Projection, OptimisticEffect, Operation, Scope,
}
use mathlib.Core.Option

-- `{ ...item }`
pub clone_record {ℓ} : {A : Type ℓ} → A → A
clone_record item = item

pub clone_records {ℓ} : {A : Type ℓ} → List A → List A
unfolding clone_record
clone_records [] = []
clone_records (x ∷ xs) = clone_record x ∷ clone_records xs

pub clone_projection : Projection → Projection
unfolding clone_records clone_record
clone_projection p = record p {
  selected_transcript = clone_records p.selected_transcript;
  selected_stats = clone_record p.selected_stats;
  branch_summaries = clone_records p.branch_summaries;
}

pub clone_operation : Operation → Operation
unfolding clone_projection
clone_operation o = record o {
  optimistic_effect =
      Option.map
        (λ (e : OptimisticEffect).
          let c : OptimisticEffect = record { rollback = clone_projection e.rollback } in c)
        o.optimistic_effect;
}

pub clone_operations : Dict Operation → Dict Operation
unfolding clone_operation
clone_operations [] = []
clone_operations ((k, o) ∷ d) = (k, clone_operation o) ∷ clone_operations d

pub clone_scope : Scope → Scope
unfolding clone_operations clone_records
clone_scope s = record s {
  pending_next_turns = clone_records s.pending_next_turns;
  pending_approvals = clone_records s.pending_approvals;
  pending_user_inputs = clone_records s.pending_user_inputs;
  operations_by_id = clone_operations s.operations_by_id;
  transcript = Option.map clone_records s.transcript;
  stats = Option.map clone_record s.stats;
}

pub clone_records_id {ℓ} : {A : Type ℓ} (xs : List A) → clone_records xs ≡ xs
unfolding clone_records
clone_records_id [] = refl
clone_records_id (x ∷ xs) = rw (clone_records_id xs)

map_clone_id : (o : Option (List View)) → Option.map clone_records o ≡ o
map_clone_id none = refl
map_clone_id (some x) = rw (clone_records_id x)

map_record_id : (o : Option Stats) → Option.map clone_record o ≡ o
unfolding clone_record
map_record_id none = refl
map_record_id (some x) = refl

pub clone_projection_id : (p : Projection) → clone_projection p ≡ p
unfolding clone_projection
clone_projection_id p =
    rw (clone_records_id p.selected_transcript, clone_records_id p.branch_summaries) refl

pub clone_operation_id : (o : Operation) → clone_operation o ≡ o
unfolding clone_operation
clone_operation_id o = go o.optimistic_effect refl
  where
    go : (e : Option OptimisticEffect) → o.optimistic_effect ≡ e → clone_operation o ≡ o
    go none h = ground (arith, h)
    go (some e) h = ground (arith, h, clone_projection_id e.rollback)

clone_operations_id : (d : Dict Operation) → clone_operations d ≡ d
unfolding clone_operations
clone_operations_id [] = refl
clone_operations_id ((k, o) ∷ d) = rw (clone_operation_id o, clone_operations_id d)

pub clone_scope_id : (s : Scope) → clone_scope s ≡ s
unfolding clone_scope
clone_scope_id s =
    rw
      (
        clone_records_id s.pending_next_turns,
        clone_records_id s.pending_approvals,
        clone_records_id s.pending_user_inputs,
        clone_operations_id s.operations_by_id,
        map_clone_id s.transcript,
        map_record_id s.stats,
      )
      refl
