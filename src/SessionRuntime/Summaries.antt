-- ===== src/SessionRuntime/Summaries.antt =====
-- The branch summaries of the projection: one for each branch of the selected run that was
-- summarised before, and one for the selected scope.
use labrastro_vscode_extensi.Base.{
  String, true, false, none, some, ◌≡◌, ◌≢◌, refl, arith, List, [], ◌∷◌, ◌++◌, map, inl, inr,
  Option-cases, Bool-cases, ◌==◌, ==_iff, ==_self, same, sym, ◌∙◌, ap, All, keep,
}
use labrastro_vscode_extensi.Base.Dict.{Dict, lookup, insert, spread, values}
use labrastro_vscode_extensi.Base.DictKeys.{Distinct, Entries, Entries-insert, Entries-lookup}
use labrastro_vscode_extensi.SessionRuntime.Model.{Scope, Summary, Model}
use labrastro_vscode_extensi.SessionRuntime.Visible.{
  branch_summary_for_scope, map_by, contains, preserved_scope, preserved, covered_scopes,
  branch_summaries_for_scopes, visible_projection_for,
}
use labrastro_vscode_extensi.SessionRuntime.Invariant.{EntryIsValid, IsValid}

-- No id is among `seen` or among those before it.
abbrev pub Unrepeated : List String → List String → Type 0
Unrepeated seen [] = Unit {0}
Unrepeated seen (x ∷ xs) = (contains x seen ≡ false) × Unrepeated (x ∷ seen) xs

abbrev scope_ids : List Scope → List String
scope_ids = map (λ s. s.scope_id)

-- A scope of the run that stands in the dictionary under its id.
abbrev pub InRun : Dict Scope → String → Scope → Type 0
InRun scopes run s = (lookup s.scope_id scopes ≡ some s) × (s.session_run_id ≡ run)

found_later :
    (k : String) (v : Scope) (d : Dict Scope) (vs : List Scope)
    → lookup k d ≡ none
    → All (λ s. lookup s.scope_id d ≡ some s) vs
    → All (λ s. lookup s.scope_id ((k, v) ∷ d) ≡ some s) vs
unfolding lookup
found_later k v d [] n h = tt
found_later k v d (s ∷ vs) n h = (
  elim (same k s.scope_id) [
    | yes p ↦ let e : none ≡ some s = sym n ∙ ap (λ i. lookup i d) p ∙ h.0 in absurd (cc)
    | no p ↦ ground (arith, p, h.0)
  ],
  found_later k v d vs n h.1,
)

values_found :
    (d : Dict Scope)
    → Distinct d
    → Entries EntryIsValid d
    → All (λ s. lookup s.scope_id d ≡ some s) (values d)
unfolding lookup
values_found [] u v = tt
values_found ((k, s) ∷ d) u v =
    (ground (arith, v.0.keyed), found_later k s d (values d) u.0 (values_found d u.1 v.1))

keep-InRun :
    (d : Dict Scope) (run : String) (vs : List Scope)
    → All (λ s. lookup s.scope_id d ≡ some s) vs
    → All (InRun d run) (keep (λ s. s.session_run_id == run) vs)
keep-InRun d run [] h = tt
keep-InRun d run (s ∷ vs) h = elim (Bool-cases (s.session_run_id == run)) [
  | inl e ↦ rw e ((h.0, (==_iff s.session_run_id run).0 e), keep-InRun d run vs h.1)
  | inr e ↦ rw e (keep-InRun d run vs h.1)
]

spread-Entries :
    (P : String → Scope → Type 0) (d e : Dict Scope)
    → Entries P d
    → Entries P e
    → Entries P (spread d e)
unfolding spread
spread-Entries P d [] h k = h
spread-Entries P d ((j, v) ∷ e) h k =
    spread-Entries P (insert j v d) e (Entries-insert P j v d k.0 h) k.1

map_by-Entries :
    (Q : Scope → Type 0) (key : Scope → String) (vs : List Scope)
    → All Q vs
    → Entries (λ _ s. Q s) (map_by key vs)
unfolding map_by
map_by-Entries Q key vs h = spread-Entries (λ _ s. Q s) [] _ tt (go vs h)
  where
    go : (xs : List Scope) → All Q xs → Entries (λ _ s. Q s) (map (λ s. (key s, s)) xs)
    go [] h = tt
    go (x ∷ xs) h = (h.0, go xs h.1)

module _ (Q : Scope → Type 0) (run : String) (by_id by_branch : Dict Scope)
    (h : Entries (λ _ s. Q s) by_id) (k : Entries (λ _ s. Q s) by_branch) where
  preserved_scope_sound :
      (covered : List String) (x : Summary) (s : Scope)
      → preserved_scope run by_id by_branch covered x ≡ some s
      → Q s × (contains s.scope_id covered ≡ false)
  unfolding preserved_scope
  preserved_scope_sound covered x s e = elim (Option-cases (lookup x.scope_id by_id)) [
    | inr (a, l) ↦ (
      Entries-lookup (λ _ t. Q t) x.scope_id s by_id h (ground (arith, e, l)),
      ground (arith, e, l),
    )
    | inl l ↦ (
      Entries-lookup (λ _ t. Q t) x.branch_binding_id s by_branch k (ground (arith, e, l)),
      ground (arith, e, l),
    )
  ]

  preserved_sound :
      (covered : List String) (xs : List Summary)
      → All Q (preserved run by_id by_branch covered xs)
        × Unrepeated covered (scope_ids (preserved run by_id by_branch covered xs))
  unfolding preserved
  preserved_sound covered [] = (tt, tt)
  preserved_sound covered (x ∷ xs) =
      elim (Option-cases (preserved_scope run by_id by_branch covered x)) [
        | inl e ↦ rw (e, preserved) (preserved_sound covered xs)
        | inr (s, e) ↦
            let (q, new) = preserved_scope_sound covered x s e in
            let (qs, rest) = preserved_sound (s.scope_id ∷ covered) xs in
            rw (e, preserved) ((q, qs), (new, rest))
      ]

contains-cons-false :
    (k x : String) (xs : List String)
    → contains k (x ∷ xs) ≡ false
    → (x ≢ k) × (contains k xs ≡ false)
contains-cons-false k x xs h = (ground (arith, h), ground (arith, h))

Unrepeated-append :
    (k : String) (seen xs : List String)
    → Unrepeated seen xs
    → contains k seen ≡ false
    → contains k xs ≡ false
    → Unrepeated seen (xs ++ k ∷ [])
Unrepeated-append k seen [] u a b = (a, tt)
Unrepeated-append k seen (x ∷ xs) u a b =
    let (n, c) = contains-cons-false k x xs b in
    (u.0, Unrepeated-append k (x ∷ seen) xs u.1 (ground (arith, a, n)) c)

map-append-one :
    (xs : List Scope) (s : Scope) → scope_ids (xs ++ s ∷ []) ≡ scope_ids xs ++ s.scope_id ∷ []
map-append-one [] s = refl
map-append-one (x ∷ xs) s = rw (map-append-one xs s)

All-append-one :
    (Q : Scope → Type 0) (xs : List Scope) (s : Scope) → All Q xs → Q s → All Q (xs ++ s ∷ [])
All-append-one Q [] s h q = (q, tt)
All-append-one Q (x ∷ xs) s h q = (h.0, All-append-one Q xs s h.1 q)

contains-append-one : (k : String) (xs : List String) → contains k (xs ++ k ∷ []) ≡ true
contains-append-one k [] = ground (arith, ==_self k)
contains-append-one k (x ∷ xs) = ground (arith, contains-append-one k xs)

-- What the scopes behind the summaries satisfy.
abbrev Covers : Dict Scope → Scope → List Scope → Type 0
Covers scopes s ss =
    All (InRun scopes s.session_run_id) ss
    × Unrepeated [] (scope_ids ss)
    × (contains s.scope_id (scope_ids ss) ≡ true)

covered_scopes-Covers :
    (scopes : Dict Scope) (s : Scope) (existing : List Summary)
    → Distinct scopes
    → Entries EntryIsValid scopes
    → lookup s.scope_id scopes ≡ some s
    → Covers scopes s (covered_scopes scopes s existing)
unfolding covered_scopes
covered_scopes-Covers scopes s existing u v l =
    elim (Bool-cases (contains s.scope_id (scope_ids kept))) [
      | inl e ↦ rw e (sound.0, sound.1, e)
      | inr e ↦ rw e (
        All-append-one (InRun scopes run) kept s sound.0 (l, refl),
        rw (map-append-one kept s)
            (Unrepeated-append s.scope_id [] (scope_ids kept) sound.1 refl e),
        rw (map-append-one kept s) (contains-append-one s.scope_id (scope_ids kept)),
      )
    ]
  where
    run : String
    run = s.session_run_id

    run_scopes : List Scope
    run_scopes = keep (λ t. t.session_run_id == run) (values scopes)

    all : All (InRun scopes run) run_scopes
    all = keep-InRun scopes run (values scopes) (values_found scopes u v)

    by_id : Dict Scope
    by_id = map_by (λ t. t.scope_id) run_scopes

    by_branch : Dict Scope
    by_branch = map_by (λ t. t.branch_binding_id) run_scopes

    kept : List Scope
    kept = preserved run by_id by_branch [] existing

    sound : All (InRun scopes run) kept × Unrepeated [] (scope_ids kept)
    sound =
        preserved_sound (InRun scopes run) run by_id by_branch
          (map_by-Entries (InRun scopes run) (λ t. t.scope_id) run_scopes all)
          (map_by-Entries (InRun scopes run) (λ t. t.branch_binding_id) run_scopes all) [] existing

-- The summary of a scope of the run.
abbrev pub Summarises : Dict Scope → String → Summary → Type 0
Summarises scopes run x = (s : Scope) × InRun scopes run s × (x ≡ branch_summary_for_scope s)

abbrev summary_ids : List Summary → List String
summary_ids = map (λ x. x.scope_id)

summaries_of :
    (scopes : Dict Scope) (run : String) (ss : List Scope)
    → All (InRun scopes run) ss
    → All (Summarises scopes run) (map branch_summary_for_scope ss)
summaries_of scopes run [] h = tt
summaries_of scopes run (s ∷ ss) h = ((s, h.0, refl), summaries_of scopes run ss h.1)

summary_ids-eq : (ss : List Scope) → summary_ids (map branch_summary_for_scope ss) ≡ scope_ids ss
unfolding branch_summary_for_scope
summary_ids-eq [] = refl
summary_ids-eq (s ∷ ss) = rw (summary_ids-eq ss)

-- When a scope of a well-formed model is shown, whatever was summarised before: each branch
-- summary describes a scope of the model, of the run that is shown, as it is now; no scope is
-- summarised twice; and the scope that is shown is summarised.
pub visible_projection_for-summaries :
    (m : Model) (s : Scope)
    → IsValid m
    → lookup s.scope_id m.scopes ≡ some s
    → let shown = (visible_projection_for m s).branch_summaries in
      All (Summarises m.scopes s.session_run_id) shown
      × Unrepeated [] (map (λ x. x.scope_id) shown)
      × (contains s.scope_id (map (λ x. x.scope_id) shown) ≡ true)
unfolding visible_projection_for branch_summaries_for_scopes
visible_projection_for-summaries m s v l =
    let ss = covered_scopes m.scopes s m.visible.branch_summaries in
    let (a, b, c) =
      covered_scopes-Covers m.scopes s m.visible.branch_summaries v.distinct v.entries l in
    (
      summaries_of m.scopes s.session_run_id ss a,
      rw (summary_ids-eq ss) b,
      rw (summary_ids-eq ss) c,
    )
