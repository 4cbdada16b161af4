-- ===== src/SessionRuntime/Invariant/Writes.antt =====
-- The writes to the scopes keep the model well formed.
use labrastro_vscode_extensi.Base.{
  String, Bool, true, false, none, some, ◌≡◌, ◌≢◌, refl, arith, inl, inr, Option-cases, Bool-cases,
  sym, subst, ◌∙◌, same, ap,
}
use labrastro_vscode_extensi.Base.Dict.{
  Dict, lookup, erase, lookup-insert_self, lookup-insert_ne, lookup-erase_ne,
}
use labrastro_vscode_extensi.Base.DictKeys.{
  Distinct, Entries, Entries-insert, Entries-erase, Entries-lookup, Distinct-insert, Distinct-erase,
}
use labrastro_vscode_extensi.SessionRuntime.Model.{Scope, Model, Target}
use labrastro_vscode_extensi.SessionRuntime.Clone.{clone_scope, clone_scope_id, clone_records_id}
use labrastro_vscode_extensi.SessionRuntime.Resolve.{resolve_event_scope, scope_target}
use labrastro_vscode_extensi.SessionRuntime.Resolve.Sound.{
  resolve_event_scope_sound, resolve-scope_target, resolve-scope_target_empty,
}
use labrastro_vscode_extensi.SessionRuntime.Visible.{
  visible_projection_for, is_selected, select_branch_projection, refresh_visible_if_selected,
}
use labrastro_vscode_extensi.SessionRuntime.Scopes.{put_scope}
use labrastro_vscode_extensi.SessionRuntime.Invariant.{
  ScopeIsValid, EntryIsValid, ShowsScope, IsValid,
}

-- The model that shows the scope `s`.
abbrev pub showing : Model → Scope → Model
showing m s = record m { visible = visible_projection_for m s }

pub select-eq-showing :
    (m : Model) (t : Target) (s : Scope)
    → resolve_event_scope m t ≡ some s
    → select_branch_projection m t ≡ showing m s
unfolding select_branch_projection
select-eq-showing m t s e = ground (arith, e)

pub select-eq_self :
    (m : Model) (t : Target) → resolve_event_scope m t ≡ none → select_branch_projection m t ≡ m
unfolding select_branch_projection
select-eq_self m t e = ground (arith, e)

pub refresh-eq-showing :
    (m : Model) (id : String) (s : Scope)
    → is_selected m id ≡ true
    → lookup id m.scopes ≡ some s
    → refresh_visible_if_selected m id ≡ showing m s
unfolding refresh_visible_if_selected
refresh-eq-showing m id s h e = ground (arith, h, e)

pub refresh-eq_self :
    (m : Model) (id : String) → is_selected m id ≡ false → refresh_visible_if_selected m id ≡ m
unfolding refresh_visible_if_selected
refresh-eq_self m id h = ground (arith, h)

visible_projection_for-ShowsScope :
    (m : Model) (s : Scope) → ShowsScope (visible_projection_for m s) s
unfolding visible_projection_for
visible_projection_for-ShowsScope m s = record {
  branch = refl;
  transcript = clone_records_id _;
  stats = refl;
  status = refl;
}

-- Showing a scope that stands under its non-empty id keeps the model well formed.
pub showing-IsValid :
    (m : Model) (id : String) (s : Scope)
    → Distinct m.scopes
    → Entries EntryIsValid m.scopes
    → id ≢ ""
    → s.scope_id ≡ id
    → lookup id m.scopes ≡ some s
    → IsValid (showing m s)
unfolding visible_projection_for
showing-IsValid m id s d v n k l = record {
  distinct = d;
  entries = v;
  shows = λ j e.
      let same_id : id ≡ j = ground arith in
      subst
        (λ i.
          (i ≢ "")
          × ((x : Scope) × (lookup i m.scopes ≡ some x)
              × ShowsScope (visible_projection_for m s) x))
        same_id (n, (s, l, visible_projection_for-ShowsScope m s));
}

-- A change to the scopes that leaves the selected one alone keeps the model well formed.
pub scopes-IsValid :
    (m : Model) (d : Dict Scope)
    → IsValid m
    → Distinct d
    → Entries EntryIsValid d
    → ((id : String)
        → m.visible.selected_scope_id ≡ some id
        → id ≢ ""
        → lookup id d ≡ lookup id m.scopes)
    → IsValid (record m { scopes = d })
scopes-IsValid m d v u w h = record {
  distinct = u;
  entries = w;
  shows = λ j e. let (n, (s, l, sh)) = v.shows j e in (n, (s, h j e n ∙ l, sh));
}

selected_other :
    (m : Model) (id j : String)
    → is_selected m id ≡ false
    → m.visible.selected_scope_id ≡ some j
    → id ≢ j
selected_other m id j h e p = ground (arith, h, e, p)

pub selected_this :
    (m : Model) (id : String) → is_selected m id ≡ true → m.visible.selected_scope_id ≡ some id
selected_this m id h = ground (arith, h)

module _ (m : Model) (s : Scope) (v : IsValid m) (w : ScopeIsValid s) where
  put-Distinct : Distinct (put_scope m s).scopes
  unfolding put_scope
  put-Distinct = Distinct-insert s.scope_id (clone_scope s) m.scopes v.distinct

  put-Entries : Entries EntryIsValid (put_scope m s).scopes
  unfolding put_scope
  put-Entries =
      Entries-insert EntryIsValid s.scope_id (clone_scope s) m.scopes
        (subst (EntryIsValid s.scope_id) (sym (clone_scope_id s))
          (record { keyed = refl; valid = w }))
        v.entries

  put_found : lookup s.scope_id (put_scope m s).scopes ≡ some s
  unfolding put_scope
  put_found = lookup-insert_self s.scope_id (clone_scope s) m.scopes ∙ ap some (clone_scope_id s)

  -- Not the selected scope: the write leaves what is shown alone.
  put_other-IsValid :
      ((j : String) → m.visible.selected_scope_id ≡ some j → j ≢ "" → s.scope_id ≢ j)
      → IsValid (put_scope m s)
  unfolding put_scope
  put_other-IsValid h =
      scopes-IsValid m _ v put-Distinct put-Entries
        λ j e n. lookup-insert_ne s.scope_id j (clone_scope s) m.scopes (h j e n)

  pub refresh-put_scope-IsValid : IsValid (refresh_visible_if_selected (put_scope m s) s.scope_id)
  refresh-put_scope-IsValid = elim (Bool-cases (is_selected m s.scope_id)) [
    | inl h ↦
        let n = (v.shows s.scope_id (selected_this m s.scope_id h)).0 in
        subst IsValid (sym (refresh-eq-showing (put_scope m s) s.scope_id s (kept h) put_found))
          (showing-IsValid (put_scope m s) s.scope_id s put-Distinct put-Entries n refl put_found)
    | inr h ↦
        subst IsValid (sym (refresh-eq_self (put_scope m s) s.scope_id (kept h)))
          (put_other-IsValid (λ j e _. selected_other m s.scope_id j h e))
  ]
    where
      kept : {b : Bool} → is_selected m s.scope_id ≡ b → is_selected (put_scope m s) s.scope_id ≡ b
      kept h = unfold put_scope in h

  pub select-put_scope-IsValid :
      IsValid (select_branch_projection (put_scope m s) (scope_target s.scope_id))
  select-put_scope-IsValid = elim (same s.scope_id "") [
    | yes e ↦
        subst IsValid
          (sym (select-eq_self (put_scope m s) _ (resolve-scope_target_empty (put_scope m s) _ e)))
          (put_other-IsValid (λ j _ n p. n (sym p ∙ e)))
    | no n ↦
        subst IsValid
          (sym (
            select-eq-showing (put_scope m s) _ s
              (resolve-scope_target (put_scope m s) s.scope_id s n put_found)))
          (showing-IsValid (put_scope m s) s.scope_id s put-Distinct put-Entries n refl put_found)
  ]

-- Selecting a branch keeps the model well formed, also when the target is not found.
pub select-IsValid :
    (m : Model) (t : Target)
    → Distinct m.scopes
    → Entries EntryIsValid m.scopes
    → (resolve_event_scope m t ≡ none → IsValid m)
    → IsValid (select_branch_projection m t)
select-IsValid m t d v other = elim (Option-cases (resolve_event_scope m t)) [
  | inl e ↦ subst IsValid (sym (select-eq_self m t e)) (other e)
  | inr (s, e) ↦
      let (id, n, l, _) = resolve_event_scope_sound m t s e in
      let w = Entries-lookup EntryIsValid id s m.scopes v l in
      subst IsValid (sym (select-eq-showing m t s e)) (showing-IsValid m id s d v n w.keyed l)
]

pub erase-IsValid :
    (m : Model) (id : String)
    → IsValid m
    → is_selected m id ≡ false
    → IsValid (record m { scopes = erase id m.scopes })
erase-IsValid m id v h =
    scopes-IsValid m _ v (Distinct-erase id m.scopes v.distinct)
      (Entries-erase EntryIsValid id m.scopes v.entries)
      λ j e _. lookup-erase_ne id j m.scopes (selected_other m id j h e)
