-- ===== src/ViewRuntime/Invariant/Writes.antt =====
-- The writes to the webview's scopes keep the model well formed.
use labrastro_vscode_extensi.Base.{
  String, Bool, true, false, none, some, ◌≡◌, ◌≢◌, refl, arith, inl, inr, Option-cases, Bool-cases,
  sym, subst, ◌∙◌,
}
use labrastro_vscode_extensi.Base.Dict.{
  Dict, lookup, erase, lookup-insert_self, lookup-insert_ne, lookup-erase_ne,
}
use labrastro_vscode_extensi.Base.DictKeys.{
  Distinct, Entries, Entries-insert, Entries-erase, Entries-lookup, Distinct-insert, Distinct-erase,
}
use labrastro_vscode_extensi.SessionRuntime.Model.{Target}
use labrastro_vscode_extensi.SessionRuntime.Resolve.{scope_target}
use labrastro_vscode_extensi.ViewRuntime.Model.{Scope, Model}
use labrastro_vscode_extensi.ViewRuntime.Visible.{
  resolve_message_scope, is_selected, projection_for, select_session_runtime_scope, refresh_visible,
  put_scope,
}
use labrastro_vscode_extensi.ViewRuntime.Invariant.{
  ScopeIsValid, EntryIsValid, ShowsScope, IsValid, resolve_message_scope_sound,
  resolve-scope_target,
}

-- The model that shows the scope `s`.
abbrev pub showing : Model → Scope → Model
showing m s = record m { visible = projection_for m s }

pub select-eq-showing :
    (m : Model) (t : Target) (s : Scope)
    → resolve_message_scope m t ≡ some s
    → select_session_runtime_scope m t ≡ showing m s
unfolding select_session_runtime_scope
select-eq-showing m t s e = ground (arith, e)

pub select-eq_self :
    (m : Model) (t : Target)
    → resolve_message_scope m t ≡ none
    → select_session_runtime_scope m t ≡ m
unfolding select_session_runtime_scope
select-eq_self m t e = ground (arith, e)

refresh-eq-showing :
    (m : Model) (id : String) (s : Scope)
    → is_selected m id ≡ true
    → lookup id m.scopes ≡ some s
    → refresh_visible m id ≡ showing m s
unfolding refresh_visible
refresh-eq-showing m id s h e = ground (arith, h, e)

refresh-eq_self : (m : Model) (id : String) → is_selected m id ≡ false → refresh_visible m id ≡ m
unfolding refresh_visible
refresh-eq_self m id h = ground (arith, h)

pub projection_for-ShowsScope : (m : Model) (s : Scope) → ShowsScope (projection_for m s) s
unfolding projection_for
projection_for-ShowsScope m s = record {
  run = refl;
  session = refl;
  branch = refl;
  transcript = refl;
  stats = refl;
  status = refl;
}

-- Showing a scope that stands under its non-empty id keeps the model well formed.
pub showing-IsValid :
    (m : Model) (id : String) (s : Scope)
    → Distinct m.scopes
    → Entries EntryIsValid m.scopes
    → id ≢ ""
    → s.scope_id ≡ id
    → lookup id m.scopes ≡ some s
    → IsValid (showing m s)
unfolding projection_for
showing-IsValid m id s d v n k l = record {
  distinct = d;
  entries = v;
  shows = λ j e.
      let here : id ≡ j = ground arith in
      (
        subst (λ i. i ≢ "") here n,
        (s, subst (λ i. lookup i m.scopes ≡ some s) here l, projection_for-ShowsScope m s),
      );
}

-- A change to the scopes that leaves the selected one alone keeps the model well formed.
scopes-IsValid :
    (m : Model) (d : Dict Scope)
    → IsValid m
    → Distinct d
    → Entries EntryIsValid d
    → ((id : String)
        → m.visible.selected_scope_id ≡ some id
        → id ≢ ""
        → lookup id d ≡ lookup id m.scopes)
    → IsValid (record m { scopes = d })
scopes-IsValid m d v u w h = record {
  distinct = u;
  entries = w;
  shows = λ j e. let (n, (s, l, sh)) = v.shows j e in (n, (s, h j e n ∙ l, sh));
}

pub selected_other :
    (m : Model) (id j : String)
    → is_selected m id ≡ false
    → m.visible.selected_scope_id ≡ some j
    → id ≢ j
selected_other m id j h e p = ground (arith, h, e, p)

pub selected_this :
    (m : Model) (id : String) → is_selected m id ≡ true → m.visible.selected_scope_id ≡ some id
selected_this m id h = ground (arith, h)

module _ (m : Model) (s : Scope) (v : IsValid m) (w : ScopeIsValid s) where
  put-Distinct : Distinct (put_scope m s).scopes
  unfolding put_scope
  put-Distinct = Distinct-insert s.scope_id s m.scopes v.distinct

  put-Entries : Entries EntryIsValid (put_scope m s).scopes
  unfolding put_scope
  put-Entries =
      Entries-insert EntryIsValid s.scope_id s m.scopes (record { keyed = refl; valid = w })
        v.entries

  pub put_found : lookup s.scope_id (put_scope m s).scopes ≡ some s
  unfolding put_scope
  put_found = lookup-insert_self s.scope_id s m.scopes

  pub refresh-put_scope-IsValid : IsValid (refresh_visible (put_scope m s) s.scope_id)
  refresh-put_scope-IsValid = elim (Bool-cases (is_selected m s.scope_id)) [
    | inl h ↦
        subst IsValid (sym (refresh-eq-showing (put_scope m s) s.scope_id s (kept h) put_found)) (
          showing-IsValid (put_scope m s) s.scope_id s put-Distinct put-Entries w.named refl
            put_found)
    | inr h ↦
        subst IsValid (sym (refresh-eq_self (put_scope m s) s.scope_id (kept h)))
          (other (λ j e _. selected_other m s.scope_id j h e))
  ]
    where
      kept : {b : Bool} → is_selected m s.scope_id ≡ b → is_selected (put_scope m s) s.scope_id ≡ b
      kept h = unfold put_scope in h

      other :
          ((j : String) → m.visible.selected_scope_id ≡ some j → j ≢ "" → s.scope_id ≢ j)
          → IsValid (put_scope m s)
      other h =
          unfold put_scope in
          scopes-IsValid m _ v put-Distinct put-Entries
            λ j e n. lookup-insert_ne s.scope_id j s m.scopes (h j e n)

  pub select-put_scope-IsValid :
      IsValid (select_session_runtime_scope (put_scope m s) (scope_target s.scope_id))
  select-put_scope-IsValid =
      subst IsValid
        (sym (
          select-eq-showing (put_scope m s) _ s
            (resolve-scope_target (put_scope m s) s.scope_id s w.named put_found)))
        (showing-IsValid (put_scope m s) s.scope_id s put-Distinct put-Entries w.named refl
          put_found)

-- Selecting a scope keeps the model well formed, also when it is not found.
pub select-IsValid :
    (m : Model) (t : Target)
    → Distinct m.scopes
    → Entries EntryIsValid m.scopes
    → (resolve_message_scope m t ≡ none → IsValid m)
    → IsValid (select_session_runtime_scope m t)
select-IsValid m t d v other = elim (Option-cases (resolve_message_scope m t)) [
  | inl e ↦ subst IsValid (sym (select-eq_self m t e)) (other e)
  | inr (s, e) ↦
      let (id, n, l, _) = resolve_message_scope_sound m t s e in
      let w = Entries-lookup EntryIsValid id s m.scopes v l in
      subst IsValid (sym (select-eq-showing m t s e)) (showing-IsValid m id s d v n w.keyed l)
]

pub erase-IsValid :
    (m : Model) (id : String)
    → IsValid m
    → is_selected m id ≡ false
    → IsValid (record m { scopes = erase id m.scopes })
erase-IsValid m id v h =
    scopes-IsValid m _ v (Distinct-erase id m.scopes v.distinct)
      (Entries-erase EntryIsValid id m.scopes v.entries)
      λ j e _. lookup-erase_ne id j m.scopes (selected_other m id j h e)
