-- ===== src/SessionRuntime/Scopes/Contents.antt =====
-- What the writes leave in the scopes: refreshing and selecting change the projection alone.
use labrastro_vscode_extensi.Base.{String, Bool, true, false, some, ◌≡◌, arith, ◌∙◌, ap}
use labrastro_vscode_extensi.Base.Dict.{lookup, insert, lookup-insert_self}
use labrastro_vscode_extensi.SessionRuntime.Model.{Scope, Model, Target}
use labrastro_vscode_extensi.SessionRuntime.Clone.{clone_scope_id}
use labrastro_vscode_extensi.SessionRuntime.Resolve.{scope_target, scope_agent_run_conflicts}
use labrastro_vscode_extensi.SessionRuntime.Visible.{
  select_branch_projection, refresh_visible_if_selected,
}
use labrastro_vscode_extensi.SessionRuntime.Scopes.{put_scope, upsert_scope, update_scope}

pub refresh-scopes :
    (m : Model) (id : String) → (refresh_visible_if_selected m id).scopes ≡ m.scopes
unfolding refresh_visible_if_selected
refresh-scopes m id = ground arith

pub select-scopes : (m : Model) (t : Target) → (select_branch_projection m t).scopes ≡ m.scopes
unfolding select_branch_projection
select-scopes m t = ground arith

pub put_scope-scopes :
    (m : Model) (s : Scope) → (put_scope m s).scopes ≡ insert s.scope_id s m.scopes
unfolding put_scope
put_scope-scopes m s = ap (λ x. insert s.scope_id x m.scopes) (clone_scope_id s)

pub update_scope-scopes :
    (m : Model) (s : Scope) → (update_scope m s).model.scopes ≡ insert s.scope_id s m.scopes
unfolding update_scope
update_scope-scopes m s = refresh-scopes (put_scope m s) s.scope_id ∙ put_scope-scopes m s

pub update_scope-lookup :
    (m : Model) (s : Scope) → lookup s.scope_id (update_scope m s).model.scopes ≡ some s
update_scope-lookup m s =
    ap (lookup s.scope_id) (update_scope-scopes m s) ∙ lookup-insert_self s.scope_id s m.scopes

pub upsert_scope-scopes :
    (m : Model) (s : Scope) (select : Bool)
    → scope_agent_run_conflicts (lookup s.scope_id m.scopes) (some s.agent_run_id) ≡ false
    → (upsert_scope m s select).model.scopes ≡ insert s.scope_id s m.scopes
unfolding upsert_scope
upsert_scope-scopes m s true h =
    ground (arith, h, put_scope-scopes m s, select-scopes (put_scope m s) (scope_target s.scope_id))
upsert_scope-scopes m s false h =
    ground (arith, h, put_scope-scopes m s, refresh-scopes (put_scope m s) s.scope_id)
