-- ===== src/ViewRuntime/Effects/Composition.antt =====
-- The messages of the host and the view together.
use labrastro_vscode_extensi.Base.{
  false, not, sym, subst, ◌∙◌, some, List, [], ◌∷◌, ◌≡◌, refl, arith, any,
}
use labrastro_vscode_extensi.SessionRuntime.Model.{Target}
use labrastro_vscode_extensi.ViewRuntime.Model.{
  Projection, Effect, message_rejected, Scope, Model, Message, select_branch, scope_updated,
  scope_deleted, projection_updated, operation_settled,
}
use labrastro_vscode_extensi.ViewRuntime.Visible.{resolve_message_scope, projection_for}
use labrastro_vscode_extensi.ViewRuntime.Reducer.{reduce_host_message}
use labrastro_vscode_extensi.ViewRuntime.Invariant.{IsValid}
use labrastro_vscode_extensi.ViewRuntime.Silence.{
  is_silent, IsBackground, reduce_host_message-background,
}
use labrastro_vscode_extensi.ViewRuntime.Effects.{ViewState, calls_for, perform_all, apply_effects}
use labrastro_vscode_extensi.ViewRuntime.Effects.Showing.{
  ShowsProjection, projection_calls-ShowsProjection,
}
use labrastro_vscode_extensi.Base.Dict.{lookup}
use labrastro_vscode_extensi.SessionRuntime.Resolve.{scope_target}
use labrastro_vscode_extensi.ViewRuntime.Reducer.{select_by_message}
use labrastro_vscode_extensi.ViewRuntime.Invariant.{
  ShowsScope, lookup-keyed, resolve_message_scope_sound, resolve-scope_target,
}
use labrastro_vscode_extensi.ViewRuntime.Invariant.Writes.{
  showing, select-eq-showing, projection_for-ShowsScope,
}

silent-eq :
    (v : ViewState) (effects : List Effect)
    → any (λ x. not (is_silent x)) effects ≡ false
    → apply_effects v effects ≡ v
unfolding apply_effects calls_for perform_all
silent-eq v [] h = refl
silent-eq v (message_rejected _ ∷ effects) h = silent-eq v effects h
silent-eq v (scope_updated _ ∷ effects) h = silent-eq v effects h
silent-eq v (scope_deleted _ ∷ effects) h = silent-eq v effects h
silent-eq v (operation_settled _ _ ∷ effects) h = silent-eq v effects h
silent-eq v (_ ∷ effects) h = absurd (cc)

-- A message that is not about the selected scope leaves the whole view as it was, its status, timer,
-- turns, notices and queue, if the model is well formed. Such a message is a status, a next turn,
-- streamed events, a reply, or an operation's result, whose target is not there or not selected; an
-- upsert of a scope that is not selected, which does not select it; the deletion of such a scope; or a
-- pending operation of such a scope, without an optimistic projection.
pub background_message-view :
    (v : ViewState) (m : Model) (message : Message)
    → IsValid m
    → IsBackground m message
    → apply_effects v (reduce_host_message m message).effects ≡ v
background_message-view v m message valid h =
    silent-eq v (reduce_host_message m message).effects
      (reduce_host_message-background m message valid h)

select-eq :
    (m : Model) (t : Target) (s : Scope)
    → IsValid m
    → resolve_message_scope m t ≡ some s
    → reduce_host_message m (select_branch t)
      ≡ record { model = showing m s; effects = projection_updated (projection_for m s) ∷ [] }
unfolding reduce_host_message select_by_message
select-eq m t s valid e =
    let (id, n, l, _) = resolve_message_scope_sound m t s e in
    let k = (lookup-keyed id s valid l).keyed in
    let named : resolve_message_scope m (scope_target s.scope_id) ≡ some s =
      resolve-scope_target m s.scope_id s (λ p. n (sym k ∙ p))
        (subst (λ i. lookup i m.scopes ≡ some s) (sym k) l) in
    let shown = select-eq-showing m (scope_target s.scope_id) s named in
    ground (arith, e, named, shown)

-- After a scope was selected the model shows that scope, and the view shows what the model does: the
-- branch, the run, its status, its turns and statistics last, the work and the timer according to its
-- status.
pub select_branch-shown :
    (v : ViewState) (m : Model) (t : Target) (s : Scope)
    → IsValid m
    → resolve_message_scope m t ≡ some s
    → ShowsScope (reduce_host_message m (select_branch t)).model.visible s
      × ShowsProjection v.timer
          (apply_effects v (reduce_host_message m (select_branch t)).effects)
          (reduce_host_message m (select_branch t)).model.visible
select_branch-shown v m t s valid e =
    subst
      (λ r.
        ShowsScope r.model.visible s
        × ShowsProjection v.timer (apply_effects v r.effects) r.model.visible)
      (sym (select-eq m t s valid e)) (projection_for-ShowsScope m s, one v (projection_for m s))
  where
    one :
        (v : ViewState) (p : Projection)
        → ShowsProjection v.timer (apply_effects v (projection_updated p ∷ [])) p
    one v p = unfold apply_effects calls_for in projection_calls-ShowsProjection v p
