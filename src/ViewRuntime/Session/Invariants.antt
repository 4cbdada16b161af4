-- ===== src/ViewRuntime/Session/Invariants.antt =====
-- The model and the view of a chat stay well formed under the messages of the host.
use labrastro_vscode_extensi.Base.{
  some, ◌≡◌, arith, List, [], ◌∷◌, or_else, inl, inr, Bool-cases, Option-cases, subst, All,
}
use labrastro_vscode_extensi.ViewRuntime.Model.{Message}
use labrastro_vscode_extensi.ViewRuntime.Reducer.{reduce_host_message}
use labrastro_vscode_extensi.ViewRuntime.Invariant.{IsValid, MessageIsValid}
use labrastro_vscode_extensi.ViewRuntime.Invariant.Messages.{reduce_host_message-IsValid}
use labrastro_vscode_extensi.ViewRuntime.Effects.{apply_effects}
use labrastro_vscode_extensi.ViewRuntime.Effects.Timer.{IsTimed, apply_effects-IsTimed}
use labrastro_vscode_extensi.ViewRuntime.Session.{ChatSession, apply_message, is_rejected}

-- The model is well formed, and the timer runs only while the view is working.
abbrev pub ChatIsValid : ChatSession → Type 0
ChatIsValid c = IsValid c.model × IsTimed c.view

-- A list of messages in the order of their arrival; a refused one changes nothing.
unfoldable pub apply_messages : ChatSession → List Message → ChatSession
apply_messages c [] = c
apply_messages c (x ∷ xs) = apply_messages (or_else (apply_message c x) c) xs

apply_message-ChatIsValid :
    (c d : ChatSession) (message : Message)
    → ChatIsValid c
    → MessageIsValid message
    → apply_message c message ≡ some d
    → ChatIsValid d
unfolding apply_message
apply_message-ChatIsValid c d message v w e =
    let r = reduce_host_message c.model message in
    let after : ChatSession = record { model = r.model; view = apply_effects c.view r.effects } in
    elim (Bool-cases (is_rejected r.effects)) [
      | inl h ↦ absurd (ground (arith, e, h))
      | inr h ↦
          let q : after ≡ d = ground (arith, e, h) in
          subst ChatIsValid q (
            reduce_host_message-IsValid c.model message v.0 w,
            apply_effects-IsTimed c.view r.effects v.1,
          )
    ]

kept-ChatIsValid :
    (c : ChatSession) (message : Message)
    → ChatIsValid c
    → MessageIsValid message
    → ChatIsValid (or_else (apply_message c message) c)
kept-ChatIsValid c message v w = elim (Option-cases (apply_message c message)) [
  | inl e ↦ rw e v
  | inr (d, e) ↦ rw e (apply_message-ChatIsValid c d message v w e)
]

-- However many messages arrive, in whatever order, the model stays well formed and the timer of the
-- view runs only while the view is working, if the scopes and the operations that the messages carry
-- are well formed.
pub apply_messages-ChatIsValid :
    (c : ChatSession) (messages : List Message)
    → ChatIsValid c
    → All MessageIsValid messages
    → ChatIsValid (apply_messages c messages)
unfolding apply_messages
apply_messages-ChatIsValid c [] v w = v
apply_messages-ChatIsValid c (x ∷ xs) v (w, ws) =
    apply_messages-ChatIsValid (or_else (apply_message c x) c) xs (kept-ChatIsValid c x v w) ws
