-- ===== src/Chat/PromptQueue/Order.antt =====
-- Prompts leave the queue in the order in which they entered it.
use labrastro_vscode_extensi.Base.{
  ℕ, String, Option, none, some, ◌≡◌, refl, arith, List, [], ◌∷◌, ◌++◌, sym, ◌∙◌, ap,
}
use mathlib.Core.List.{append_assoc, append-nil}
use labrastro_vscode_extensi.Base.Units.{Units}
use labrastro_vscode_extensi.Chat.PromptQueue.{
  PromptState, pending, Item, QueueState, Options, ChatEnd, create_pending_prompt_item,
  enqueue_prompt, pop_next_queue_item, resolve_prompt_queue_after_chat, resume_prompt_queue,
}

-- What the webview does with the queue: a prompt is entered, a chat turn ends, or the user resumes.
pub data Action : Type 0 where
  enqueue : Units → Options → ℕ → String → Action
  chat_end : ChatEnd → Action
  resume : Action

abbrev pub list_of {ℓ} : {A : Type ℓ} → Option A → List A
list_of none = []
list_of (some a) = a ∷ []

-- The prompts that are sent, and the queue that is left.
pub act : QueueState → Action → List Item × QueueState
act s (enqueue text options now fresh) = ([], enqueue_prompt s text options now fresh)
act s (chat_end status) =
    let r = resolve_prompt_queue_after_chat s status in (list_of r.next_item, r.state)
act s resume = let r = resume_prompt_queue s in (list_of r.next_item, r.state)

pub act_all : QueueState → List Action → List Item × QueueState
act_all s [] = ([], s)
act_all s (a ∷ rest) =
    let (sent, t) = act s a in let (later, u) = act_all t rest in (sent ++ later, u)

-- The prompts that the actions enter; a text of white space enters none.
abbrev pub entered : List Action → List Item
entered [] = []
entered (enqueue text options now fresh ∷ rest) =
    list_of (create_pending_prompt_item text options now fresh) ++ entered rest
entered (_ ∷ rest) = entered rest

abbrev adds : Action → List Item
adds (enqueue text options now fresh) = list_of (create_pending_prompt_item text options now fresh)
adds _ = []

entered-cons : (a : Action) (rest : List Action) → entered (a ∷ rest) ≡ adds a ++ entered rest
entered-cons (enqueue text options now fresh) rest = refl
entered-cons (chat_end status) rest = refl
entered-cons resume rest = refl

pop-nil : pop_next_queue_item [] ≡ record { item = none; remaining = [] }
unfolding pop_next_queue_item
pop-nil = ground arith

pop-cons :
    (x : Item) (xs : List Item)
    → pop_next_queue_item (x ∷ xs) ≡ record { item = some x; remaining = xs }
unfolding pop_next_queue_item
pop-cons x xs = go x.state refl
  where
    go :
        (p : PromptState)
        → x.state ≡ p
        → pop_next_queue_item (x ∷ xs) ≡ record { item = some x; remaining = xs }
    go pending e = ground (arith, e)

end_keeps :
    (s : QueueState) (status : ChatEnd) (xs : List Item)
    → s.items ≡ xs
    → (act s (chat_end status)).0 ++ (act s (chat_end status)).1.items ≡ xs ++ []
unfolding act resolve_prompt_queue_after_chat
end_keeps s status [] e = ground (arith, e, pop-nil)
end_keeps s status (x ∷ xs) e = ground (arith, e, pop-cons x xs, append-nil (x ∷ xs))

resume_keeps :
    (s : QueueState) (xs : List Item)
    → s.items ≡ xs
    → (act s resume).0 ++ (act s resume).1.items ≡ xs ++ []
unfolding act resume_prompt_queue
resume_keeps s [] e = ground (arith, e, pop-nil)
resume_keeps s (x ∷ xs) e = ground (arith, e, pop-cons x xs, append-nil (x ∷ xs))

act_keeps : (s : QueueState) (a : Action) → (act s a).0 ++ (act s a).1.items ≡ s.items ++ adds a
unfolding act enqueue_prompt
act_keeps s (enqueue text options now fresh) = ground (arith, append-nil s.items)
act_keeps s (chat_end status) = end_keeps s status s.items refl
act_keeps s resume = resume_keeps s s.items refl

-- Whatever prompts are entered, chat turns end and resumptions come: the prompts sent, followed
-- by those still queued, are the prompts queued at first, followed by those entered, in order. None
-- is lost, sent twice or sent out of order.
pub act_all-order :
    (s : QueueState) (actions : List Action)
    → (act_all s actions).0 ++ (act_all s actions).1.items ≡ s.items ++ entered actions
unfolding act_all
act_all-order s [] = sym (append-nil s.items)
act_all-order s (a ∷ rest) =
    let (sent, t) = act s a in
    append_assoc sent (act_all t rest).0 (act_all t rest).1.items
    ∙ ap (λ l. sent ++ l) (act_all-order t rest)
    ∙ sym (append_assoc sent t.items (entered rest))
    ∙ ap (λ l. l ++ entered rest) (act_keeps s a)
    ∙ append_assoc s.items (adds a) (entered rest)
    ∙ ap (λ l. s.items ++ l) (sym (entered-cons a rest))
