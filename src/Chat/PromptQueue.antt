-- ===== src/Chat/PromptQueue.antt =====
-- promptQueue.ts: the prompts that wait for the end of the current chat turn. The clock and the
-- random part of an id are arguments of the calls that read them.
pub mod Order
use labrastro_vscode_extensi.Base.{
  ℕ, String, Bool, true, false, not, ◌&&◌, ◌||◌, Option, none, some, if◌then◌else◌, ◌==◌, or_else,
  given, List, [], ◌∷◌, ◌++◌, any, keep, take, drop, find_index, length, leb, suc,
}
use labrastro_vscode_extensi.Base.Units.{Units, trim}
use labrastro_vscode_extensi.SessionRuntime.Model.{View}

pub data PromptState : Type 0 where
  pending : PromptState

pub record Item : Type 0 where
  pub id : String
  pub text : Units
  pub state : PromptState
  pub created_at : ℕ
  pub request_id : Option String
  pub mentions : Option (List View)
  pub error : Option String

pub record QueueState : Type 0 where
  pub items : List Item
  pub paused : Bool

pub record Resolution : Type 0 where
  pub next_prompt : Option Units
  pub next_item : Option Item
  pub state : QueueState

pub record Options : Type 0 where
  pub id : Option String
  pub created_at : Option ℕ
  pub request_id : Option String
  pub mentions : Option (List View)

pub data ChatEnd : Type 0 where
  done error cancelled interrupted : ChatEnd

abbrev pub create_prompt_queue_state : QueueState
create_prompt_queue_state = record { items = []; paused = false }

-- `options.mentions?.length ? … : {}`
abbrev pub non_empty : Option (List View) → Option (List View)
non_empty none = none
non_empty (some []) = none
non_empty (some (v ∷ vs)) = some (v ∷ vs)

abbrev item_of : Units → Options → ℕ → String → Item
item_of next options now fresh = record {
  id = or_else (given options.id) fresh;
  text = next;
  state = pending;
  created_at = or_else options.created_at now;
  request_id = given options.request_id;
  mentions = non_empty options.mentions;
  error = none;
}

-- `now` and `fresh` stand for `Date.now()` and the generated id.
unfoldable pub create_pending_prompt_item : Units → Options → ℕ → String → Option Item
create_pending_prompt_item text options now fresh = elim (trim text) [
  | [] ↦ none
  | c ∷ cs ↦ some (item_of (c ∷ cs) options now fresh)
]

unfoldable pub enqueue_prompt : QueueState → Units → Options → ℕ → String → QueueState
enqueue_prompt s text options now fresh = elim (create_pending_prompt_item text options now fresh) [
  | none ↦ s
  | some item ↦ record { items = s.items ++ item ∷ []; paused = s.paused }
]

abbrev pub is_runnable_queue_item : Item → Bool
is_runnable_queue_item item = elim item.state [ pending ↦ true ]

pub record Popped : Type 0 where
  pub item : Option Item
  pub remaining : List Item

abbrev pub item_at : List Item → ℕ → Option Item
item_at items index = elim (drop index items) [ [] ↦ none | item ∷ _ ↦ some item ]

unfoldable pub pop_next_queue_item : List Item → Popped
pop_next_queue_item items = elim (find_index is_runnable_queue_item items) [
  | none ↦ record { item = none; remaining = items }
  | some index ↦ record {
    item = item_at items index;
    remaining = take index items ++ drop (suc index) items;
  }
]

abbrev pub is_done : ChatEnd → Bool
is_done done = true
is_done _ = false

-- What both ways to go on make of the next item.
abbrev sends : Item → List Item → Resolution
sends item remaining = record {
  next_prompt = some item.text;
  next_item = some item;
  state = record { items = remaining; paused = false };
}

abbrev stays : QueueState → Resolution
stays s = record { next_prompt = none; next_item = none; state = s }

unfoldable pub resolve_prompt_queue_after_chat : QueueState → ChatEnd → Resolution
resolve_prompt_queue_after_chat s status =
    let has_queue_items = any is_runnable_queue_item s.items in
    if not (is_done status) || (s.paused || not has_queue_items)
    then stays (record s { paused = if is_done status then s.paused else has_queue_items })
    else let next = pop_next_queue_item s.items in
      elim next.item [ none ↦ stays s | some item ↦ sends item next.remaining ]

unfoldable pub resume_prompt_queue : QueueState → Resolution
resume_prompt_queue s =
    let next = pop_next_queue_item s.items in
    elim next.item [
      | none ↦ stays create_prompt_queue_state
      | some item ↦ sends item next.remaining
    ]

abbrev pub clear_prompt_queue : QueueState
clear_prompt_queue = create_prompt_queue_state

unfoldable pub remove_prompt_item : QueueState → String → QueueState
remove_prompt_item s item_id = record {
  items = keep (λ (item : Item). not (item.id == item_id)) s.items;
  paused = if leb (length s.items) 1 then false else s.paused;
}

abbrev pub queued_prompt_count : QueueState → ℕ
queued_prompt_count s = length (keep is_runnable_queue_item s.items)
