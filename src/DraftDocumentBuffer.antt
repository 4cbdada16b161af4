-- ===== src/DraftDocumentBuffer.antt =====
-- src/DraftDocumentBuffer.ts: the text of a draft, put together from chunks and snapshots. Numbers
-- are natural numbers here. The hash of node's crypto and the parser of the language's `Number` (none
-- for what is not a finite number) are parameters.
pub mod Assembly
pub mod Recovery
mod Tests
use labrastro_vscode_extensi.Base.{
  ℕ, String, Bool, true, false, not, ◌&&◌, ◌||◌, ◌+◌, Option, none, some, if◌then◌else◌, or_else,
  is_some, List, [], ◌∷◌, ◌++◌, length, leb, ltb, eqb, suc,
}
use labrastro_vscode_extensi.Base.Dict.{Dict, lookup}
use labrastro_vscode_extensi.Base.Units.{Units, trim}

-- The value of a payload's field, as far as the code tells values apart.
pub data Field : Type 0 where
  null_field other_field : Field
  number_field : ℕ → Field
  text_field : Units → Field

abbrev pub Payload : Type 0
Payload = Dict Field

pub record BufferResult : Type 0 where
  pub changed : Bool
  pub accepted : Bool
  pub reason : Option String

pub record Buffer : Type 0 where
  pub text : Units
  pub last_chunk_seq : ℕ
  pub waiting_for_snapshot : Bool

abbrev pub new_buffer : Buffer
new_buffer = record { text = []; last_chunk_seq = 0; waiting_for_snapshot = false }

-- `payload.a ?? payload.b`
unfoldable pub field : Payload → String → String → Option Field
field payload a b = elim (lookup a payload) [
  | none ↦ lookup b payload
  | some null_field ↦ lookup b payload
  | some value ↦ some value
]

abbrev pub string_value : Option Field → Units
string_value (some (text_field text)) = text
string_value _ = []

abbrev pub is_empty : Units → Bool
is_empty [] = true
is_empty (_ ∷ _) = false

abbrev pub same_units : Units → Units → Bool
same_units [] [] = true
same_units (c ∷ cs) (d ∷ ds) = eqb c d && same_units cs ds
same_units _ _ = false

abbrev pub draft_text_units : Units → ℕ
draft_text_units = length

-- The larger of two numbers.
abbrev pub larger : ℕ → ℕ → ℕ
larger a b = if ltb a b then b else a

abbrev refuse : String → BufferResult
refuse why = record { changed = false; accepted = false; reason = some why }

abbrev updated : BufferResult
updated = record { changed = true; accepted = true; reason = none }

-- A refusal after which only a snapshot helps.
abbrev await_snapshot : String → Buffer → BufferResult × Buffer
await_snapshot why buffer = (refuse why, record buffer { waiting_for_snapshot = true })

module _ (sha256 : Units → Units) (parse : Units → Option ℕ) where
  abbrev pub number_value : Option Field → Option ℕ
  number_value (some (number_field n)) = some n
  number_value (some (text_field text)) = if is_empty (trim text) then none else parse text
  number_value _ = none

  -- `expectedHash && expectedHash !== sha256(content)`
  abbrev pub hash_mismatch : Payload → Units → Bool
  hash_mismatch payload content =
      let expected = string_value (field payload "content_sha256" "contentSha256") in
      not (is_empty expected) && not (same_units expected (sha256 content))

  -- `endOffset !== undefined && endOffset !== startOffset + draftTextUnits(content)`
  abbrev pub offset_mismatch : Option ℕ → ℕ → Units → Bool
  offset_mismatch none start content = false
  offset_mismatch (some stop) start content = not (eqb stop (start + draft_text_units content))

  -- A chunk with a number, a start and a text: the tests from the duplicate one on.
  unfoldable pub apply_valid_chunk : Buffer → Payload → ℕ → ℕ → Units → BufferResult × Buffer
  apply_valid_chunk buffer payload seq start content =
      if leb seq buffer.last_chunk_seq
      then (record { changed = false; accepted = true; reason = some "duplicate_chunk" }, buffer)
      else if buffer.waiting_for_snapshot
      then (refuse "awaiting_snapshot", buffer)
      else if not (eqb seq (buffer.last_chunk_seq + 1))
      then await_snapshot "sequence_gap" buffer
      else if not (eqb start (draft_text_units buffer.text))
      then await_snapshot "offset_gap" buffer
      else if offset_mismatch (number_value (field payload "end_offset" "endOffset")) start content
      then await_snapshot "offset_mismatch" buffer
      else if hash_mismatch payload content
      then await_snapshot "hash_mismatch" buffer
      else (updated, record buffer { text = buffer.text ++ content; last_chunk_seq = seq })

  unfoldable pub apply_preview_chunk : Buffer → Payload → BufferResult × Buffer
  apply_preview_chunk buffer payload =
      let content = string_value (lookup "content" payload) in
      if is_empty content
      then (refuse "invalid_chunk", buffer)
      else elim (number_value (field payload "chunk_seq" "chunkSeq")) [
        | none ↦ (refuse "invalid_chunk", buffer)
        | some seq ↦ elim (number_value (field payload "start_offset" "startOffset")) [
          | none ↦ (refuse "invalid_chunk", buffer)
          | some start ↦ apply_valid_chunk buffer payload seq start content
        ]
      ]

  unfoldable pub apply_snapshot : Buffer → Payload → BufferResult × Buffer
  apply_snapshot buffer payload =
      let content = string_value (lookup "content" payload) in
      if not (is_some (lookup "content" payload))
      then await_snapshot "missing_content" buffer
      else if hash_mismatch payload content
      then await_snapshot "hash_mismatch" buffer
      else (
        updated,
        record {
          text = content;
          last_chunk_seq = elim (number_value (field payload "last_chunk_seq" "lastChunkSeq")) [
            | none ↦ buffer.last_chunk_seq
            | some seq ↦ larger buffer.last_chunk_seq seq
          ];
          waiting_for_snapshot = false;
        },
      )
