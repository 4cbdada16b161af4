-- ===== src/DraftDocumentBuffer/Assembly.antt =====
-- What the buffer holds when the chunks and the snapshots of one document reach it.
use labrastro_vscode_extensi.Base.{
  ℕ, String, true, false, ◌+◌, ◌≤◌, Option, none, some, ◌≡◌, refl, arith, List, [], ◌∷◌, ◌++◌,
  length, length-append, take, suc, zero, sym, ◌∙◌, ap, inl, inr, Bool-cases, All,
}
use mathlib.Core.List.{append_assoc, append-nil}
use labrastro_vscode_extensi.Base.Dict.{lookup}
use labrastro_vscode_extensi.Base.Units.{Units}
use labrastro_vscode_extensi.DraftDocumentBuffer.{
  Payload, Buffer, new_buffer, field, string_value, number_value, apply_valid_chunk,
  apply_preview_chunk, apply_snapshot,
}

-- The pieces of a document, one after the other.
abbrev pub joined : List Units → Units
joined [] = []
joined (piece ∷ pieces) = piece ++ joined pieces

-- The text of the first `n` pieces.
abbrev pub first_pieces : ℕ → List Units → Units
first_pieces n pieces = joined (take n pieces)

abbrev pub piece_at : ℕ → List Units → Option Units
piece_at n [] = none
piece_at zero (piece ∷ pieces) = some piece
piece_at (suc n) (piece ∷ pieces) = piece_at n pieces

pub data Delivery : Type 0 where
  chunk snapshot : Payload → Delivery

first_pieces-suc :
    (n : ℕ) (pieces : List Units) (piece : Units)
    → piece_at n pieces ≡ some piece
    → first_pieces (suc n) pieces ≡ first_pieces n pieces ++ piece
first_pieces-suc n [] piece h = absurd (cc)
first_pieces-suc zero (x ∷ xs) piece h = ground (arith, h, append-nil x)
first_pieces-suc (suc n) (x ∷ xs) piece h =
    ap (λ l. x ++ l) (first_pieces-suc n xs piece h)
    ∙ sym (append_assoc x (first_pieces n xs) piece)

no_units : (u : Units) → length u ≡ 0 → u ≡ []
no_units [] h = refl
no_units (c ∷ cs) h = absurd (omega (arith, h))

-- Two beginnings of a document that are as long as each other are the same.
first_pieces-same :
    (k n : ℕ) (pieces : List Units)
    → k ≤ n
    → length (first_pieces k pieces) ≡ length (first_pieces n pieces)
    → first_pieces k pieces ≡ first_pieces n pieces
first_pieces-same zero n pieces le h = sym (no_units (first_pieces n pieces) (sym h))
first_pieces-same (suc k) zero pieces le h = absurd (omega (arith, le))
first_pieces-same (suc k) (suc n) [] le h = refl
first_pieces-same (suc k) (suc n) (x ∷ xs) le h =
    ap (λ l. x ++ l)
      (first_pieces-same k n xs (omega (arith, le)) (
        omega (arith, h, length-append x (first_pieces k xs), length-append x (first_pieces n xs))))

module _ (sha256 : Units → Units) (parse : Units → Option ℕ) where
  abbrev chunk_after : Buffer → Payload → Buffer
  chunk_after buffer payload = (apply_preview_chunk sha256 parse buffer payload).1

  abbrev snapshot_after : Buffer → Payload → Buffer
  snapshot_after buffer payload = (apply_snapshot sha256 parse buffer payload).1

  abbrev pub deliver : Buffer → Delivery → Buffer
  deliver buffer (chunk payload) = chunk_after buffer payload
  deliver buffer (snapshot payload) = snapshot_after buffer payload

  abbrev pub deliver_all : Buffer → List Delivery → Buffer
  deliver_all buffer [] = buffer
  deliver_all buffer (d ∷ rest) = deliver_all (deliver buffer d) rest

module _ (sha256 : Units → Units) (parse : Units → Option ℕ) (pieces : List Units) where
  abbrev pub number_of : Payload → String → String → Option ℕ
  number_of payload a b = number_value sha256 parse (field payload a b)

  -- The payload carries the piece with its number, from 1, and the place where it starts.
  pub record IsChunk (payload : Payload) : Type 0 where
    pub index : ℕ
    pub has_seq : number_of payload "chunk_seq" "chunkSeq" ≡ some (suc index)
    pub has_piece : piece_at index pieces ≡ some (string_value (lookup "content" payload))
    pub has_start :
        number_of payload "start_offset" "startOffset" ≡ some (length (first_pieces index pieces))

  -- The payload carries the text up to a piece, with the number of that piece.
  pub record IsSnapshot (payload : Payload) : Type 0 where
    pub seq : ℕ
    pub has_seq : number_of payload "last_chunk_seq" "lastChunkSeq" ≡ some seq
    pub has_text : string_value (lookup "content" payload) ≡ first_pieces seq pieces

  abbrev pub IsOfDocument : Delivery → Type 0
  IsOfDocument (chunk payload) = IsChunk payload
  IsOfDocument (snapshot payload) = IsSnapshot payload

  -- The text is a beginning of the document that ends with a piece, not one past the last number.
  pub record IsBeginning (buffer : Buffer) : Type 0 where
    pub count : ℕ
    pub within : count ≤ buffer.last_chunk_seq
    pub holds : buffer.text ≡ first_pieces count pieces

  -- A chunk that is not taken leaves text and number.
  chunk_keeps :
      (buffer : Buffer) (payload : Payload)
      → (apply_preview_chunk sha256 parse buffer payload).0.changed ≡ false
      → ((chunk_after sha256 parse buffer payload).text ≡ buffer.text)
        × ((chunk_after sha256 parse buffer payload).last_chunk_seq ≡ buffer.last_chunk_seq)
  unfolding apply_preview_chunk apply_valid_chunk
  chunk_keeps buffer payload h = ground (arith, h)

  -- A chunk that is taken is the next one, starts at the end and is put there.
  chunk_appends :
      (buffer : Buffer) (payload : Payload) (seq start : ℕ)
      → number_of payload "chunk_seq" "chunkSeq" ≡ some seq
      → number_of payload "start_offset" "startOffset" ≡ some start
      → (apply_preview_chunk sha256 parse buffer payload).0.changed ≡ true
      → (seq ≡ buffer.last_chunk_seq + 1)
        × (start ≡ length buffer.text)
        × ((chunk_after sha256 parse buffer payload).text
            ≡ buffer.text ++ string_value (lookup "content" payload))
        × ((chunk_after sha256 parse buffer payload).last_chunk_seq ≡ seq)
  unfolding apply_preview_chunk apply_valid_chunk
  chunk_appends buffer payload seq start h k c = ground (arith, h, k, c)

  chunk-IsBeginning :
      (buffer : Buffer) (payload : Payload)
      → IsChunk payload
      → IsBeginning buffer
      → IsBeginning (chunk_after sha256 parse buffer payload)
  chunk-IsBeginning buffer payload c b =
      elim (Bool-cases (apply_preview_chunk sha256 parse buffer payload).0.changed) [
        | inr h ↦
            let (text, seq) = chunk_keeps buffer payload h in
            record {
              count = b.count;
              within = omega (arith, seq, b.within);
              holds = text ∙ b.holds;
            }
        | inl h ↦
            let (is_next, at_end, text, last) =
              chunk_appends buffer payload (suc c.index) (length (first_pieces c.index pieces))
                c.has_seq c.has_start h in
            let whole : buffer.text ≡ first_pieces c.index pieces =
              b.holds
              ∙ first_pieces-same b.count c.index pieces (omega (arith, is_next, b.within))
                  (sym (ap length b.holds) ∙ sym at_end) in
            record {
              count = suc c.index;
              within = omega (arith, last);
              holds =
                  text
                  ∙ ap (λ l. l ++ string_value (lookup "content" payload)) whole
                  ∙ sym (first_pieces-suc c.index pieces _ c.has_piece);
            }
      ]

  snapshot_keeps :
      (buffer : Buffer) (payload : Payload)
      → (apply_snapshot sha256 parse buffer payload).0.changed ≡ false
      → ((snapshot_after sha256 parse buffer payload).text ≡ buffer.text)
        × ((snapshot_after sha256 parse buffer payload).last_chunk_seq ≡ buffer.last_chunk_seq)
  unfolding apply_snapshot
  snapshot_keeps buffer payload h = ground (arith, h)

  snapshot_replaces :
      (buffer : Buffer) (payload : Payload) (seq : ℕ)
      → number_of payload "last_chunk_seq" "lastChunkSeq" ≡ some seq
      → (apply_snapshot sha256 parse buffer payload).0.changed ≡ true
      → ((snapshot_after sha256 parse buffer payload).text
          ≡ string_value (lookup "content" payload))
        × (seq ≤ (snapshot_after sha256 parse buffer payload).last_chunk_seq)
  unfolding apply_snapshot
  snapshot_replaces buffer payload seq h c = ground (arith, h, c)

  snapshot-IsBeginning :
      (buffer : Buffer) (payload : Payload)
      → IsSnapshot payload
      → IsBeginning buffer
      → IsBeginning (snapshot_after sha256 parse buffer payload)
  snapshot-IsBeginning buffer payload c b =
      elim (Bool-cases (apply_snapshot sha256 parse buffer payload).0.changed) [
        | inr h ↦
            let (text, seq) = snapshot_keeps buffer payload h in
            record {
              count = b.count;
              within = omega (arith, seq, b.within);
              holds = text ∙ b.holds;
            }
        | inl h ↦
            let (text, le) = snapshot_replaces buffer payload c.seq c.has_seq h in
            record { count = c.seq; within = le; holds = text ∙ c.has_text }
      ]

  deliver-IsBeginning :
      (buffer : Buffer) (d : Delivery)
      → IsOfDocument d
      → IsBeginning buffer
      → IsBeginning (deliver sha256 parse buffer d)
  deliver-IsBeginning buffer (chunk payload) c b = chunk-IsBeginning buffer payload c b
  deliver-IsBeginning buffer (snapshot payload) c b = snapshot-IsBeginning buffer payload c b

  IsBeginning-deliver_all :
      (buffer : Buffer) (deliveries : List Delivery)
      → All IsOfDocument deliveries
      → IsBeginning buffer
      → IsBeginning (deliver_all sha256 parse buffer deliveries)
  IsBeginning-deliver_all buffer [] all b = b
  IsBeginning-deliver_all buffer (d ∷ rest) all b =
      IsBeginning-deliver_all (deliver sha256 parse buffer d) rest all.1
        (deliver-IsBeginning buffer d all.0 b)

  -- Whatever chunks and snapshots of a document reach a new buffer, late, twice, out of order or not
  -- at all: its text is always a beginning of the document that ends with a whole piece, and not one
  -- past the last number that it keeps.
  pub deliver_all-IsBeginning :
      (deliveries : List Delivery)
      → All IsOfDocument deliveries
      → IsBeginning (deliver_all sha256 parse new_buffer deliveries)
  deliver_all-IsBeginning deliveries all =
      IsBeginning-deliver_all new_buffer deliveries all
        (record { count = 0; within = omega arith; holds = refl })
