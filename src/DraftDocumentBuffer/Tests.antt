-- ===== src/DraftDocumentBuffer/Tests.antt =====
-- The theorems of the draft buffer, applied to a document of two pieces. The hash is the text
-- itself, and no text is a number.
use labrastro_vscode_extensi.Base.{ℕ, true, Option, none, ◌≡◌, refl, arith, List, [], ◌∷◌, same}
use labrastro_vscode_extensi.Base.Dict.{lookup}
use labrastro_vscode_extensi.Base.Units.{Units}
use labrastro_vscode_extensi.DraftDocumentBuffer.{
  Payload, new_buffer, number_field, text_field, field,
}
use labrastro_vscode_extensi.DraftDocumentBuffer.Assembly.{
  Delivery, chunk, snapshot, deliver_all, IsChunk, IsBeginning, deliver_all-IsBeginning,
}
use labrastro_vscode_extensi.DraftDocumentBuffer.Recovery.{recover, next, no_more, live}

abbrev hash : Units → Units
hash text = text

abbrev no_number : Units → Option ℕ
no_number text = none

abbrev first_piece : Units
first_piece = 0x61 ∷ 0x62 ∷ []

abbrev second_piece : Units
second_piece = 0x63 ∷ []

abbrev first_chunk : Payload
first_chunk =
    ("chunk_seq", number_field 1)
    ∷ ("start_offset", number_field 0)
    ∷ ("content", text_field first_piece)
    ∷ []

abbrev second_chunk : Payload
second_chunk =
    ("chunk_seq", number_field 2)
    ∷ ("start_offset", number_field 2)
    ∷ ("end_offset", number_field 3)
    ∷ ("content", text_field second_piece)
    ∷ ("content_sha256", text_field second_piece)
    ∷ []

abbrev first_snapshot : Payload
first_snapshot = ("content", text_field first_piece) ∷ ("last_chunk_seq", number_field 1) ∷ []

-- The second chunk comes too early, then the snapshot, the first chunk again, and the second.
abbrev deliveries : List Delivery
deliveries =
    chunk second_chunk ∷ snapshot first_snapshot ∷ chunk first_chunk ∷ chunk second_chunk ∷ []

deliver_all-IsBeginning_example :
    IsBeginning hash no_number
      (first_piece ∷ second_piece ∷ [])
      (deliver_all hash no_number new_buffer deliveries)
unfolding lookup same field
deliver_all-IsBeginning_example =
    deliver_all-IsBeginning hash no_number (first_piece ∷ second_piece ∷ []) deliveries (
      second,
      (
        record { seq = 1; has_seq = refl; has_text = refl },
        (record { index = 0; has_seq = refl; has_piece = refl; has_start = refl }, (second, tt)),
      ),
    )
  where
    second : IsChunk hash no_number (first_piece ∷ second_piece ∷ []) second_chunk
    second = record { index = 1; has_seq = refl; has_piece = refl; has_start = refl }

recover_example :
    deliver_all hash no_number
      (record { text = []; last_chunk_seq = 0; waiting_for_snapshot = true })
      (snapshot first_snapshot ∷ chunk second_chunk ∷ [])
    ≡ live hash no_number (0x61 ∷ 0x62 ∷ 0x63 ∷ []) 2
unfolding lookup same field
recover_example =
    recover hash no_number (record { text = []; last_chunk_seq = 0; waiting_for_snapshot = true })
      first_snapshot 1 first_piece (second_chunk ∷ []) (second_piece ∷ [])
      (record { has_content = refl; is_text = refl; has_seq = refl; is_authentic = refl })
      (omega arith)
      (next
        (record {
          has_seq = refl;
          has_start = refl;
          has_content = refl;
          has_text = refl;
          fits = refl;
          is_authentic = refl;
        })
        no_more)
