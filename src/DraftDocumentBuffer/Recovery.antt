-- ===== src/DraftDocumentBuffer/Recovery.antt =====
-- A snapshot, and the chunks that follow it in order, give the whole text again.
use labrastro_vscode_extensi.Base.{
  ℕ, true, false, ◌+◌, ◌≤◌, Option, some, ◌≡◌, arith, List, [], ◌∷◌, ◌++◌, length, length-append,
  suc, subst, sym, ◌∙◌, ap, is_some,
}
use mathlib.Core.List.{append_assoc, append-nil}
use labrastro_vscode_extensi.Base.Dict.{lookup}
use labrastro_vscode_extensi.Base.Units.{Units}
use labrastro_vscode_extensi.DraftDocumentBuffer.{
  Payload, Buffer, field, string_value, is_empty, number_value, hash_mismatch, offset_mismatch,
  apply_valid_chunk, apply_preview_chunk, apply_snapshot,
}
use labrastro_vscode_extensi.DraftDocumentBuffer.Assembly.{
  Delivery, chunk, snapshot, joined, deliver_all,
}

module _ (sha256 : Units → Units) (parse : Units → Option ℕ) where
  -- The payload is the chunk after the last one, with this content, and passes the tests it asks for.
  pub record IsNext (last start : ℕ) (payload : Payload) (content : Units) : Type 0 where
    pub has_seq : number_value sha256 parse (field payload "chunk_seq" "chunkSeq") ≡ some (suc last)
    pub has_start :
        number_value sha256 parse (field payload "start_offset" "startOffset") ≡ some start
    pub has_content : string_value (lookup "content" payload) ≡ content
    pub has_text : is_empty content ≡ false
    pub fits :
        offset_mismatch sha256 parse
          (number_value sha256 parse (field payload "end_offset" "endOffset"))
          start
          content
        ≡ false
    pub is_authentic : hash_mismatch sha256 parse payload content ≡ false

  pub data Follow : ℕ → ℕ → List Payload → List Units → Type 0 where
    no_more : {last start : ℕ} → Follow last start [] []
    next :
        {last start : ℕ} {payload : Payload} {content : Units} {payloads : List Payload}
        {contents : List Units}
        → IsNext last start payload content
        → Follow (suc last) (start + length content) payloads contents
        → Follow last start (payload ∷ payloads) (content ∷ contents)

  abbrev pub chunks : List Payload → List Delivery
  chunks [] = []
  chunks (payload ∷ payloads) = chunk payload ∷ chunks payloads

  pub record IsIntact (payload : Payload) (seq : ℕ) (content : Units) : Type 0 where
    pub has_content : is_some (lookup "content" payload) ≡ true
    pub is_text : string_value (lookup "content" payload) ≡ content
    pub has_seq :
        number_value sha256 parse (field payload "last_chunk_seq" "lastChunkSeq") ≡ some seq
    pub is_authentic : hash_mismatch sha256 parse payload content ≡ false

  abbrev pub live : Units → ℕ → Buffer
  live text last = record { text = text; last_chunk_seq = last; waiting_for_snapshot = false }

  next_applies :
      (text content : Units) (last : ℕ) (payload : Payload)
      → IsNext last (length text) payload content
      → (apply_preview_chunk sha256 parse (live text last) payload).1
        ≡ live (text ++ content) (suc last)
  unfolding apply_preview_chunk apply_valid_chunk
  next_applies text content last payload n =
      ground (arith, n.has_seq, n.has_start, n.has_content, n.has_text, n.fits, n.is_authentic)

  deliver_all-chunks :
      (text : Units) (last : ℕ) (payloads : List Payload) (contents : List Units)
      → Follow last (length text) payloads contents
      → deliver_all sha256 parse (live text last) (chunks payloads)
        ≡ live (text ++ joined contents) (last + length contents)
  deliver_all-chunks text last [] [] no_more =
      ap (λ l. live l last) (sym (append-nil text)) ∙ ap (live (text ++ [])) (omega arith)
  deliver_all-chunks text last [] (content ∷ contents) f = elim f [ ]
  deliver_all-chunks text last (payload ∷ payloads) [] f = elim f [ ]
  deliver_all-chunks text last (payload ∷ payloads) (content ∷ contents) (next n f) =
      ap (λ b. deliver_all sha256 parse b (chunks payloads))
        (next_applies text content last payload n)
      ∙ deliver_all-chunks (text ++ content) (suc last) payloads contents (
          subst (λ start. Follow (suc last) start payloads contents)
            (sym (length-append text content)) f)
      ∙ ap (λ l. live l (suc last + length contents)) (append_assoc text content (joined contents))
      ∙ ap (live (text ++ joined (content ∷ contents))) (omega arith)

  snapshot_applies :
      (buffer : Buffer) (payload : Payload) (seq : ℕ) (content : Units)
      → IsIntact payload seq content
      → buffer.last_chunk_seq ≤ seq
      → (apply_snapshot sha256 parse buffer payload).1 ≡ live content seq
  unfolding apply_snapshot
  snapshot_applies buffer payload seq content i le =
      ground (arith, i.has_content, i.is_text, i.has_seq, i.is_authentic, le)

  -- Whatever the buffer is, waiting or not: a snapshot that passes its tests and is not older than
  -- the last number of the buffer, followed by the chunks after it in order, gives the text of the
  -- snapshot with all that they carry, and leaves the buffer live at the number of the last.
  pub recover :
      (buffer : Buffer) (payload : Payload) (seq : ℕ) (content : Units) (payloads : List Payload)
      (contents : List Units)
      → IsIntact payload seq content
      → buffer.last_chunk_seq ≤ seq
      → Follow seq (length content) payloads contents
      → deliver_all sha256 parse buffer (snapshot payload ∷ chunks payloads)
        ≡ live (content ++ joined contents) (seq + length contents)
  recover buffer payload seq content payloads contents i le f =
      ap (λ b. deliver_all sha256 parse b (chunks payloads))
        (snapshot_applies buffer payload seq content i le)
      ∙ deliver_all-chunks content seq payloads contents f
