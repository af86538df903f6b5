-- ===== src/Pagination/Serve.antt =====
-- servePaginatedMessages and paginatedEnvelope of go-bridge/pagination.go. The encoding of a message
-- for the wire, JSON, base64 and the replayer are arguments, and so is the index that the store
-- ensures: nothing where pagination does not apply or there is no index.
pub mod Parts
pub mod Cursors
pub mod Follows
use cccode_macbridge.Base.{
  ℕ, ◌+◌, ◌-◌, String, Bool, true, false, ◌⊎◌, inl, inr, Option, none, some, List, [], ◌∷◌, ltb,
  if◌then◌else◌, str_eq, length, get_elem?,
}
use cccode_macbridge.Base.Codec.{Codec}
use cccode_macbridge.Transcript.{LogicalMessageSpan, ByteRange}
use cccode_macbridge.Transcript.Lineage.{PageIndex, is_cursor_stale}
use cccode_macbridge.Transcript.Cursor.{
  MessageCursor, CursorError, encode_message_cursor, decode_message_cursor,
}
use cccode_macbridge.Transcript.Pages.{page_spans, page_limit}
use cccode_macbridge.Transcript.Replay.{ReplayError, replay}
use cccode_macbridge.Pagination.Trim.{trim_wire_to_budget}

-- The wire response; the cursors are missing where there is no message.
pub record MessagePage {ℓ} (Wire : Type ℓ) : Type ℓ where
  pub messages : List Wire
  pub oldest_cursor : Option String
  pub newest_cursor : Option String
  pub has_more : Bool

-- What the caller acts on: a result, the error cursor_stale, or the full parse in its place. An index
-- out of range would panic.
pub data Outcome {ℓ} (Wire : Type ℓ) : Type ℓ where
  served : MessagePage Wire → Outcome Wire
  cursor_stale fall_back panics : Outcome Wire

-- cursor, _ := EncodeMessageCursor(…)
abbrev pub text_or_empty : CursorError ⊎ String → String
text_or_empty (inl e) = ""
text_or_empty (inr s) = s

module _ {ℓ} {Entry Wire : Type ℓ} (to_wire : LogicalMessageSpan → Entry → Wire) where
  -- richHistoryEntryToWire, with the identifier that the loop gives where there is none.
  unfoldable pub wires : List LogicalMessageSpan → List Entry → List Wire
  wires [] es = []
  wires (s ∷ ss) [] = []
  wires (s ∷ ss) (e ∷ es) = to_wire s e ∷ wires ss es

module _ {Bytes : Type 0} (codec : Codec Bytes MessageCursor) (session_id : String)
    (idx : PageIndex) where
  abbrev pub cursor_at : ℕ → MessageCursor
  cursor_at ordinal = record {
    version = 0;
    session_id = session_id;
    ordinal = ordinal;
    generation = idx.prefix_generation;
  }

  unfoldable pub paginated_envelope {ℓ} : {Wire : Type ℓ} → List Wire → ℕ → MessagePage Wire
  unfolding encode_message_cursor
  paginated_envelope [] oldest = record {
    messages = [];
    oldest_cursor = none;
    newest_cursor = none;
    has_more = false;
  }
  paginated_envelope (m ∷ ms) oldest = record {
    messages = m ∷ ms;
    oldest_cursor = some (text_or_empty (encode_message_cursor codec (cursor_at oldest)));
    newest_cursor =
        some
          (text_or_empty (encode_message_cursor codec (cursor_at (oldest + length (m ∷ ms) - 1))));
    has_more = ltb 0 oldest;
  }

module _ {ℓ} {Entry Wire : Type ℓ} {Bytes : Type 0} (codec : Codec Bytes MessageCursor)
    (replayer : Option (ByteRange → Option (List Entry)))
    (to_wire : LogicalMessageSpan → Entry → Wire) (json_length : List Wire → ℕ)
    (compact : Wire → Wire) (session_id : String) (idx : PageIndex) where
  unfoldable pub envelope_at : List Wire → Option LogicalMessageSpan → Outcome Wire
  unfolding paginated_envelope
  envelope_at wire none = panics
  envelope_at wire (some s) = served (paginated_envelope codec session_id idx wire s.ordinal)

  unfoldable pub serve_entries : List LogicalMessageSpan → ReplayError ⊎ List Entry → Outcome Wire
  unfolding envelope_at wires trim_wire_to_budget
  serve_entries page (inl e) = fall_back
  serve_entries page (inr entries) =
      let wire = trim_wire_to_budget json_length compact (wires to_wire page entries) in
      envelope_at wire (get_elem? page (length entries - length wire))

  unfoldable pub serve_page : Option (List LogicalMessageSpan) → Outcome Wire
  unfolding serve_entries replay paginated_envelope
  serve_page none = fall_back
  serve_page (some []) = served (paginated_envelope codec session_id idx [] 0)
  serve_page (some (s ∷ ss)) = serve_entries (s ∷ ss) (replay replayer idx.spans (s ∷ ss))

  unfoldable pub serve_before : CursorError ⊎ MessageCursor → ℕ → Outcome Wire
  unfolding serve_page page_spans
  serve_before (inl e) limit = cursor_stale
  serve_before (inr c) limit =
      let page = serve_page (page_spans idx.spans (some c.ordinal) limit) in
      if is_cursor_stale idx c.generation then cursor_stale else page

  unfoldable pub serve_index : String → ℕ → Outcome Wire
  unfolding serve_before decode_message_cursor
  serve_index before_cursor limit =
      let newest = serve_page (page_spans idx.spans none limit) in
      let before = serve_before (decode_message_cursor codec before_cursor session_id) limit in
      if str_eq before_cursor "" then newest else before

  -- The rest of the handler, once it has an index.
  unfoldable pub serve_paginated_messages : String → ℕ → Outcome Wire
  unfolding serve_index page_limit
  serve_paginated_messages before_cursor requested =
      serve_index before_cursor (page_limit requested)
