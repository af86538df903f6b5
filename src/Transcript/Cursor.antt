-- ===== src/Transcript/Cursor.antt =====
-- transcriptindex/cursor.go: the cursor of a message page as an opaque text. JSON and base64 are
-- arguments.
pub mod Roundtrip
pub mod Unary
use cccode_macbridge.Base.{
  ℕ, String, Bool, true, false, not, ◌&&◌, Option, none, some, List, ◌⊎◌, inl, inr, ◌==◌,
  if◌then◌else◌, str_eq,
}
use cccode_macbridge.Base.Codec.{Codec}

abbrev pub cursor_version : ℕ
cursor_version = 1

pub record MessageCursor : Type 0 where
  pub version : ℕ
  pub session_id : String
  pub ordinal : ℕ
  pub generation : String

pub data CursorError : Type 0 where
  no_session unmarshalable malformed unsupported_version session_mismatch : CursorError

module _ {Bytes : Type 0} (codec : Codec Bytes MessageCursor) where
  unfoldable pub encoded : Option Bytes → CursorError ⊎ String
  encoded none = inl unmarshalable
  encoded (some bytes) = inr (codec.to_text bytes)

  unfoldable pub encode_message_cursor : MessageCursor → CursorError ⊎ String
  unfolding encoded
  encode_message_cursor c =
      if str_eq c.session_id ""
      then inl no_session
      else (encoded (codec.marshal (record c { version = cursor_version })))

  unfoldable pub check_cursor : Option MessageCursor → String → CursorError ⊎ MessageCursor
  check_cursor none session_id = inl malformed
  check_cursor (some c) session_id =
      if not (c.version == cursor_version)
      then inl unsupported_version
      else if not (str_eq session_id "") && not (str_eq c.session_id session_id)
      then inl session_mismatch
      else inr c

  unfoldable pub check_bytes : Option Bytes → String → CursorError ⊎ MessageCursor
  unfolding check_cursor
  check_bytes none session_id = inl malformed
  check_bytes (some bytes) session_id = check_cursor (codec.unmarshal bytes) session_id

  unfoldable pub decode_message_cursor : String → String → CursorError ⊎ MessageCursor
  unfolding check_bytes
  decode_message_cursor s session_id = check_bytes (codec.of_text s) session_id
