-- ===== src/Transcript/Cursor/Unary.antt =====
-- A concrete codec of message cursors (transcriptindex/cursor.go).
use cccode_macbridge.Base.{ℕ, ap, ◌∙◌, refl, String, Option, none, some}
use cccode_macbridge.Base.Codec.{Codec, IsCodec}
use cccode_macbridge.Base.Codec.Unary.{
  write_number, read_number, read_number-write, write_text, read_text, read_text-write,
  write_number-full,
}
use cccode_macbridge.Transcript.Cursor.{MessageCursor}

abbrev read_texts : ℕ → ℕ → Option (String × String) → Option MessageCursor
read_texts version ordinal none = none
read_texts version ordinal (some (id, generation)) =
    some (record { version = version; session_id = id; ordinal = ordinal; generation = generation })

abbrev read_ordinal : ℕ → Option (ℕ × String) → Option MessageCursor
read_ordinal version none = none
read_ordinal version (some (ordinal, s)) = read_texts version ordinal (read_text s)

abbrev read_version : Option (ℕ × String) → Option MessageCursor
read_version none = none
read_version (some (version, s)) = read_ordinal version (read_number s)

abbrev write_cursor : MessageCursor → String
write_cursor c =
    write_number c.version (write_number c.ordinal (write_text c.session_id c.generation))

abbrev pub codec : Codec String MessageCursor
codec = record {
  marshal = λ c. some (write_cursor c);
  to_text = λ s. s;
  of_text = λ s. some s;
  unmarshal = λ s. read_version (read_number s);
}

abbrev pub codec-IsCodec : IsCodec codec
codec-IsCodec = record {
  bytes = write_cursor;
  marshals = λ c. refl;
  reads = λ c.
      ap read_version (
        read_number-write c.version (write_number c.ordinal (write_text c.session_id c.generation)))
      ∙ ap (read_ordinal c.version)
          (read_number-write c.ordinal (write_text c.session_id c.generation))
      ∙ ap (read_texts c.version c.ordinal) (read_text-write c.session_id c.generation);
  decodes = λ s. refl;
  is_text = λ c.
      write_number-full c.version (write_number c.ordinal (write_text c.session_id c.generation));
}
