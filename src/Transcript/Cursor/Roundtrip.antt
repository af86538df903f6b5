-- ===== src/Transcript/Cursor/Roundtrip.antt =====
-- A message cursor that is encoded is decoded for its own session (transcriptindex/cursor.go).
use cccode_macbridge.Base.{
  ℕ, ◌≡◌, ◌≢◌, refl, ◌⊎◌, inl, inr, String, true, ◌||◌, Option, none, some, arith, ◌==◌,
  if◌then◌else◌, str_eq, eq_iff, Bool-cases,
}
use mathlib.Core.Path.{subst}
use mathlib.Core.Sum.{inr-injective}
use cccode_macbridge.Base.Dict.{ne_of_not-eq}
use cccode_macbridge.Base.Codec.{Codec, IsCodec}
use cccode_macbridge.Transcript.Cursor.{
  MessageCursor, session_mismatch, unsupported_version, cursor_version, encoded,
  encode_message_cursor, check_cursor, check_bytes, decode_message_cursor,
}

module _ {Bytes : Type 0} (codec : Codec Bytes MessageCursor) (v : IsCodec codec) where
  pub encode_message_cursor-text :
      (c : MessageCursor)
      → c.session_id ≢ ""
      → encode_message_cursor codec c
        ≡ inr (codec.to_text (v.bytes (record c { version = cursor_version })))
  unfolding encode_message_cursor encoded
  encode_message_cursor-text c named =
      rw (ne_of_not-eq c.session_id "" named, v.marshals (record c { version = cursor_version }))
        refl

  -- A cursor of a session is encoded, and decoded with its version set where the session is the one
  -- asked for or none is asked for; for another session it is refused.
  pub decode_message_cursor-encode :
      (c : MessageCursor) (session_id : String)
      → c.session_id ≢ ""
      → (s : String) × (encode_message_cursor codec c ≡ inr s)
        × (decode_message_cursor codec s session_id ≡ (
            if str_eq session_id "" || str_eq c.session_id session_id
            then inr (record c { version = cursor_version })
            else inl session_mismatch))
  unfolding encode_message_cursor encoded decode_message_cursor check_bytes check_cursor
  decode_message_cursor-encode c session_id named =
      let d : MessageCursor = record c { version = cursor_version } in
      (
        codec.to_text (v.bytes d),
        rw (ne_of_not-eq c.session_id "" named, v.marshals d) refl,
        rw (v.decodes (v.bytes d), v.reads d)
            (elim (Bool-cases (str_eq session_id "")) [
              | inl e ↦ rw e refl
              | inr e ↦ elim (Bool-cases (str_eq c.session_id session_id)) [
                | inl own ↦ rw (e, own) refl
                | inr foreign ↦ rw (e, foreign) refl
              ]
            ]),
      )

abbrev IsSafe : String → MessageCursor → Type 0
IsSafe session_id c =
    (c.version ≡ cursor_version) × ((session_id ≡ "") ⊎ (c.session_id ≡ session_id))

eq_of : (m n : ℕ) → (m == n) ≡ true → m ≡ n
eq_of m n h = ground arith

module _ {Bytes : Type 0} (codec : Codec Bytes MessageCursor) where
  checked :
      (o : Option MessageCursor) (session_id : String) (c : MessageCursor)
      → check_cursor codec o session_id ≡ inr c
      → IsSafe session_id c
  unfolding check_cursor
  checked none session_id c e = ground (arith, e)
  checked (some d) session_id c e = elim (Bool-cases (d.version == cursor_version)) [
    | inr version ↦ let f : inl unsupported_version ≡ inr c = rw version at e in ground (arith, f)
    | inl version ↦ elim (Bool-cases (str_eq session_id "")) [
      | inl any ↦
          let f : inr d ≡ inr c = rw (version, any) at e in
          subst (IsSafe session_id) (inr-injective d c f)
            (eq_of d.version cursor_version version, inl ((eq_iff session_id "").0 any))
      | inr one ↦ elim (Bool-cases (str_eq d.session_id session_id)) [
        | inr foreign ↦
            let f : inl session_mismatch ≡ inr c = rw (version, one, foreign) at e in
            ground (arith, f)
        | inl own ↦
            let f : inr d ≡ inr c = rw (version, one, own) at e in
            subst (IsSafe session_id) (inr-injective d c f)
              (eq_of d.version cursor_version version, inr ((eq_iff d.session_id session_id).0 own))
      ]
    ]
  ]

  checked_bytes :
      (o : Option Bytes) (session_id : String) (c : MessageCursor)
      → check_bytes codec o session_id ≡ inr c
      → IsSafe session_id c
  unfolding check_bytes
  checked_bytes none session_id c e = ground (arith, e)
  checked_bytes (some bs) session_id c e = checked (codec.unmarshal bs) session_id c e

  -- Whatever text a client sends, a cursor that is decoded from it has the version of the program,
  -- and is of the session asked for, where one is.
  decode_message_cursor-IsSafe :
      (s session_id : String) (c : MessageCursor)
      → decode_message_cursor codec s session_id ≡ inr c
      → IsSafe session_id c
  unfolding decode_message_cursor
  decode_message_cursor-IsSafe s session_id c e = checked_bytes (codec.of_text s) session_id c e
