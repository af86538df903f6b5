-- ===== src/Pagination/Serve/Cursors.antt =====
-- The envelope of a page of messages: its cursors and whether there is more (go-bridge/pagination.go).
use cccode_macbridge.Base.{
  ℕ, zero, suc, ◌+◌, ◌-◌, ◌<◌, ◌≡◌, ◌≢◌, refl, ap, ◌∙◌, ◌⊎◌, inl, inr, String, true, false, Option,
  none, some, List, [], ◌∷◌, arith, ltb, str_eq, eq_iff, length, drop, Bool-cases,
}
use mathlib.Core.Path.{subst}
use cccode_macbridge.Base.Dict.{ne_of_not-eq}
use cccode_macbridge.Base.Codec.{Codec, IsCodec}
use cccode_macbridge.Transcript.{LogicalMessageSpan}
use cccode_macbridge.Transcript.Lineage.{PageIndex}
use cccode_macbridge.Transcript.Cursor.{
  MessageCursor, cursor_version, encode_message_cursor, decode_message_cursor,
}
use cccode_macbridge.Transcript.Cursor.Roundtrip.{decode_message_cursor-encode}
use cccode_macbridge.Transcript.Refresh.Tail.{Numbered}
use cccode_macbridge.Pagination.Serve.{MessagePage, text_or_empty, cursor_at, paginated_envelope}
use cccode_macbridge.Pagination.Serve.Parts.{first_ordinal}

abbrev pub last_ordinal : LogicalMessageSpan → List LogicalMessageSpan → ℕ
last_ordinal s [] = s.ordinal
last_ordinal s (t ∷ ts) = last_ordinal t ts

last_ordinal-Numbered :
    (n : ℕ) (s : LogicalMessageSpan) (ss : List LogicalMessageSpan)
    → Numbered n (s ∷ ss)
    → last_ordinal s ss ≡ n + length ss
last_ordinal-Numbered n s [] v = omega (arith, v.0)
last_ordinal-Numbered n s (t ∷ ts) v = omega (arith, last_ordinal-Numbered (n + 1) t ts v.1)

pub drop-Numbered :
    (k n : ℕ) (ss : List LogicalMessageSpan) → Numbered n ss → (m : ℕ) × Numbered m (drop k ss)
drop-Numbered zero n ss v = (n, v)
drop-Numbered (suc k) n [] v = (n, tt)
drop-Numbered (suc k) n (s ∷ ss) v = drop-Numbered k (n + 1) ss v.1

cons_nil {ℓ} : {A : Type ℓ} (x : A) (xs : List A) → x ∷ xs ≢ []
cons_nil x xs e = cc

module _ {Bytes : Type 0} (codec : Codec Bytes MessageCursor) (session_id : String)
    (idx : PageIndex) where
  -- The text is there, and this session reads it as an ordinal in the current generation.
  abbrev pub PointsTo : Option String → ℕ → Type 0
  PointsTo o ordinal =
      (text : String) × (o ≡ some text)
      × (decode_message_cursor codec text session_id
          ≡ inr (record {
            version = cursor_version;
            session_id = session_id;
            ordinal = ordinal;
            generation = idx.prefix_generation;
          }))

  -- The page shows these messages: its cursors point to the first and the last, and there is more if
  -- the first is not the first of the session. A page of none has no cursor, and says no more.
  abbrev pub Shows {ℓ} : {Wire : Type ℓ} → List LogicalMessageSpan → MessagePage Wire → Type ℓ
  Shows [] p =
      (p.messages ≡ []) × (p.oldest_cursor ≡ none) × (p.newest_cursor ≡ none) × (p.has_more ≡ false)
  Shows (s ∷ ss) p =
      (p.messages ≢ [])
      × (length p.messages ≡ length (s ∷ ss))
      × PointsTo p.oldest_cursor s.ordinal
      × PointsTo p.newest_cursor (last_ordinal s ss)
      × (((p.has_more ≡ true) × (0 < s.ordinal)) ⊎ ((p.has_more ≡ false) × (s.ordinal ≡ 0)))

  pub paginated_envelope-messages {ℓ} :
      {Wire : Type ℓ} (wire : List Wire) (oldest : ℕ)
      → (paginated_envelope codec session_id idx wire oldest).messages ≡ wire
  unfolding paginated_envelope
  paginated_envelope-messages [] oldest = refl
  paginated_envelope-messages (m ∷ ms) oldest = refl

  module _ (laws : IsCodec codec) (named : session_id ≢ "") where
    cursor_at-PointsTo :
        (ordinal : ℕ)
        → PointsTo
            (some (
              text_or_empty (encode_message_cursor codec (cursor_at codec session_id idx ordinal))))
            ordinal
    cursor_at-PointsTo ordinal =
        let c = cursor_at codec session_id idx ordinal in
        let (text, written, read) = decode_message_cursor-encode codec laws c session_id named in
        let mine : str_eq session_id session_id ≡ true = (eq_iff session_id session_id).1 refl in
        (
          text,
          ap (λ o. some (text_or_empty o)) written,
          read ∙ rw (ne_of_not-eq session_id "" named, mine) refl,
        )

    pub paginated_envelope-Shows {ℓ} :
        {Wire : Type ℓ} (n : ℕ) (kept : List LogicalMessageSpan) (wire : List Wire)
        → Numbered n kept
        → length wire ≡ length kept
        → Shows kept (paginated_envelope codec session_id idx wire (first_ordinal kept))
    unfolding paginated_envelope
    paginated_envelope-Shows n [] [] v h = (refl, refl, refl, refl)
    paginated_envelope-Shows n [] (m ∷ ms) v h = absurd (omega (arith, h))
    paginated_envelope-Shows n (s ∷ ss) [] v h = absurd (omega (arith, h))
    paginated_envelope-Shows n (s ∷ ss) (m ∷ ms) v h =
        let newest = s.ordinal + length (m ∷ ms) - 1 in
        let at : newest ≡ last_ordinal s ss =
          omega (arith, last_ordinal-Numbered n s ss v, v.0, h) in
        (
          λ e. cons_nil m ms e,
          h,
          cursor_at-PointsTo s.ordinal,
          subst
              (PointsTo (
                some (
                  text_or_empty
                    (encode_message_cursor codec (cursor_at codec session_id idx newest)))))
              at (cursor_at-PointsTo newest),
          elim (Bool-cases (ltb 0 s.ordinal)) [
            | inl e ↦ inl (e, ground (arith, e))
            | inr e ↦ inr (e, ground (arith, e))
          ],
        )
