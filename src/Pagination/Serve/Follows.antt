-- ===== src/Pagination/Serve/Follows.antt =====
-- The handler serves the pages that a client walks through (go-bridge/pagination.go).
use mathlib.Core.Path.{subst}
use mathlib.Core.Sum.{inr-injective}
use cccode_macbridge.Base.{
  ℕ, suc, ◌-◌, ◌<◌, ◌≡◌, ◌≢◌, refl, sym, ap, ◌∙◌, inr, String, true, false, Option, none, some,
  List, [], ◌∷◌, map, arith, str_eq, eq_iff, length, drop, keep, get_elem?,
}
use cccode_macbridge.Base.Dict.{ne_of_not-eq}
use cccode_macbridge.Base.Codec.{Codec, IsCodec}
use cccode_macbridge.Transcript.{LogicalMessageSpan, ByteRange}
use cccode_macbridge.Transcript.Spans.{Ordered}
use cccode_macbridge.Transcript.Lineage.{PageIndex, is_cursor_stale}
use cccode_macbridge.Transcript.Cursor.{
  MessageCursor, cursor_version, encode_message_cursor, decode_message_cursor,
}
use cccode_macbridge.Transcript.Cursor.Roundtrip.{
  encode_message_cursor-text, decode_message_cursor-encode,
}
use cccode_macbridge.Transcript.Pages.{page_spans, page_limit}
use cccode_macbridge.Transcript.Pages.Walk.{KeepsOne, walk_lem}
use cccode_macbridge.Transcript.Pages.{walk}
use cccode_macbridge.Transcript.Union.Closed.{Closed}
use cccode_macbridge.Transcript.Replay.{replay}
use cccode_macbridge.Transcript.Replay.Inside.{is_inside}
use cccode_macbridge.Transcript.Replay.Content.{replay_lem, length-map}
use cccode_macbridge.Pagination.Trim.{trim_wire_to_budget}
use cccode_macbridge.Pagination.Trim.Budget.{
  length-trim_wire_to_budget-pos, length-trim_wire_to_budget-le, trim_wire_to_budget-nil,
}
use cccode_macbridge.Pagination.Serve.{
  Outcome, served, paginated_envelope, wires, envelope_at, serve_entries, serve_page, serve_before,
  serve_index, serve_paginated_messages,
}
use cccode_macbridge.Transcript.Refresh.Tail.{Numbered}
use cccode_macbridge.Transcript.Replay.Inside.{Ordered-Numbered, Numbered-append}
use cccode_macbridge.Pagination.Serve.{MessagePage}
use cccode_macbridge.Base.{length-drop, ◌≤◌, ◌++◌, ◌+◌}
use cccode_macbridge.Pagination.Serve.Cursors.{
  Shows, drop-Numbered, paginated_envelope-messages, paginated_envelope-Shows,
}
use cccode_macbridge.Pagination.Serve.Parts.{
  first_ordinal, elem_drop, IsPartOf, page_spans-IsPartOf, page_limit-pos,
}

module _ {ℓ} {Entry Wire : Type ℓ} {Bytes : Type 0} (codec : Codec Bytes MessageCursor)
    (laws : IsCodec codec) (reader : ByteRange → Option (List Entry))
    (to_wire : LogicalMessageSpan → Entry → Wire) (json_length : List Wire → ℕ)
    (compact : Wire → Wire) (session_id : String) (idx : PageIndex)
    (content : LogicalMessageSpan → Entry) where
  -- The page on the wire, and how many of its oldest messages are left out.
  abbrev pub trimmed : List LogicalMessageSpan → List Wire
  trimmed page = trim_wire_to_budget json_length compact (wires to_wire page (map content page))

  abbrev pub dropped : List LogicalMessageSpan → ℕ
  dropped page = length page - length (trimmed page)

  -- No text, or that of a cursor of this session whose generation is not stale.
  abbrev pub Asks : String → Option ℕ → Type 0
  Asks text none = text ≡ ""
  Asks text (some before) =
      (c : MessageCursor) × (encode_message_cursor codec c ≡ inr text)
      × (c.session_id ≡ session_id)
      × (c.ordinal ≡ before)
      × (is_cursor_stale idx c.generation ≡ false)

  length-wires :
      (page : List LogicalMessageSpan)
      → length (wires to_wire page (map content page)) ≡ length page
  unfolding wires
  length-wires [] = refl
  length-wires (s ∷ ss) = omega (arith, length-wires ss)

  wires-map :
      (page : List LogicalMessageSpan)
      → wires to_wire page (map content page) ≡ map (λ s. to_wire s (content s)) page
  unfolding wires
  wires-map [] = refl
  wires-map (s ∷ ss) = ap (λ ws. to_wire s (content s) ∷ ws) (wires-map ss)

  trimmed-le : (page : List LogicalMessageSpan) → length (trimmed page) ≤ length page
  trimmed-le page = omega (
    arith,
    length-trim_wire_to_budget-le json_length compact (wires to_wire page (map content page)),
    length-wires page,
  )

  abbrev pub response : List LogicalMessageSpan → Outcome Wire
  response page = served (
      paginated_envelope codec session_id idx (trimmed page)
        (first_ordinal (drop (dropped page) page)))

  trimmed-pos : (page : List LogicalMessageSpan) → 0 < length page → 0 < length (trimmed page)
  trimmed-pos page h =
      length-trim_wire_to_budget-pos json_length compact (wires to_wire page (map content page))
        (omega (arith, length-wires page, h))

  dropped-KeepsOne : KeepsOne dropped
  dropped-KeepsOne page h = omega (arith, h, trimmed-pos page h)

  serve_entries-response :
      (page : List LogicalMessageSpan)
      → 0 < length page
      → serve_entries codec
          (some reader)
          to_wire
          json_length
          compact
          session_id
          idx
          page
          (inr (map content page))
        ≡ response page
  unfolding serve_entries envelope_at
  serve_entries-response page h =
      let (b, found, at) = elem_drop (dropped page) page (omega (arith, h, trimmed-pos page h)) in
      ap
        (λ n.
          envelope_at codec (some reader) to_wire json_length compact session_id idx (trimmed page)
            (get_elem? page (n - length (trimmed page))))
        (length-map content page)
      ∙ ap
          (envelope_at codec (some reader) to_wire json_length compact session_id idx
            (trimmed page))
          found
      ∙ ap (λ n. served (paginated_envelope codec session_id idx (trimmed page) n)) (sym at)

  module _
      (contract : (r : ByteRange)
        → Closed idx.spans r
        → reader r ≡ some (map content (keep (is_inside r) idx.spans)))
      (next last high : ℕ) (o : Ordered 0 0 idx.spans next last high) where
    replay-content :
        (page : List LogicalMessageSpan)
        → IsPartOf page idx.spans
        → replay (some reader) idx.spans page ≡ inr (map content page)
    replay-content page (xs, ys, e) =
        subst (λ all. replay (some reader) all page ≡ inr (map content page)) (sym e)
          (replay_lem content reader xs page ys next last high
            (subst
              (λ all.
                (r : ByteRange)
                → Closed all r
                → reader r ≡ some (map content (keep (is_inside r) all)))
              e contract)
            (subst (λ all. Ordered 0 0 all next last high) e o))

    serve_page-response :
        (page : List LogicalMessageSpan)
        → IsPartOf page idx.spans
        → serve_page codec (some reader) to_wire json_length compact session_id idx (some page)
          ≡ response page
    unfolding serve_page paginated_envelope wires
    serve_page-response [] p =
        ap
          (λ wire.
            served
              (paginated_envelope codec session_id idx wire (first_ordinal (drop (dropped []) []))))
          (sym (trim_wire_to_budget-nil json_length compact))
    serve_page-response (s ∷ ss) p =
        ap (serve_entries codec (some reader) to_wire json_length compact session_id idx (s ∷ ss))
          (replay-content (s ∷ ss) p)
        ∙ serve_entries-response (s ∷ ss) (omega arith)

    serve_index-asked :
        (text : String) (cursor : Option ℕ) (limit : ℕ)
        → session_id ≢ ""
        → Asks text cursor
        → serve_index codec (some reader) to_wire json_length compact session_id idx text limit
          ≡ serve_page codec
              (some reader)
              to_wire
              json_length
              compact
              session_id
              idx
              (page_spans idx.spans cursor limit)
    unfolding serve_index serve_before
    serve_index-asked text none limit named e = rw e refl
    serve_index-asked text (some before) limit named (c, e, own, at, fresh) =
        let d : MessageCursor = record c { version = cursor_version } in
        let own_named : c.session_id ≢ "" = λ x. named (sym own ∙ x) in
        let (s, written, read) = decode_message_cursor-encode codec laws c session_id own_named in
        let same : s ≡ text = inr-injective s text (sym written ∙ e) in
        let full : text ≢ "" =
          subst (λ t. t ≢ "")
            (inr-injective (codec.to_text (laws.bytes d)) text
              (sym (encode_message_cursor-text codec laws c own_named) ∙ e))
            (laws.is_text d) in
        let mine : str_eq c.session_id session_id ≡ true = (eq_iff c.session_id session_id).1 own in
        let decoded : decode_message_cursor codec text session_id ≡ inr d =
          ap (λ t. decode_message_cursor codec t session_id) (sym same)
          ∙ read
          ∙ rw (ne_of_not-eq session_id "" named, mine) refl in
        rw (ne_of_not-eq text "" full, decoded, fresh, at) refl

    IsPartOf-Numbered :
        (page : List LogicalMessageSpan) → IsPartOf page idx.spans → (m : ℕ) × Numbered m page
    IsPartOf-Numbered page (xs, ys, e) =
        let all : Numbered 0 (xs ++ (page ++ ys)) =
          subst (Numbered 0) e (Ordered-Numbered 0 0 next last high idx.spans o) in
        let (_, rest) = Numbered-append 0 xs (page ++ ys) all in
        (0 + length xs, (Numbered-append (0 + length xs) page ys rest).0)

    serve_paginated_messages-response :
        (text : String) (cursor : Option ℕ) (requested : ℕ)
        → session_id ≢ ""
        → Asks text cursor
        → (page : List LogicalMessageSpan) × (page_spans idx.spans cursor (page_limit requested)
            ≡ some page)
          × IsPartOf page idx.spans
          × (serve_paginated_messages codec
                (some reader)
                to_wire
                json_length
                compact
                session_id
                idx
                text
                requested
              ≡ response page)
    unfolding serve_paginated_messages
    serve_paginated_messages-response text cursor requested named asks =
        let limit = page_limit requested in
        let (page, e, part) =
          page_spans-IsPartOf idx.spans cursor limit next last high o (page_limit-pos requested) in
        (
          page,
          e,
          part,
          serve_index-asked text cursor limit named asks
              ∙ ap (serve_page codec (some reader) to_wire json_length compact session_id idx) e
              ∙ serve_page-response page part,
        )

    -- A client that asks without a cursor, or with one of this session that is not stale, is served the
    -- page that `page_spans` gives: its messages are the contents of the spans on the wire, trimmed
    -- to the byte budget. The oldest cursor is read as the ordinal of the first span that is left,
    -- the newest as that of the last one, and there is more when the first is not the first of the
    -- session; a page of none has no cursor and says no more. That is so when the spans are in
    -- order, the replayer gives the contents of the messages in a range that cuts none, and JSON and
    -- base64 read back what they wrote.
    pub serve_paginated_messages_lem :
        (text : String) (cursor : Option ℕ) (requested : ℕ)
        → session_id ≢ ""
        → Asks text cursor
        → (page : List LogicalMessageSpan) × (page_spans idx.spans cursor (page_limit requested)
            ≡ some page)
          × (p : MessagePage Wire) × (serve_paginated_messages codec
                (some reader)
                to_wire
                json_length
                compact
                session_id
                idx
                text
                requested
              ≡ served p)
          × (p.messages
              ≡ trim_wire_to_budget json_length compact (map (λ s. to_wire s (content s)) page))
          × Shows codec session_id idx (drop (length page - length p.messages) page) p
    serve_paginated_messages_lem text cursor requested named asks =
        let (page, e, part, result) =
          serve_paginated_messages-response text cursor requested named asks in
        let kept = drop (dropped page) page in
        let p = paginated_envelope codec session_id idx (trimmed page) (first_ordinal kept) in
        let shown =
          paginated_envelope-messages codec session_id idx (trimmed page) (first_ordinal kept) in
        let (m, v) = IsPartOf-Numbered page part in
        let (n, w) = drop-Numbered (dropped page) m page v in
        (
          page,
          e,
          p,
          result,
          shown ∙ ap (trim_wire_to_budget json_length compact) (wires-map page),
          subst (λ k. Shows codec session_id idx (drop (length page - k) page) p)
              (ap (length {A = Wire}) (sym shown))
              (paginated_envelope-Shows codec session_id idx laws named n kept (trimmed page) w
                (omega (arith, length-drop (dropped page) page, trimmed-le page))),
        )

    -- The pages that are served to a client that asks on until there is no more, put together, are
    -- all messages of the index in order, each once.
    walk-dropped :
        (requested : ℕ)
        → walk dropped (page_limit requested) idx.spans (suc (length idx.spans)) none []
          ≡ some idx.spans
    walk-dropped requested =
        walk_lem next last high idx.spans o dropped dropped-KeepsOne (page_limit requested)
          (page_limit-pos requested)
