-- ===== src/Transcript/Tests.antt =====
-- Runs of transcriptindex/, and its theorems at concrete inputs.
use cccode_macbridge.Base.{
  ◌⊎◌, map, ℕ, inl, inr, not, true, false, ◌-◌, ◌≡◌, refl, String, Option, none, some, List, [],
  ◌∷◌, ◌++◌, arith, ltb, if◌then◌else◌, ◌==◌, length, keep,
}
use cccode_macbridge.Transcript.{LogicalMessageSpan, ByteRange}
use cccode_macbridge.Transcript.Scan.{scan_transcript}
use cccode_macbridge.Transcript.Scan.Tiles.{AreLines, Located, concat, scan_transcript_lem}
use cccode_macbridge.Transcript.Spans.{Ordered}
use cccode_macbridge.Transcript.Codex.{Envelope, codex_spans}
use cccode_macbridge.Transcript.Codex.Order.{codex_spans-Ordered}
use cccode_macbridge.Transcript.Claude.{ClaudeLine, blocks, claude_spans}
use cccode_macbridge.Transcript.Claude.Order.{claude_spans-Ordered}
use cccode_macbridge.Transcript.Pages.{last_n, page_before, walk}
use cccode_macbridge.Transcript.Pages.Reference.{page_before_lem}
use cccode_macbridge.Transcript.Pages.Walk.{walk_lem}
use cccode_macbridge.Transcript.Union.{span_byte_union}
use cccode_macbridge.Transcript.Union.Closed.{AllInside, Closed, Within, span_byte_union_lem}
use cccode_macbridge.Base.Codec.Unary.{write_number}
use cccode_macbridge.Transcript.Cursor.{
  MessageCursor, session_mismatch, encode_message_cursor, decode_message_cursor,
}
use cccode_macbridge.Transcript.Cursor.Roundtrip.{decode_message_cursor-encode}
use cccode_macbridge.Transcript.Lineage.{
  PageIndex, is_in, ids, is_cursor_stale, finalize_new_lineage,
}
use cccode_macbridge.Transcript.Lineage.Chain.{finalize_new_lineage-IsLineage, differ_of}
use cccode_macbridge.Transcript.Lineage.Stale.{
  IsChain-validate_lineage, newest, append_all, is_cursor_stale-append_all,
}
use cccode_macbridge.Transcript.Index.{
  File, is_same_fingerprint, extractor_revision, same_identity, first_index, build, is_continued,
  refresh,
}
use cccode_macbridge.Transcript.Index.Anchored.{finalize_new_lineage-IsCurrent}
use cccode_macbridge.Transcript.Index.Continues.{Extracted, IsIndexOf}
use cccode_macbridge.Transcript.Index.Grown.{refresh_grown, refresh_replaced}
use cccode_macbridge.Transcript.Cursor.Unary.{codec, codec-IsCodec}
use cccode_macbridge.Transcript.Replay.{
  replay, replay_range, replay_entries, replay_from, check_count, select, span_at_offset,
}
use cccode_macbridge.Transcript.Replay.Inside.{is_inside}
use cccode_macbridge.Transcript.Replay.Content.{replay_lem}
use cccode_macbridge.Transcript.Refresh.{codex_extractor, refresh_replay_start, refresh_spans}
use cccode_macbridge.Transcript.Refresh.Tail.{AllEndBy, Refreshed, refresh_spans_misplaced}

abbrev message : String → String → Envelope
message role type = record {
  type = "response_item";
  event = none;
  item = some (record {
    role = role;
    type = "message";
    name = "";
    text = "";
    summary = [];
    content = record { type = type; text = "hi" } ∷ [];
  });
}

-- A line that begins with `u` is a prompt, one that begins with `a` an answer.
abbrev unmarshal : List ℕ → Option Envelope
unmarshal [] = none
unmarshal (b ∷ bs) =
    if b == b'u'
    then some (message "user" "input_text")
    else (if b == b'a' then some (message "assistant" "output_text") else none)

abbrev before : List ℕ
before = b'u' ∷ 10 ∷ b'a' ∷ 10 ∷ []

abbrev after : List ℕ
after = before ++ (b'u' ∷ 10 ∷ b'a' ∷ 10 ∷ [])

abbrev starts : List LogicalMessageSpan → List ℕ
starts [] = []
starts (s ∷ ss) = s.replay_start ∷ starts ss

build-starts : starts (codex_spans unmarshal after) ≡ 0 ∷ 2 ∷ 4 ∷ 6 ∷ []
unfolding codex_spans
build-starts = refl

-- After the refresh, the spans that were read again start where they would if the file began at the
-- replay start.
refresh-starts :
    (ss : List LogicalMessageSpan) × (refresh_spans
        (codex_extractor unmarshal)
        (codex_spans unmarshal before)
        after
      ≡ some ss)
    × (starts ss ≡ 0 ∷ 0 ∷ 2 ∷ 4 ∷ [])
unfolding refresh_spans codex_spans
refresh-starts = (_, refl, refl)

scan_transcript_lem_example :
    (lines : List (List ℕ)) × (concat lines ≡ after)
    × AreLines lines
    × Located 0 lines (scan_transcript after)
scan_transcript_lem_example = scan_transcript_lem after

codex_spans-Ordered_example :
    (n : ℕ) × Ordered 0 0 (codex_spans unmarshal after) n (length after) (length after)
codex_spans-Ordered_example = codex_spans-Ordered unmarshal after

-- A line that begins with `a` uses a tool, any other is its result.
abbrev unmarshal_claude : List ℕ → Option ClaudeLine
unmarshal_claude [] = none
unmarshal_claude (b ∷ bs) =
    if b == b'a'
    then some (record {
      type = "assistant";
      message = some (record {
        id = "m";
        content = blocks (record { type = "tool_use"; id = "t"; tool_use_id = "" } ∷ []);
      });
    })
    else some (record {
      type = "user";
      message = some (record {
        id = "";
        content = blocks (record { type = "tool_result"; id = ""; tool_use_id = "t" } ∷ []);
      });
    })

claude_spans-Ordered_example :
    (n : ℕ) × Ordered 0 0 (claude_spans unmarshal_claude after) n (length after) (length after)
claude_spans-Ordered_example = claude_spans-Ordered unmarshal_claude after

abbrev span_at : ℕ → ℕ → ℕ → ℕ → LogicalMessageSpan
span_at ordinal start end tools = record {
  ordinal = ordinal;
  stable_id = "";
  replay_start = start;
  end_offset = end;
  open_tool_uses = tools;
}

-- The second message has an open tool.
abbrev three : List LogicalMessageSpan
three = span_at 0 0 10 0 ∷ span_at 1 10 25 1 ∷ span_at 2 20 30 0 ∷ []

abbrev three-Ordered : Ordered 0 0 three 3 20 30
three-Ordered = (
  refl,
  omega arith,
  omega arith,
  omega arith,
  (
    refl,
    omega arith,
    omega arith,
    omega arith,
    (refl, omega arith, omega arith, omega arith, (refl, omega arith)),
  ),
)

page_before_lem_example :
    page_before three 2 1 ≡ some (last_n (keep (λ s. ltb s.ordinal 2) three) 1)
page_before_lem_example = page_before_lem 3 20 30 2 1 three three-Ordered (omega arith)

-- A budget of one message in a page.
abbrev all_but_one : List LogicalMessageSpan → ℕ
all_but_one page = length page - 1

walk_lem_example : walk all_but_one 2 three 4 none [] ≡ some three
walk_lem_example =
    walk_lem 3 20 30 three three-Ordered all_but_one (λ page h. omega arith) 2 (omega arith)

span_byte_union_lem_example :
    (t : ByteRange) × (span_byte_union three (span_at 2 20 30 0 ∷ []) ≡ some t)
    × AllInside (span_at 2 20 30 0 ∷ []) t
    × Closed three t
    × ((u : ByteRange) → Closed three u → AllInside (span_at 2 20 30 0 ∷ []) u → Within t u)
span_byte_union_lem_example = span_byte_union_lem three (span_at 2 20 30 0) []

-- The index of `before`, which is the half of `after`: the fresh spans are those of three lines.
abbrev two : List LogicalMessageSpan
two = span_at 0 0 2 0 ∷ span_at 1 2 4 0 ∷ []

refresh-two :
    refresh_spans (codex_extractor unmarshal) two after
    ≡ some (span_at 0 0 2 0 ∷ span_at 1 0 2 0 ∷ span_at 2 2 4 0 ∷ span_at 3 4 6 0 ∷ [])
unfolding refresh_spans codex_spans
refresh-two = refl

refresh_spans_misplaced_example :
    (new : List LogicalMessageSpan) × (refresh_spans (codex_extractor unmarshal) two after
      ≡ some new)
    × (v : Refreshed (codex_extractor unmarshal) after two new) × (refresh_replay_start two
        ≡ some v.from)
    × AllEndBy (length after - v.from) v.fresh
refresh_spans_misplaced_example =
    refresh_spans_misplaced (codex_extractor unmarshal) after 2 4 4 two (
      refl,
      omega arith,
      omega arith,
      omega arith,
      (refl, omega arith, omega arith, omega arith, (refl, omega arith)),
    )

abbrev cursor : MessageCursor
cursor = record { version = 1; session_id = "s"; ordinal = 2; generation = "g" }

decode_message_cursor-encode_example :
    (s : String) × (encode_message_cursor codec cursor ≡ inr s)
    × (decode_message_cursor codec s "t" ≡ inl session_mismatch)
decode_message_cursor-encode_example =
    decode_message_cursor-encode codec codec-IsCodec cursor "t" (differ_of "s" "" refl)

abbrev checksum : List ℕ → String
checksum bytes = write_number (length bytes) ""

abbrev file_of : List ℕ → ℕ → File
file_of text time = record { text = text; mod_time = time; device = 3; inode = 4 }

abbrev unmarshal_none : List ℕ → Option ClaudeLine
unmarshal_none bytes = none

abbrev first : PageIndex
first = finalize_new_lineage checksum before "g1" (
    first_index unmarshal unmarshal_none checksum (codex_extractor unmarshal) "codex" "p"
      (file_of before 1))

is_cursor_stale-append_all_example :
    is_cursor_stale (append_all checksum first (("g2", 8, after) ∷ [])) "g1"
    ≡ not (is_in "g1" (newest (ids first.generation_lineage ++ ("g2" ∷ []))))
unfolding finalize_new_lineage
is_cursor_stale-append_all_example =
    is_cursor_stale-append_all checksum first (("g2", 8, after) ∷ []) "g1" (omega arith)

first-IsIndexOf : IsIndexOf unmarshal unmarshal_none checksum "codex" (file_of before 1) first
unfolding finalize_new_lineage
first-IsIndexOf =
    let fresh =
      first_index unmarshal unmarshal_none checksum (codex_extractor unmarshal) "codex" "p"
        (file_of before 1) in
    let lineage =
      finalize_new_lineage-IsLineage checksum before "g1" fresh (differ_of "g1" "" refl) in
    record {
      lineage = lineage;
      valid = IsChain-validate_lineage first.generation_lineage lineage.chain lineage.present;
      current = finalize_new_lineage-IsCurrent checksum before "g1" fresh refl;
      same_backend = refl;
      revision = refl;
      device = refl;
      inode = refl;
    }

first-spans : Ordered 0 0 first.spans 2 4 4
unfolding finalize_new_lineage codex_spans
first-spans = (
  refl,
  omega arith,
  omega arith,
  omega arith,
  (refl, omega arith, omega arith, omega arith, (refl, omega arith)),
)

refresh_grown_example :
    (new : PageIndex) × (refresh unmarshal unmarshal_none checksum first (file_of after 2) "g2"
      ≡ some new)
    × IsIndexOf unmarshal unmarshal_none checksum "codex" (file_of after 2) new
    × (is_cursor_stale new first.prefix_generation ≡ false)
    × (((new ≡ first) × (after ≡ before))
        ⊎ Extracted unmarshal unmarshal_none checksum "codex"
            (file_of after 2)
            first.spans
            new.spans)
unfolding finalize_new_lineage is_in
refresh_grown_example =
    refresh_grown unmarshal unmarshal_none checksum "codex" "g2" (file_of before 1)
      (file_of after 2) before first 2 (inl refl) first-IsIndexOf first-spans refl refl refl
      (differ_of "g2" "" refl) refl

-- The file has become shorter.
refresh_replaced_example :
    (new : PageIndex) × (refresh unmarshal unmarshal_none checksum first (file_of [] 2) "g2"
      ≡ some new)
    × (build unmarshal unmarshal_none checksum "codex" "p" (file_of [] 2) "g2" ≡ some new)
    × IsIndexOf unmarshal unmarshal_none checksum "codex" (file_of [] 2) new
    × (is_cursor_stale new "g1" ≡ true)
unfolding finalize_new_lineage is_continued same_identity is_same_fingerprint extractor_revision
refresh_replaced_example =
    refresh_replaced unmarshal unmarshal_none checksum first (file_of [] 2) "g2" "g1" (inl refl)
      refl refl (differ_of "g2" "" refl) (differ_of "g1" "g2" refl)

abbrev ordinal_of : LogicalMessageSpan → ℕ
ordinal_of s = s.ordinal

abbrev replayer : ByteRange → Option (List ℕ)
replayer r = some (map ordinal_of (keep (is_inside r) three))

replay-second : replay (some replayer) three (span_at 1 10 25 1 ∷ []) ≡ inr (1 ∷ [])
unfolding replay replay_range replay_entries replay_from check_count select span_at_offset
    span_byte_union
replay-second = refl

replay_lem_example : replay (some replayer) three (span_at 1 10 25 1 ∷ []) ≡ inr (1 ∷ [])
replay_lem_example =
    replay_lem ordinal_of replayer (span_at 0 0 10 0 ∷ []) (span_at 1 10 25 1 ∷ [])
      (span_at 2 20 30 0 ∷ []) 3 20 30 (λ r c. refl) three-Ordered
