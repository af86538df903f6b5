-- ===== src/Transcript/Refresh.antt =====
-- Refresh of transcriptindex/index.go: after the file has grown, the spans from a replay start on
-- are read again, and those before it are kept. A file is its bytes. The file's identity, its
-- fingerprint and the anchor only decide whether a Build from scratch takes the place of this.
pub mod Start
pub mod Tail
use cccode_macbridge.Base.{
  ℕ, zero, suc, ◌+◌, Bool, true, false, ◌||◌, ◌&&◌, Option, none, some, List, [], ◌∷◌, ◌++◌, ltb,
  if◌then◌else◌, length, drop,
}
use cccode_macbridge.Transcript.{LogicalMessageSpan}
use cccode_macbridge.Transcript.Spans.{Ordered}
use cccode_macbridge.Transcript.Codex
use cccode_macbridge.Transcript.Codex.{codex_spans}
use cccode_macbridge.Transcript.Codex.Order.{codex_spans-Ordered}
use cccode_macbridge.Transcript.Claude
use cccode_macbridge.Transcript.Claude.{claude_spans}
use cccode_macbridge.Transcript.Claude.Order.{claude_spans-Ordered}

-- A backend's extractor: the spans of a text, in order. `newExtractor` gives one of the two below.
pub record SpanExtractor : Type 0 where
  pub spans_of : List ℕ → List LogicalMessageSpan
  pub in_order :
      (text : List ℕ) → (n : ℕ) × Ordered 0 0 (spans_of text) n (length text) (length text)

abbrev pub codex_extractor : (List ℕ → Option Codex.Envelope) → SpanExtractor
codex_extractor unmarshal = record {
  spans_of = codex_spans unmarshal;
  in_order = codex_spans-Ordered unmarshal;
}

abbrev pub claude_extractor : (List ℕ → Option Claude.ClaudeLine) → SpanExtractor
claude_extractor unmarshal = record {
  spans_of = claude_spans unmarshal;
  in_order = claude_spans-Ordered unmarshal;
}

-- spans[len(spans)-1].ReplayStart
abbrev pub last_start : LogicalMessageSpan → List LogicalMessageSpan → ℕ
last_start s [] = s.replay_start
last_start s (t ∷ ts) = last_start t ts

-- The backward loop: the least start of the spans with an open tool.
abbrev pub open_start : LogicalMessageSpan → ℕ → ℕ
open_start s from =
    if ltb 0 s.open_tool_uses && ltb s.replay_start from then s.replay_start else from

unfoldable pub open_starts : List LogicalMessageSpan → ℕ → ℕ
open_starts [] from = from
open_starts (s ∷ ss) from = open_start s (open_starts ss from)

abbrev pub is_across : LogicalMessageSpan → ℕ → Bool
is_across s from = ltb s.replay_start from && ltb from s.end_offset

-- A round of the last loop: spans that lie across the start move it back.
unfoldable pub back_round : List LogicalMessageSpan → ℕ → Bool → ℕ × Bool
back_round [] from moved = (from, moved)
back_round (s ∷ ss) from moved =
    back_round ss (if is_across s from then s.replay_start else from) (moved || is_across s from)

unfoldable pub move_back : ℕ → List LogicalMessageSpan → ℕ → Option ℕ
unfolding back_round
move_back zero spans from = none
move_back (suc fuel) spans from = elim (back_round spans from false).1 [
  | false ↦ some (back_round spans from false).0
  | true ↦ move_back fuel spans (back_round spans from false).0
]

-- Each round that moves the start lowers it, so the start is fuel enough.
unfoldable pub refresh_replay_start : List LogicalMessageSpan → Option ℕ
unfolding move_back open_starts
refresh_replay_start [] = some 0
refresh_replay_start (s ∷ ss) =
    move_back (suc (open_starts (s ∷ ss) (last_start s ss))) (s ∷ ss)
      (open_starts (s ∷ ss) (last_start s ss))

unfoldable pub keep_spans_before : List LogicalMessageSpan → ℕ → List LogicalMessageSpan
keep_spans_before [] from = []
keep_spans_before (s ∷ ss) from =
    if ltb s.replay_start from then s ∷ keep_spans_before ss from else []

-- nextOrd
abbrev pub next_ordinal : ℕ → List LogicalMessageSpan → ℕ
next_ordinal first [] = first
next_ordinal first (s ∷ ss) = next_ordinal (s.ordinal + 1) ss

unfoldable pub renumber : ℕ → List LogicalMessageSpan → List LogicalMessageSpan
renumber n [] = []
renumber n (s ∷ ss) = record s { ordinal = n } ∷ renumber (n + 1) ss

unfoldable pub refresh_from :
    SpanExtractor → List LogicalMessageSpan → List ℕ → Option ℕ → Option (List LogicalMessageSpan)
unfolding keep_spans_before renumber
refresh_from x spans text none = none
refresh_from x spans text (some from) =
    let kept = keep_spans_before spans from in
    some (kept ++ renumber (next_ordinal 0 kept) (x.spans_of (drop from text)))

-- The spans of the new index. The scan starts at the replay start with its offset at 0.
unfoldable pub refresh_spans :
    SpanExtractor → List LogicalMessageSpan → List ℕ → Option (List LogicalMessageSpan)
unfolding refresh_from refresh_replay_start
refresh_spans x spans text = refresh_from x spans text (refresh_replay_start spans)
