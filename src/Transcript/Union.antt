-- ===== src/Transcript/Union.antt =====
-- The byte range of a page (spanByteUnion of transcriptindex/index.go): the smallest that holds
-- every span of the page and every span that overlaps it.
pub mod Closed
use cccode_macbridge.Base.{
  ℕ, zero, suc, ◌+◌, ◌-◌, Bool, true, false, ◌||◌, ◌&&◌, not, Option, none, some, List, [], ◌∷◌,
  ltb, leb, if◌then◌else◌,
}
use cccode_macbridge.Transcript.{LogicalMessageSpan, ByteRange}

-- if s.ReplayStart < lo { lo = s.ReplayStart }
abbrev pub lower : LogicalMessageSpan → ℕ → ℕ
lower s lo = if ltb s.replay_start lo then s.replay_start else lo

-- if s.EndOffset > hi { hi = s.EndOffset }
abbrev pub raise : LogicalMessageSpan → ℕ → ℕ
raise s hi = if ltb hi s.end_offset then s.end_offset else hi

-- The first loop, over the rest of the page.
unfoldable pub hull : List LogicalMessageSpan → ByteRange → ByteRange
hull [] r = r
hull (s ∷ ss) r = hull ss (record { start = lower s r.start; end = raise s r.end })

abbrev pub is_disjoint : LogicalMessageSpan → ByteRange → Bool
is_disjoint s r = leb s.end_offset r.start || leb r.end s.replay_start

-- What a span does to the range in the inner loop, and whether it moved it.
abbrev pub absorb : LogicalMessageSpan → ByteRange → ByteRange
absorb s r = if is_disjoint s r then r else record { start = lower s r.start; end = raise s r.end }

abbrev pub is_moved : LogicalMessageSpan → ByteRange → Bool
is_moved s r = not (is_disjoint s r) && (ltb s.replay_start r.start || ltb r.end s.end_offset)

-- A round of the outer loop.
unfoldable pub one_round : List LogicalMessageSpan → ByteRange → Bool → ByteRange × Bool
one_round [] r moved = (r, moved)
one_round (s ∷ ss) r moved = one_round ss (absorb s r) (moved || is_moved s r)

-- for moved := true; moved; { … }; nothing where the fuel runs out.
unfoldable pub grow : ℕ → List LogicalMessageSpan → ByteRange → Option ByteRange
unfolding one_round
grow zero all r = none
grow (suc fuel) all r = elim (one_round all r false).1 [
  | false ↦ some (one_round all r false).0
  | true ↦ grow fuel all (one_round all r false).0
]

-- The greatest end of the spans and of the range.
unfoldable pub top : List LogicalMessageSpan → ℕ → ℕ
top [] hi = hi
top (s ∷ ss) hi = top ss (raise s hi)

-- Each round that moves the range lowers its start or raises its end, which stays below `top`.
unfoldable pub union_from : List LogicalMessageSpan → ByteRange → Option ByteRange
unfolding grow top
union_from all r = grow (suc (r.start + (top all r.end - r.end))) all r

unfoldable pub span_byte_union :
    List LogicalMessageSpan → List LogicalMessageSpan → Option ByteRange
unfolding union_from hull
span_byte_union all [] = some (record { start = 0; end = 0 })
span_byte_union all (s ∷ ss) =
    union_from all (hull ss (record { start = s.replay_start; end = s.end_offset }))
