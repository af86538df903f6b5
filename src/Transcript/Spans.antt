-- ===== src/Transcript/Spans.antt =====
-- The order of the spans of a transcript (transcriptindex/types.go).
use cccode_macbridge.Base.{ℕ, ◌+◌, ◌≤◌, ◌<◌, ◌≡◌, List, [], ◌∷◌, ◌++◌, arith}
use cccode_macbridge.Transcript.{LogicalMessageSpan}

-- Spans with the ordinals from `first` on and below `next`. Their starts lie from `low` to `last`
-- and do not descend; each ends behind its start and at most at `high`.
abbrev pub Ordered : ℕ → ℕ → List LogicalMessageSpan → ℕ → ℕ → ℕ → Type 0
Ordered first low [] next last high = (first ≡ next) × (low ≤ last)
Ordered first low (s ∷ ss) next last high =
    (s.ordinal ≡ first)
    × (low ≤ s.replay_start)
    × (s.replay_start < s.end_offset)
    × (s.end_offset ≤ high)
    × Ordered (first + 1) s.replay_start ss next last high

pub Ordered-raise :
    (first low next last last' high high' : ℕ) (ss : List LogicalMessageSpan)
    → last ≤ last'
    → high ≤ high'
    → Ordered first low ss next last high
    → Ordered first low ss next last' high'
Ordered-raise first low next last last' high high' [] h k o = (o.0, omega (arith, o.1))
Ordered-raise first low next last last' high high' (s ∷ ss) h k (a, b, c, d, o) = (
  a,
  b,
  c,
  omega (arith, d),
  Ordered-raise (first + 1) s.replay_start next last last' high high' ss h k o,
)

pub Ordered-append :
    (first low next last high : ℕ) (ss : List LogicalMessageSpan) (s : LogicalMessageSpan)
    → Ordered first low ss next last high
    → s.ordinal ≡ next
    → last ≤ s.replay_start
    → s.replay_start < s.end_offset
    → s.end_offset ≤ high
    → Ordered first low (ss ++ (s ∷ [])) (next + 1) s.replay_start high
Ordered-append first low next last high [] s (e, l) a b c d =
    (omega (arith, e, a), omega (arith, l), c, d, (omega (arith, e), omega arith))
Ordered-append first low next last high (t ∷ ss) s (p, q, r, u, o) a b c d =
    (p, q, r, u, Ordered-append (first + 1) t.replay_start next last high ss s o a b c d)

-- The last span is replaced by one that ends later.
pub Ordered-last :
    (first low next last high : ℕ) (ss : List LogicalMessageSpan) (s t : LogicalMessageSpan)
    → Ordered first low (ss ++ (s ∷ [])) next last high
    → t.ordinal ≡ s.ordinal
    → t.replay_start ≡ s.replay_start
    → s.end_offset ≤ t.end_offset
    → t.end_offset ≤ high
    → Ordered first low (ss ++ (t ∷ [])) next last high
Ordered-last first low next last high [] s t (p, q, r, u, (e, l)) a b c d =
    (omega (arith, p, a), omega (arith, q, b), omega (arith, r, b, c), d, (e, omega (arith, l, b)))
Ordered-last first low next last high (v ∷ ss) s t (p, q, r, u, o) a b c d =
    (p, q, r, u, Ordered-last (first + 1) v.replay_start next last high ss s t o a b c d)
