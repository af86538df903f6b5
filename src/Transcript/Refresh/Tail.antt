-- ===== src/Transcript/Refresh/Tail.antt =====
-- What Refresh of transcriptindex/index.go makes of the spans that it reads again.
use mathlib.Core.Path.{subst, sym}
use cccode_macbridge.Base.{
  ℕ, ◌+◌, ◌-◌, ◌≤◌, ◌≡◌, refl, inl, inr, some, List, [], ◌∷◌, ◌++◌, ltb, length, drop, length-drop,
  Bool-cases,
}
use cccode_macbridge.Transcript.{LogicalMessageSpan}
use cccode_macbridge.Transcript.Spans.{Ordered}
use cccode_macbridge.Transcript.Refresh.{
  SpanExtractor, keep_spans_before, next_ordinal, renumber, refresh_from, refresh_spans,
  refresh_replay_start,
}
use cccode_macbridge.Transcript.Refresh.Start.{AllDone, AllFrom, refresh_replay_start_lem}

-- The ordinals count from `first` on.
abbrev pub Numbered : ℕ → List LogicalMessageSpan → Type 0
Numbered first [] = Unit
Numbered first (s ∷ ss) = (s.ordinal ≡ first) × Numbered (first + 1) ss

-- All spans end by an offset.
abbrev pub AllEndBy : ℕ → List LogicalMessageSpan → Type 0
AllEndBy bound [] = Unit
AllEndBy bound (s ∷ ss) = (s.end_offset ≤ bound) × AllEndBy bound ss

renumber-Numbered : (n : ℕ) (ss : List LogicalMessageSpan) → Numbered n (renumber n ss)
unfolding renumber
renumber-Numbered n [] = tt
renumber-Numbered n (s ∷ ss) = (refl, renumber-Numbered (n + 1) ss)

renumber-AllEndBy :
    (bound n : ℕ) (ss : List LogicalMessageSpan)
    → AllEndBy bound ss
    → AllEndBy bound (renumber n ss)
unfolding renumber
renumber-AllEndBy bound n [] a = tt
renumber-AllEndBy bound n (s ∷ ss) a = (a.0, renumber-AllEndBy bound (n + 1) ss a.1)

Ordered-AllEndBy :
    (first low next last high : ℕ) (ss : List LogicalMessageSpan)
    → Ordered first low ss next last high
    → AllEndBy high ss
Ordered-AllEndBy first low next last high [] o = tt
Ordered-AllEndBy first low next last high (s ∷ ss) o =
    (o.3, Ordered-AllEndBy (first + 1) s.replay_start next last high ss o.4)

-- The kept spans keep their ordinals, and the others count on.
kept-Numbered :
    (first low next last high from : ℕ) (ss ts : List LogicalMessageSpan)
    → Ordered first low ss next last high
    → Numbered (next_ordinal first (keep_spans_before ss from)) ts
    → Numbered first (keep_spans_before ss from ++ ts)
unfolding keep_spans_before
kept-Numbered first low next last high from [] ts o t = t
kept-Numbered first low next last high from (s ∷ ss) ts o t =
    elim (Bool-cases (ltb s.replay_start from)) [
      | inl before ↦
          let opened : keep_spans_before (s ∷ ss) from ≡ s ∷ keep_spans_before ss from =
            rw (before, keep_spans_before) refl in
          let t' : Numbered (next_ordinal (s.ordinal + 1) (keep_spans_before ss from)) ts =
            subst (λ ks. Numbered (next_ordinal first ks) ts) opened t in
          let t'' : Numbered (next_ordinal (first + 1) (keep_spans_before ss from)) ts =
            subst (λ n. Numbered (next_ordinal (n + 1) (keep_spans_before ss from)) ts) o.0 t' in
          subst (λ ks. Numbered first (ks ++ ts)) (sym opened)
            (o.0, kept-Numbered (first + 1) s.replay_start next last high from ss ts o.4 t'')
      | inr after ↦
          let nothing : keep_spans_before (s ∷ ss) from ≡ [] = rw (after, keep_spans_before) refl in
          subst (λ ks. Numbered first (ks ++ ts)) (sym nothing)
            (subst (λ ks. Numbered (next_ordinal first ks) ts) nothing t)
    ]

-- The same spans one by one, but for their ordinals, which count from `n` on.
abbrev pub Renumbered : ℕ → List LogicalMessageSpan → List LogicalMessageSpan → Type 0
Renumbered n [] ts = ts ≡ []
Renumbered n (s ∷ ss) [] = ⊥
Renumbered n (s ∷ ss) (t ∷ ts) = (t ≡ record s { ordinal = n }) × Renumbered (n + 1) ss ts

renumber-Renumbered : (n : ℕ) (ss : List LogicalMessageSpan) → Renumbered n ss (renumber n ss)
unfolding renumber
renumber-Renumbered n [] = refl
renumber-Renumbered n (s ∷ ss) = (refl, renumber-Renumbered (n + 1) ss)

-- What a refresh makes of the spans of an index: those before an offset, which are complete there,
-- and behind them the spans that the extractor finds in the rest of the text, with new ordinals.
pub record Refreshed (x : SpanExtractor) (text : List ℕ) (before after : List LogicalMessageSpan)
    : Type 0 where
  pub from : ℕ
  pub kept : List LogicalMessageSpan
  pub again : List LogicalMessageSpan
  pub split : before ≡ kept ++ again
  pub done : AllDone from kept
  pub behind : AllFrom from again
  pub fresh : List LogicalMessageSpan
  pub result : after ≡ kept ++ fresh
  pub first : ℕ
  pub renumbered : Renumbered first (x.spans_of (drop from text)) fresh
  pub numbered : Numbered 0 after

module _ (x : SpanExtractor) (text : List ℕ) where
  module _ (next last high : ℕ) (ss : List LogicalMessageSpan)
      (o : Ordered 0 0 ss next last high) where
    -- Over spans in order Refresh ends: it keeps the complete spans before the replay start, puts
    -- behind them the spans that the extractor finds in the bytes from there on, and changes only
    -- the ordinals of those, which then count on. So their offsets count from the replay start and
    -- not from the start of the file: all of them end by the number of bytes behind the replay start.
    pub refresh_spans_misplaced :
        (after : List LogicalMessageSpan) × (refresh_spans x ss text ≡ some after)
        × (v : Refreshed x text ss after) × (refresh_replay_start ss ≡ some v.from)
        × AllEndBy (length text - v.from) v.fresh
    unfolding refresh_spans refresh_from
    refresh_spans_misplaced =
        let (from, result, again, split, done, behind) =
          refresh_replay_start_lem next last high ss o in
        let kept = keep_spans_before ss from in
        let first = next_ordinal 0 kept in
        let found = x.spans_of (drop from text) in
        let (n, tail) = x.in_order (drop from text) in
        (
          kept ++ renumber first found,
          rw result refl,
          record {
            from = from;
            kept = kept;
            again = again;
            split = split;
            done = done;
            behind = behind;
            fresh = renumber first found;
            result = refl;
            first = first;
            renumbered = renumber-Renumbered first found;
            numbered =
                kept-Numbered 0 0 next last high from ss (renumber first found) o
                  (renumber-Numbered first found);
          },
          result,
          renumber-AllEndBy (length text - from) first found (
              subst (λ b. AllEndBy b found) (length-drop from text)
                (Ordered-AllEndBy 0 0 n (length (drop from text)) (length (drop from text)) found
                  tail)),
        )
