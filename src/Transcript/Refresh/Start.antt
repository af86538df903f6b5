-- ===== src/Transcript/Refresh/Start.antt =====
-- The replay start of transcriptindex/index.go cuts no message and no open tool.
use mathlib.Core.Path.{subst}
use mathlib.Core.Bool.{true≢false}
use cccode_macbridge.Base.{
  ℕ, zero, suc, ◌+◌, ◌≤◌, ◌<◌, ◌≡◌, refl, sym, ap, ◌∙◌, Bool, true, false, ◌||◌, inl, inr, ◌⊎◌,
  some, List, [], ◌∷◌, ◌++◌, arith, ltb, if◌then◌else◌, Bool-cases, or_false, or_true,
}
use cccode_macbridge.Transcript.{LogicalMessageSpan}
use cccode_macbridge.Transcript.Spans.{Ordered}
use cccode_macbridge.Transcript.Refresh.{
  last_start, open_start, open_starts, is_across, back_round, move_back, refresh_replay_start,
  keep_spans_before,
}

-- A span before the start ends by it, and all its tools are closed.
abbrev pub IsSettled : ℕ → LogicalMessageSpan → Type 0
IsSettled from s = s.replay_start < from → (s.end_offset ≤ from) × (s.open_tool_uses ≤ 0)

abbrev pub AllSettled : ℕ → List LogicalMessageSpan → Type 0
AllSettled from [] = Unit
AllSettled from (s ∷ ss) = IsSettled from s × AllSettled from ss

-- No span lies across the start.
abbrev Clear : ℕ → List LogicalMessageSpan → Type 0
Clear from [] = Unit
Clear from (s ∷ ss) = (is_across s from ≡ false) × Clear from ss

-- Every span before the start has its tools closed.
abbrev Shut : ℕ → List LogicalMessageSpan → Type 0
Shut from [] = Unit
Shut from (s ∷ ss) = (s.replay_start < from → s.open_tool_uses ≤ 0) × Shut from ss

Shut-lower : (from to : ℕ) (ss : List LogicalMessageSpan) → to ≤ from → Shut from ss → Shut to ss
Shut-lower from to [] h a = tt
Shut-lower from to (s ∷ ss) h a = (λ l. a.0 (omega arith), Shut-lower from to ss h a.1)

open_starts-Shut :
    (ss : List LogicalMessageSpan) (from : ℕ)
    → (open_starts ss from ≤ from) × Shut (open_starts ss from) ss
unfolding open_starts
open_starts-Shut [] from = (omega arith, tt)
open_starts-Shut (s ∷ ss) from =
    let (a, b) = open_starts-Shut ss from in
    let lower : open_start s (open_starts ss from) ≤ open_starts ss from = ground arith in
    (
      omega (arith, a, lower),
      (
        λ l. ground arith,
        Shut-lower (open_starts ss from) (open_start s (open_starts ss from)) ss lower b,
      ),
    )

back_round-still :
    (ss : List LogicalMessageSpan) (from : ℕ) (moved : Bool)
    → (back_round ss from moved).1 ≡ false
    → (moved ≡ false) × ((back_round ss from moved).0 ≡ from) × Clear from ss
unfolding back_round
back_round-still [] from moved e = (e, refl, tt)
back_round-still (s ∷ ss) from moved e = elim (Bool-cases (is_across s from)) [
  | inl across ↦
      let (unmoved, _, _) =
        back_round-still ss (if is_across s from then s.replay_start else from)
          (moved || is_across s from) e in
      absurd (true≢false (sym across ∙ (or_false moved (is_across s from) unmoved).1))
  | inr beside ↦
      let (unmoved, same, clear) =
        back_round-still ss (if is_across s from then s.replay_start else from)
          (moved || is_across s from) e in
      let stays : (if is_across s from then s.replay_start else from) ≡ from = rw beside refl in
      (
        (or_false moved (is_across s from) unmoved).0,
        same ∙ stays,
        (beside, subst (λ f. Clear f ss) stays clear),
      )
]

across_lowers :
    (s : LogicalMessageSpan) (from : ℕ)
    → ((if is_across s from then s.replay_start else from) ≤ from)
      × (is_across s from ≡ true → (if is_across s from then s.replay_start else from) < from)
across_lowers s from = (ground arith, λ e. ground arith)

back_round-le :
    (ss : List LogicalMessageSpan) (from : ℕ) (moved : Bool)
    → ((back_round ss from moved).0 ≤ from)
      × ((back_round ss from moved).1 ≡ true
          → (moved ≡ true) ⊎ ((back_round ss from moved).0 < from))
unfolding back_round
back_round-le [] from moved = (omega arith, λ e. inl e)
back_round-le (s ∷ ss) from moved =
    let (a, b) =
      back_round-le ss (if is_across s from then s.replay_start else from)
        (moved || is_across s from) in
    let (c, d) = across_lowers s from in
    (
      omega (arith, a, c),
      λ e. elim (b e) [
        | inl any ↦ elim (or_true moved (is_across s from) any) [
          | inl before ↦ inl before
          | inr now ↦ inr (omega (arith, d now, a))
        ]
        | inr later ↦ inr (omega (arith, later, c))
      ],
    )

move_back_lem :
    (fuel from : ℕ) (ss : List LogicalMessageSpan)
    → from < fuel
    → Shut from ss
    → (to : ℕ) × (move_back fuel ss from ≡ some to) × (to ≤ from) × Shut to ss × Clear to ss
unfolding move_back
move_back_lem zero from ss h a = absurd (omega arith)
move_back_lem (suc fuel) from ss h a = elim (Bool-cases (back_round ss from false).1) [
  | inr still ↦
      let (_, same, clear) = back_round-still ss from false still in
      (from, rw (still, move_back) (ap some same), omega arith, a, clear)
  | inl moved ↦
      let (below, less) = back_round-le ss from false in
      let next = (back_round ss from false).0 in
      let smaller : next < from = elim (less moved) [ inl e ↦ absurd (cc e) | inr k ↦ k ] in
      let (to, result, le, shut, clear) =
        move_back_lem fuel next ss (omega (arith, smaller)) (Shut-lower from next ss below a) in
      (to, rw (moved, move_back) result, omega (arith, le, below), shut, clear)
]

settled_of :
    (from : ℕ) (ss : List LogicalMessageSpan) → Shut from ss → Clear from ss → AllSettled from ss
settled_of from [] a b = tt
settled_of from (s ∷ ss) a b = (λ l. (ground (arith, b.0), a.0 l), settled_of from ss a.1 b.1)

-- From the first span at or behind the start on, all are.
abbrev pub AllFrom : ℕ → List LogicalMessageSpan → Type 0
AllFrom from [] = Unit
AllFrom from (s ∷ ss) = (from ≤ s.replay_start) × AllFrom from ss

AllFrom-Ordered :
    (first low next last high from : ℕ) (ss : List LogicalMessageSpan)
    → Ordered first low ss next last high
    → from ≤ low
    → AllFrom from ss
AllFrom-Ordered first low next last high from [] o h = tt
AllFrom-Ordered first low next last high from (s ∷ ss) o h = (
  omega (arith, o.1),
  AllFrom-Ordered (first + 1) s.replay_start next last high from ss o.4 (omega (arith, o.1)),
)

abbrev pub AllDone : ℕ → List LogicalMessageSpan → Type 0
AllDone from [] = Unit
AllDone from (s ∷ ss) = (s.end_offset ≤ from) × (s.open_tool_uses ≤ 0) × AllDone from ss

-- The spans that are kept, and those that are read again.
record IsCut (from : ℕ) (ss : List LogicalMessageSpan) : Type 0 where
  again : List LogicalMessageSpan
  split : ss ≡ keep_spans_before ss from ++ again
  done : AllDone from (keep_spans_before ss from)
  behind : AllFrom from again

keep_spans_before_lem :
    (first low next last high from : ℕ) (ss : List LogicalMessageSpan)
    → Ordered first low ss next last high
    → AllSettled from ss
    → IsCut from ss
unfolding keep_spans_before
keep_spans_before_lem first low next last high from [] o a = record {
  again = [];
  split = refl;
  done = tt;
  behind = tt;
}
keep_spans_before_lem first low next last high from (s ∷ ss) o a =
    elim (Bool-cases (ltb s.replay_start from)) [
      | inl before ↦
          let v = keep_spans_before_lem (first + 1) s.replay_start next last high from ss o.4 a.1 in
          let (ends, shut) = a.0 (ground arith) in
          let opened : keep_spans_before (s ∷ ss) from ≡ s ∷ keep_spans_before ss from =
            rw (before, keep_spans_before) refl in
          record {
            again = v.again;
            split = ap (λ xs. s ∷ xs) v.split ∙ ap (λ xs. xs ++ v.again) (sym opened);
            done = subst (AllDone from) (sym opened) (ends, shut, v.done);
            behind = v.behind;
          }
      | inr after ↦
          let nothing : keep_spans_before (s ∷ ss) from ≡ [] = rw (after, keep_spans_before) refl in
          record {
            again = s ∷ ss;
            split = ap (λ xs. xs ++ (s ∷ ss)) (sym nothing);
            done = subst (AllDone from) (sym nothing) tt;
            behind = (
              ground arith,
              AllFrom-Ordered (first + 1) s.replay_start next last high from ss o.4 (ground arith),
            );
          }
    ]

-- Over spans in order, the search for the replay start ends; the spans that are kept are the first
-- ones, all end by the replay start and have no open tool; and all others start at or behind it.
pub refresh_replay_start_lem :
    (next last high : ℕ) (ss : List LogicalMessageSpan)
    → Ordered 0 0 ss next last high
    → (from : ℕ) × (refresh_replay_start ss ≡ some from)
      × (again : List LogicalMessageSpan) × (ss ≡ keep_spans_before ss from ++ again)
      × AllDone from (keep_spans_before ss from)
      × AllFrom from again
unfolding refresh_replay_start
refresh_replay_start_lem next last high [] o =
    let v = keep_spans_before_lem 0 0 next last high 0 [] o tt in
    (0, refl, v.again, v.split, v.done, v.behind)
refresh_replay_start_lem next last high (s ∷ ss) o =
    let start = open_starts (s ∷ ss) (last_start s ss) in
    let (to, result, le, shut, clear) =
      move_back_lem (suc start) start (s ∷ ss) (omega arith)
        (open_starts-Shut (s ∷ ss) (last_start s ss)).1 in
    let v =
      keep_spans_before_lem 0 0 next last high to (s ∷ ss) o (settled_of to (s ∷ ss) shut clear) in
    (to, result, v.again, v.split, v.done, v.behind)
