-- ===== src/Transcript/Replay/Inside.antt =====
-- The spans that lie in a byte range of an index in order (transcriptindex/index.go).
use mathlib.Core.Path.{subst}
use cccode_macbridge.Base.{
  ℕ, ◌+◌, ◌≤◌, ◌≡◌, refl, sym, ap, Bool, true, false, ◌&&◌, inl, inr, some, List, [], ◌∷◌, ◌++◌,
  arith, leb, ◌==◌, length, keep, Bool-cases,
}
use cccode_macbridge.Transcript.{LogicalMessageSpan, ByteRange}
use cccode_macbridge.Transcript.Spans.{Ordered}
use cccode_macbridge.Transcript.Refresh.Tail.{Numbered}
use cccode_macbridge.Transcript.Union.Closed.{Closed, AllInside}
use cccode_macbridge.Transcript.Replay.{span_at_offset}
use cccode_macbridge.Transcript.Replay.Start.{Starts}

abbrev pub is_inside : ByteRange → LogicalMessageSpan → Bool
is_inside r s = leb r.start s.replay_start && leb s.end_offset r.end

pub Ordered-Numbered :
    (first low next last high : ℕ) (ss : List LogicalMessageSpan)
    → Ordered first low ss next last high
    → Numbered first ss
Ordered-Numbered first low next last high [] o = tt
Ordered-Numbered first low next last high (s ∷ ss) o =
    (o.0, Ordered-Numbered (first + 1) s.replay_start next last high ss o.4)

pub Numbered-append :
    (n : ℕ) (xs ys : List LogicalMessageSpan)
    → Numbered n (xs ++ ys)
    → Numbered n xs × Numbered (n + length xs) ys
Numbered-append n [] ys v = (tt, subst (λ k. Numbered k ys) (omega arith) v)
Numbered-append n (x ∷ xs) ys v =
    let (a, b) = Numbered-append (n + 1) xs ys v.1 in
    ((v.0, a), subst (λ k. Numbered k ys) (omega arith) b)

module _ (t : ByteRange) where
  keep_behind :
      (first low next last high : ℕ) (ss : List LogicalMessageSpan)
      → Ordered first low ss next last high
      → t.end ≤ low
      → keep (is_inside t) ss ≡ []
  keep_behind first low next last high [] o h = refl
  keep_behind first low next last high (s ∷ ss) o h =
      let out : is_inside t s ≡ false = ground (arith, o.1, o.2) in
      rw out (keep_behind (first + 1) s.replay_start next last high ss o.4 (omega (arith, o.1)))

  -- From its start on, the range holds spans one after the other.
  keep-Numbered :
      (first low next last high : ℕ) (ss : List LogicalMessageSpan)
      → Ordered first low ss next last high
      → t.start ≤ low
      → Closed ss t
      → Numbered first (keep (is_inside t) ss)
  keep-Numbered first low next last high [] o h c = tt
  keep-Numbered first low next last high (s ∷ ss) o h c = elim (Bool-cases (is_inside t s)) [
    | inl e ↦ rw e (
      o.0,
      keep-Numbered (first + 1) s.replay_start next last high ss o.4 (omega (arith, o.1)) c.1,
    )
    | inr e ↦
        let far : t.end ≤ s.replay_start = elim c.0 [
          | inl inside ↦ ground (arith, inside, e)
          | inr apart ↦ ground (arith, apart, o.1, o.2)
        ] in
        rw (e, keep_behind (first + 1) s.replay_start next last high ss o.4 far) tt
  ]

  Starts-le :
      (n first low next last high : ℕ) (ss : List LogicalMessageSpan)
      → Ordered first low ss next last high
      → Starts n ss
      → low ≤ n
  Starts-le n first low next last high [] o h = absurd h
  Starts-le n first low next last high (s ∷ ss) o (inl e) = omega (arith, o.1, e)
  Starts-le n first low next last high (s ∷ ss) o (inr h) =
      omega (arith, o.1, Starts-le n (first + 1) s.replay_start next last high ss o.4 h)

  -- The first span at the start of the range has the ordinal of the first span in it.
  pub span_at_offset-Numbered :
      (first low next last high : ℕ) (ss : List LogicalMessageSpan)
      → Ordered first low ss next last high
      → Closed ss t
      → Starts t.start ss
      → (b : LogicalMessageSpan) × (span_at_offset ss t.start ≡ some b)
        × Numbered b.ordinal (keep (is_inside t) ss)
  unfolding span_at_offset
  span_at_offset-Numbered first low next last high [] o c h = absurd h
  span_at_offset-Numbered first low next last high (s ∷ ss) o c h =
      elim (Bool-cases (s.replay_start == t.start)) [
        | inl e ↦ (
          s,
          rw e refl,
          subst (λ n. Numbered n (keep (is_inside t) (s ∷ ss))) (sym o.0)
              (keep-Numbered first s.replay_start next last high (s ∷ ss)
                (o.0, omega arith, o.2, o.3, o.4) (ground (arith, e)) c),
        )
        | inr e ↦
            let later : Starts t.start ss = elim h [
              | inl at ↦ ground (arith, at, e)
              | inr more ↦ more
            ] in
            let le = Starts-le t.start (first + 1) s.replay_start next last high ss o.4 later in
            let out : is_inside t s ≡ false = ground (arith, le, e) in
            let (b, found, v) =
              span_at_offset-Numbered (first + 1) s.replay_start next last high ss o.4 c.1 later in
            (b, rw e found, rw out v)
      ]

  pub keep-AllInside : (ss : List LogicalMessageSpan) → AllInside ss t → keep (is_inside t) ss ≡ ss
  keep-AllInside [] a = refl
  keep-AllInside (s ∷ ss) a =
      let e : is_inside t s ≡ true = ground (arith, a.0) in
      rw e (ap (λ us. s ∷ us) (keep-AllInside ss a.1))
