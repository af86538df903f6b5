-- ===== src/Transcript/Replay/Content.antt =====
-- What Replay gives for a page of an index in order (transcriptindex/index.go).
use mathlib.Core.List.{append-nil}
use cccode_macbridge.Base.{
  ℕ, ◌+◌, ◌≤◌, ◌<◌, ◌≡◌, refl, sym, ap, ◌∙◌, Bool, true, false, ◌⊎◌, inl, inr, Option, some, List,
  [], ◌∷◌, ◌++◌, map, arith, ◌==◌, length, keep, keep-append, Bool-cases,
}
use cccode_macbridge.Transcript.{LogicalMessageSpan, ByteRange}
use cccode_macbridge.Transcript.Spans.{Ordered}
use cccode_macbridge.Transcript.Refresh.Tail.{Numbered}
use cccode_macbridge.Transcript.Union.Closed.{Closed, AllInside, span_byte_union_lem}
use cccode_macbridge.Transcript.Replay.{
  is_wanted, select, check_count, replay_from, replay_entries, replay_range, replay,
}
use cccode_macbridge.Transcript.Replay.Start.{Starts, span_byte_union-Starts}
use cccode_macbridge.Transcript.Replay.Inside.{
  is_inside, Ordered-Numbered, Numbered-append, span_at_offset-Numbered, keep-AllInside,
}

not_wanted :
    (n m : ℕ) (page : List LogicalMessageSpan)
    → Numbered m page
    → (n < m) ⊎ (m + length page ≤ n)
    → is_wanted n page ≡ false
not_wanted n m [] v h = refl
not_wanted n m (s ∷ ss) v h =
    let e : (s.ordinal == n) ≡ false = ground (arith, v.0, h) in
    let rest : (n < m + 1) ⊎ (m + 1 + length ss ≤ n) = ground (arith, h) in
    rw e (not_wanted n (m + 1) ss v.1 rest)

wanted :
    (n m : ℕ) (page : List LogicalMessageSpan)
    → Numbered m page
    → m ≤ n
    → n < m + length page
    → is_wanted n page ≡ true
wanted n m [] v h k = absurd (omega (arith, h, k))
wanted n m (s ∷ ss) v h k = elim (Bool-cases (s.ordinal == n)) [
  | inl e ↦ rw e refl
  | inr e ↦ rw e (wanted n (m + 1) ss v.1 (ground (arith, e, v.0)) (omega (arith, k)))
]

module _ (m : ℕ) (page : List LogicalMessageSpan) (v : Numbered m page) where
  abbrev is_of_page : LogicalMessageSpan → Bool
  is_of_page s = is_wanted s.ordinal page

  keep_none :
      (q : LogicalMessageSpan → Bool) (k : ℕ) (zs : List LogicalMessageSpan)
      → Numbered k zs
      → (k + length zs ≤ m) ⊎ (m + length page ≤ k)
      → keep is_of_page (keep q zs) ≡ []
  keep_none q k [] w h = refl
  keep_none q k (z ∷ zs) w h =
      let out : is_of_page z ≡ false = not_wanted z.ordinal m page v (ground (arith, w.0, h)) in
      let rest = keep_none q (k + 1) zs w.1 (ground (arith, h)) in
      elim (Bool-cases (q z)) [ inl e ↦ rw (e, out) rest | inr e ↦ rw e rest ]

  keep_page :
      (k : ℕ) (zs : List LogicalMessageSpan)
      → Numbered k zs
      → m ≤ k
      → k + length zs ≤ m + length page
      → keep is_of_page zs ≡ zs
  keep_page k [] w h l = refl
  keep_page k (z ∷ zs) w h l =
      let e : is_of_page z ≡ true =
        wanted z.ordinal m page v (omega (arith, w.0, h)) (omega (arith, w.0, l)) in
      rw e (ap (λ us. z ∷ us) (keep_page (k + 1) zs w.1 (omega (arith, h)) (omega (arith, l))))

module _ {ℓ} {Entry : Type ℓ} (content : LogicalMessageSpan → Entry) where
  select-map :
      (n : ℕ) (page bs : List LogicalMessageSpan)
      → Numbered n bs
      → select n page (map content bs) ≡ map content (keep (λ b. is_wanted b.ordinal page) bs)
  unfolding select
  select-map n page [] v = refl
  select-map n page (b ∷ bs) v =
      let rest = select-map (n + 1) page bs v.1 in
      let same : is_wanted n page ≡ is_wanted b.ordinal page =
        ap (λ k. is_wanted k page) (sym v.0) in
      elim (Bool-cases (is_wanted b.ordinal page)) [
        | inl e ↦ rw (same, e) (ap (λ us. content b ∷ us) rest)
        | inr e ↦ rw (same, e) rest
      ]

  pub length-map : (ss : List LogicalMessageSpan) → length (map content ss) ≡ length ss
  length-map [] = refl
  length-map (s ∷ ss) = omega (arith, length-map ss)

  check_count-map :
      (page : List LogicalMessageSpan)
      → check_count page (map content page) ≡ inr (map content page)
  unfolding check_count
  check_count-map page =
      let e : (length (map content page) == length page) ≡ true = ground (arith, length-map page) in
      rw e refl

  -- Of the spans in the range, those that are wanted are the page.
  keep-page :
      (t : ByteRange) (xs page ys : List LogicalMessageSpan)
      → Numbered 0 (xs ++ (page ++ ys))
      → AllInside page t
      → keep (λ b. is_wanted b.ordinal page) (keep (is_inside t) (xs ++ (page ++ ys))) ≡ page
  keep-page t xs page ys v inside =
      let (vx, w) = Numbered-append 0 xs (page ++ ys) v in
      let (vp, vy) = Numbered-append (0 + length xs) page ys w in
      let m = 0 + length xs in
      let p : LogicalMessageSpan → Bool = λ b. is_wanted b.ordinal page in
      let q = is_inside t in
      ap (keep p) (
        keep-append q xs (page ++ ys)
        ∙ ap (λ zs. keep q xs ++ zs)
            (keep-append q page ys ∙ ap (λ zs. zs ++ keep q ys) (keep-AllInside t page inside)))
      ∙ keep-append p (keep q xs) (page ++ keep q ys)
      ∙ ap (λ zs. zs ++ keep p (page ++ keep q ys))
          (keep_none m page vp q 0 xs vx (inl (omega arith)))
      ∙ keep-append p page (keep q ys)
      ∙ ap (λ zs. zs ++ keep p (keep q ys))
          (keep_page m page vp m page vp (omega arith) (omega arith))
      ∙ ap (λ zs. page ++ zs) (keep_none m page vp q (m + length page) ys vy (inr (omega arith)))
      ∙ append-nil page

  module _ (replayer : ByteRange → Option (List Entry)) (xs page ys : List LogicalMessageSpan)
      (contract : (r : ByteRange)
        → Closed (xs ++ (page ++ ys)) r
        → replayer r ≡ some (map content (keep (is_inside r) (xs ++ (page ++ ys)))))
      (next last high : ℕ) (o : Ordered 0 0 (xs ++ (page ++ ys)) next last high) where
    replay_range-content :
        (t : ByteRange)
        → AllInside page t
        → Closed (xs ++ (page ++ ys)) t
        → Starts t.start (xs ++ (page ++ ys))
        → replay_range replayer (xs ++ (page ++ ys)) page (some t) ≡ inr (map content page)
    unfolding replay_range replay_entries replay_from
    replay_range-content t inside closed at =
        let all = xs ++ (page ++ ys) in
        let (b, found, v) = span_at_offset-Numbered t 0 0 next last high all o closed at in
        ap (replay_entries all page t.start) (contract t closed)
        ∙ ap (replay_from page (map content (keep (is_inside t) all))) found
        ∙ ap (check_count page) (
            select-map b.ordinal page (keep (is_inside t) all) v
            ∙ ap (map content)
                (keep-page t xs page ys (Ordered-Numbered 0 0 next last high all o) inside))
        ∙ check_count-map page

  -- For a page that stands in an index in order, Replay gives the contents of exactly the messages of
  -- the page, in order; when the replayer gives, for a range that cuts no message, the contents of
  -- the messages that lie in the range, in order.
  pub replay_lem :
      (replayer : ByteRange → Option (List Entry)) (xs page ys : List LogicalMessageSpan)
      (next last high : ℕ)
      → ((r : ByteRange)
          → Closed (xs ++ (page ++ ys)) r
          → replayer r ≡ some (map content (keep (is_inside r) (xs ++ (page ++ ys)))))
      → Ordered 0 0 (xs ++ (page ++ ys)) next last high
      → replay (some replayer) (xs ++ (page ++ ys)) page ≡ inr (map content page)
  unfolding replay
  replay_lem replayer xs [] ys next last high contract o = refl
  replay_lem replayer xs (s ∷ ss) ys next last high contract o =
      let all = xs ++ ((s ∷ ss) ++ ys) in
      let (t, result, inside, closed, _) = span_byte_union_lem all s ss in
      ap (replay_range replayer all (s ∷ ss)) result
      ∙ replay_range-content replayer xs (s ∷ ss) ys contract next last high o t inside closed
          (span_byte_union-Starts xs s ss ys t result)
