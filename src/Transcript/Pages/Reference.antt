-- ===== src/Transcript/Pages/Reference.antt =====
-- PageBefore of transcriptindex/index.go, against a filter.
use cccode_macbridge.Base.{
  ℕ, zero, suc, ◌+◌, ◌-◌, ◌≤◌, ◌<◌, ◌≡◌, refl, sym, ap, ◌∙◌, true, ◌||◌, inl, inr, some, List, [],
  ◌∷◌, arith, ltb, leb, if◌then◌else◌, length, take, drop, keep, get_elem?, take-drop, take_all,
  drop_all, leb→le, Bool-cases,
}
use cccode_macbridge.Transcript.{LogicalMessageSpan}
use cccode_macbridge.Transcript.Spans.{Ordered}
use cccode_macbridge.Transcript.Pages.{last_n, search, reaches, slice_of, page_up_to, page_before}
use cccode_macbridge.Transcript.Pages.Search.{search_lem}

-- min(a, b)
abbrev pub smaller : ℕ → ℕ → ℕ
smaller a b = if leb a b then a else b

length-take-le : (n : ℕ) (ss : List LogicalMessageSpan) → length (take n ss) ≤ n
length-take-le zero ss = omega arith
length-take-le (suc n) [] = omega arith
length-take-le (suc n) (s ∷ ss) = omega (arith, length-take-le n ss)

length-take_empty : (n : ℕ) (ss : List LogicalMessageSpan) → length ss ≤ 0 → length (take n ss) ≤ 0
length-take_empty zero ss h = omega arith
length-take_empty (suc n) [] h = omega arith
length-take_empty (suc n) (s ∷ ss) h = absurd (omega arith)

take-smaller : (n : ℕ) (ss : List LogicalMessageSpan) → take (smaller n (length ss)) ss ≡ take n ss
take-smaller n ss = elim (Bool-cases (leb n (length ss))) [
  | inl fits ↦ rw fits refl
  | inr over ↦ rw over (take_all (length ss) ss (omega arith) ∙ sym (take_all n ss (ground arith)))
]

smaller-length : (n : ℕ) (ss : List LogicalMessageSpan) → smaller n (length ss) ≡ length (take n ss)
smaller-length zero ss = ground arith
smaller-length (suc n) [] = ground arith
smaller-length (suc n) (s ∷ ss) = ground (arith, smaller-length n ss)

few_left : (a b : ℕ) → ltb a b ≡ true → 0 ≡ a - b
few_left a b h = ground arith

module _ (next last high : ℕ) where
  pub Ordered-length :
      (first low : ℕ) (ss : List LogicalMessageSpan)
      → Ordered first low ss next last high
      → first + length ss ≡ next
  Ordered-length first low [] o = omega (arith, o.0)
  Ordered-length first low (s ∷ ss) (p, q, r, u, o) =
      omega (arith, Ordered-length (first + 1) s.replay_start ss o)

  -- The test of the search by the index alone.
  reaches-Ordered :
      (first low before h : ℕ) (ss : List LogicalMessageSpan)
      → Ordered first low ss next last high
      → h < length ss
      → reaches before (get_elem? ss h) ≡ leb before (first + h)
  reaches-Ordered first low before h [] o l = absurd (omega arith)
  reaches-Ordered first low before zero (s ∷ ss) (p, q, r, u, o) l = ground arith
  reaches-Ordered first low before (suc h) (s ∷ ss) (p, q, r, u, o) l =
      reaches-Ordered (first + 1) s.replay_start before h ss o (omega arith)
      ∙ ap (leb before) (omega arith)

  keep_none :
      (first low before : ℕ) (ss : List LogicalMessageSpan)
      → Ordered first low ss next last high
      → before ≤ first
      → keep (λ s. ltb s.ordinal before) ss ≡ []
  keep_none first low before [] o h = refl
  keep_none first low before (s ∷ ss) (p, q, r, u, o) h =
      ground (arith, keep_none (first + 1) s.replay_start before ss o)

  -- The spans below an ordinal are the first ones.
  pub keep_before :
      (k first low before : ℕ) (ss : List LogicalMessageSpan)
      → Ordered first low ss next last high
      → before ≡ first + k
      → keep (λ s. ltb s.ordinal before) ss ≡ take k ss
  keep_before zero first low before ss o h = keep_none first low before ss o (omega arith)
  keep_before (suc k) first low before [] o h = refl
  keep_before (suc k) first low before (s ∷ ss) (p, q, r, u, o) h =
      ground (arith, keep_before k (first + 1) s.replay_start before ss o)

  search-Ordered :
      (before : ℕ) (ss : List LogicalMessageSpan)
      → Ordered 0 0 ss next last high
      → search (length ss) (λ i. reaches before (get_elem? ss i)) 0 (length ss)
        ≡ some (smaller before (length ss))
  search-Ordered before ss o =
      search_lem (λ i. reaches before (get_elem? ss i)) (smaller before (length ss)) (length ss) 0
        (length ss) (length ss)
        (
          λ h l. reaches-Ordered 0 0 before h ss o (ground arith) ∙ ground arith,
          λ h l m. reaches-Ordered 0 0 before h ss o m ∙ ground arith,
        )
        (omega arith) (ground arith) (omega arith) (omega arith)

  slice_of-drop :
      (count end : ℕ) (ss : List LogicalMessageSpan)
      → 0 < count
      → slice_of ss (end - count) end ≡ drop (end - count) (take end ss)
  slice_of-drop count end ss h = elim (Bool-cases (leb end (end - count))) [
    | inl empty ↦ rw empty (
        sym (
          drop_all (end - count) (take end ss)
            (omega (arith, length-take-le end ss, leb→le end (end - count) empty))))
    | inr full ↦ rw full (take-drop (end - count) (end - (end - count)) end ss (omega arith))
  ]

  -- A page is the end of the spans up to an ordinal.
  pub page_before-take :
      (before count : ℕ) (ss : List LogicalMessageSpan)
      → Ordered 0 0 ss next last high
      → 0 < count
      → page_before ss before count
        ≡ some (drop (smaller before (length ss) - count) (take (smaller before (length ss)) ss))
  unfolding page_before page_up_to
  page_before-take before count ss o h = elim (Bool-cases (leb count 0 || leb (length ss) 0)) [
    | inl empty ↦
        let none_left : length ss ≤ 0 = ground arith in
        rw empty (
          ap some (
            sym (
              drop_all (smaller before (length ss) - count) (take (smaller before (length ss)) ss) (
                omega (
                  arith,
                  length-take-le (smaller before (length ss)) ss,
                  none_left,
                  length-take_empty (smaller before (length ss)) ss none_left,
                )))))
    | inr full ↦
        rw (full, search-Ordered before ss o)
          (ap some (slice_of-drop count (smaller before (length ss)) ss h))
  ]

  pub last_n-drop :
      (count : ℕ) (ss : List LogicalMessageSpan)
      → 0 < count
      → last_n ss count ≡ drop (length ss - count) ss
  unfolding last_n
  last_n-drop count ss h = elim (Bool-cases (leb count 0 || leb (length ss) 0)) [
    | inl empty ↦ rw empty (sym (drop_all (length ss - count) ss (ground arith)))
    | inr full ↦ elim (Bool-cases (ltb (length ss) count)) [
      | inl few ↦ rw (full, few) (ap (λ n. drop n ss) (few_left (length ss) count few))
      | inr many ↦ rw (full, many) refl
    ]
  ]

-- Over spans whose ordinals count from 0, `PageBefore` gives the last `count` of those with an
-- ordinal below the one it is given, in order.
pub page_before_lem :
    (next last high before count : ℕ) (ss : List LogicalMessageSpan)
    → Ordered 0 0 ss next last high
    → 0 < count
    → page_before ss before count ≡ some (last_n (keep (λ s. ltb s.ordinal before) ss) count)
page_before_lem next last high before count ss o h =
    let kept = keep_before next last high before 0 0 before ss o (omega arith) in
    page_before-take next last high before count ss o h
    ∙ ap some (
        ap (λ (ys : List LogicalMessageSpan). drop (smaller before (length ss) - count) ys)
          (take-smaller before ss ∙ sym kept)
        ∙ ap (λ n. drop (n - count) (keep (λ s. ltb s.ordinal before) ss))
            (smaller-length before ss ∙ ap (length {A = LogicalMessageSpan}) (sym kept))
        ∙ sym (last_n-drop next last high count (keep (λ s. ltb s.ordinal before) ss) h))
