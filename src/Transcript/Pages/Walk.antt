-- ===== src/Transcript/Pages/Walk.antt =====
-- Walking back over the pages of go-bridge/pagination.go shows every message once, and ends.
use cccode_macbridge.Base.{
  ℕ, zero, suc, ◌+◌, ◌-◌, ◌≤◌, ◌<◌, ◌≡◌, refl, sym, ap, ◌∙◌, inl, inr, ◌⊎◌, Option, none, some,
  List, [], ◌∷◌, ◌++◌, arith, ltb, length, take, drop, length-take, length-drop, take_all,
  take-take, drop-drop, take-append-drop, drop-nil, Bool-cases,
}
use mathlib.Core.List.{append_assoc, append-nil}
use cccode_macbridge.Transcript.{LogicalMessageSpan}
use cccode_macbridge.Transcript.Spans.{Ordered}
use cccode_macbridge.Transcript.Pages.{page_spans, kept, walk}
use cccode_macbridge.Transcript.Pages.Reference.{smaller, page_before-take, last_n-drop}

-- The byte budget leaves at least one message in a page that has one.
abbrev pub KeepsOne : (List LogicalMessageSpan → ℕ) → Type 0
KeepsOne dropped = (page : List LogicalMessageSpan) → 0 < length page → dropped page < length page

-- The span at the head of what is left has the ordinal of its place.
Ordered-head :
    (next last high first low q n : ℕ) (ss rest : List LogicalMessageSpan) (s : LogicalMessageSpan)
    → Ordered first low ss next last high
    → drop q (take n ss) ≡ s ∷ rest
    → s.ordinal ≡ first + q
Ordered-head next last high first low q zero ss rest s o e = absurd (cc (sym (drop-nil q) ∙ e))
Ordered-head next last high first low q (suc n) [] rest s o e = absurd (cc (sym (drop-nil q) ∙ e))
Ordered-head next last high first low zero (suc n) (t ∷ ss) rest s o e = ground (arith, o.0, e)
Ordered-head next last high first low (suc q) (suc n) (t ∷ ss) rest s o e =
    omega (arith, Ordered-head next last high (first + 1) t.replay_start q n ss rest s o.4 e)

List-cases :
    (xs : List LogicalMessageSpan)
    → (xs ≡ []) ⊎ ((y : LogicalMessageSpan) × (ys : List LogicalMessageSpan) × (xs ≡ y ∷ ys))
List-cases [] = inl refl
List-cases (y ∷ ys) = inr (y, ys, refl)

smaller_first : (a b : ℕ) → a ≤ b → smaller a b ≡ a
smaller_first a b h = ground arith

-- A page and what comes before it.
joined :
    (q n : ℕ) (ss shown : List LogicalMessageSpan)
    → q ≤ n
    → take q ss ++ (drop q (take n ss) ++ shown) ≡ take n ss ++ shown
joined q n ss shown h =
    sym (append_assoc (take q ss) (drop q (take n ss)) shown)
    ∙ ap (λ xs. xs ++ shown)
        (ap (λ xs. xs ++ drop q (take n ss)) (sym (take-take q n ss h))
          ∙ take-append-drop q (take n ss))

module _ (next last high : ℕ) (ss : List LogicalMessageSpan) (o : Ordered 0 0 ss next last high)
    (dropped : List LogicalMessageSpan → ℕ) (one : KeepsOne dropped) (limit : ℕ)
    (positive : 0 < limit) where
  abbrev page_to : ℕ → List LogicalMessageSpan
  page_to before = drop (before - limit) (take before ss)

  -- Where the kept part of a page begins.
  abbrev from : ℕ → ℕ
  from before = dropped (page_to before) + (before - limit)

  length-page_to :
      (before : ℕ) → before ≤ length ss → length (page_to before) ≡ before - (before - limit)
  length-page_to before h =
      length-drop (before - limit) (take before ss)
      ∙ ap (λ n. n - (before - limit)) (length-take before ss h)

  kept-page_to :
      (before : ℕ) → kept dropped limit ss (page_to before) ≡ drop (from before) (take before ss)
  kept-page_to before =
      drop-drop (dropped (page_to before)) (before - limit) (from before) (take before ss) refl

  from-lt : (before : ℕ) → before ≤ length ss → 0 < before → from before < before
  from-lt before h p = omega (
    arith,
    length-page_to before h,
    one (page_to before) (omega (arith, length-page_to before h)),
  )

  next_page : (q : ℕ) → q ≤ length ss → page_spans ss (some q) limit ≡ some (page_to q)
  unfolding page_spans
  next_page q h =
      page_before-take next last high q limit ss o positive
      ∙ ap (λ n. some (drop (n - limit) (take n ss))) (smaller_first q (length ss) h)

  length-left :
      (before : ℕ)
      → before ≤ length ss
      → length (drop (from before) (take before ss)) ≡ before - from before
  length-left before h =
      length-drop (from before) (take before ss)
      ∙ ap (λ n. n - from before) (length-take before ss h)

  nothing_left :
      (before : ℕ) → before ≤ length ss → drop (from before) (take before ss) ≡ [] → 0 ≡ before
  nothing_left before h e = elim (Bool-cases (ltb 0 before)) [
    | inl some_left ↦ absurd (
        omega (
          arith,
          from-lt before h (ground arith),
          length-left before h,
          ap (length {A = LogicalMessageSpan}) e,
        ))
    | inr none_left ↦ ground arith
  ]

  -- A page up to `before`, when the later messages have been shown.
  walk_up_to :
      (fuel before : ℕ) (shown : List LogicalMessageSpan) (cursor : Option ℕ)
      → before ≤ length ss
      → before < fuel
      → page_spans ss cursor limit ≡ some (page_to before)
      → walk dropped limit ss fuel cursor shown ≡ some (take before ss ++ shown)
  unfolding walk
  walk_up_to zero before shown cursor h k e = absurd (omega arith)
  walk_up_to (suc fuel) before shown cursor h k e =
      elim (List-cases (drop (from before) (take before ss))) [
        | inl empty ↦
            rw (e, walk, kept-page_to before ∙ empty)
              (ap (λ n. some (take n ss ++ shown)) (nothing_left before h empty))
        | inr (s, rest, full) ↦
            let at = Ordered-head next last high 0 0 (from before) before ss rest s o full in
            let below : from before < before =
              omega (arith, length-left before h, ap (length {A = LogicalMessageSpan}) full) in
            elim (Bool-cases (ltb 0 s.ordinal)) [
              | inl more ↦
                  rw (e, walk, kept-page_to before ∙ full, more)
                    (walk_up_to fuel (from before) ((s ∷ rest) ++ shown) (some s.ordinal)
                        (omega (arith, below)) (omega (arith, below))
                        (ap (λ n. page_spans ss (some n) limit)
                            (let p : s.ordinal ≡ from before = omega (arith, at) in p)
                          ∙ next_page (from before) (omega (arith, below)))
                      ∙ ap some (
                          ap (λ xs. take (from before) ss ++ (xs ++ shown)) (sym full)
                          ∙ joined (from before) before ss shown (omega (arith, below))))
              | inr done ↦
                  rw (e, walk, kept-page_to before ∙ full, done)
                    (ap (λ xs. some (xs ++ shown))
                      (sym full
                        ∙ ap (λ n. drop n (take before ss))
                            (let p : from before ≡ 0 = ground (arith, at) in p)))
            ]
      ]

  -- A client that starts with the newest page and asks on, with the oldest cursor of each page and
  -- a positive limit, is done after as many pages as there are messages and one more at the latest;
  -- the pages, put together, are all messages in order, each once; whatever the byte budget drops,
  -- as long as it leaves one message in a page.
  pub walk_lem : walk dropped limit ss (suc (length ss)) none [] ≡ some ss
  unfolding page_spans
  walk_lem =
      walk_up_to (suc (length ss)) (length ss) [] none (omega arith) (omega arith) (
        ap some (
          last_n-drop next last high limit ss positive
          ∙ ap (drop (length ss - limit)) (sym (take_all (length ss) ss (omega arith)))))
      ∙ ap some (append-nil (take (length ss) ss) ∙ take_all (length ss) ss (omega arith))
