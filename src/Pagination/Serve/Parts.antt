-- ===== src/Pagination/Serve/Parts.antt =====
-- A page of messages stands in the spans of its index (go-bridge/pagination.go).
use mathlib.Core.Path.{subst}
use mathlib.Core.List.{append_assoc}
use cccode_macbridge.Base.{
  ℕ, zero, suc, ◌-◌, ◌<◌, ◌≡◌, refl, sym, ap, ◌∙◌, Option, none, some, List, [], ◌∷◌, ◌++◌, arith,
  length, take, drop, get_elem?, take-append-drop, take_all,
}
use cccode_macbridge.Transcript.{LogicalMessageSpan}
use cccode_macbridge.Transcript.Spans.{Ordered}
use cccode_macbridge.Transcript.Pages.{page_spans, page_limit, last_n}
use cccode_macbridge.Transcript.Pages.Reference.{smaller, page_before-take, last_n-drop}

abbrev pub first_ordinal : List LogicalMessageSpan → ℕ
first_ordinal [] = 0
first_ordinal (s ∷ ss) = s.ordinal

pub elem_drop :
    (k : ℕ) (ss : List LogicalMessageSpan)
    → k < length ss
    → (b : LogicalMessageSpan) × (get_elem? ss k ≡ some b) × (first_ordinal (drop k ss) ≡ b.ordinal)
elem_drop k [] h = absurd (omega arith)
elem_drop zero (s ∷ ss) h = (s, refl, refl)
elem_drop (suc k) (s ∷ ss) h = elem_drop k ss (omega arith)

-- A page stands in the spans.
abbrev pub IsPartOf : List LogicalMessageSpan → List LogicalMessageSpan → Type 0
IsPartOf page all =
    (xs : List LogicalMessageSpan) × (ys : List LogicalMessageSpan) × (all ≡ xs ++ (page ++ ys))

slice-IsPartOf : (a b : ℕ) (ss : List LogicalMessageSpan) → IsPartOf (drop a (take b ss)) ss
slice-IsPartOf a b ss = (
  take a (take b ss),
  drop b ss,
  sym (
      sym (append_assoc (take a (take b ss)) (drop a (take b ss)) (drop b ss))
      ∙ ap (λ us. us ++ drop b ss) (take-append-drop a (take b ss))
      ∙ take-append-drop b ss),
)

pub page_spans-IsPartOf :
    (ss : List LogicalMessageSpan) (cursor : Option ℕ) (limit next last high : ℕ)
    → Ordered 0 0 ss next last high
    → 0 < limit
    → (page : List LogicalMessageSpan) × (page_spans ss cursor limit ≡ some page) × IsPartOf page ss
unfolding page_spans
page_spans-IsPartOf ss none limit next last high o h =
    let a = length ss - limit in
    let whole : drop a (take (length ss) ss) ≡ last_n ss limit =
      ap (drop a) (take_all (length ss) ss (omega arith))
      ∙ sym (last_n-drop next last high limit ss h) in
    (
      last_n ss limit,
      refl,
      subst (λ page. IsPartOf page ss) whole (slice-IsPartOf a (length ss) ss),
    )
page_spans-IsPartOf ss (some before) limit next last high o h =
    let b = smaller before (length ss) in
    (
      drop (b - limit) (take b ss),
      page_before-take next last high before limit ss o h,
      slice-IsPartOf (b - limit) b ss,
    )

pub page_limit-pos : (requested : ℕ) → 0 < page_limit requested
unfolding page_limit
page_limit-pos requested = ground arith
