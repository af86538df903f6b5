-- ===== src/Transcript/Pages.antt =====
-- Pages of spans: LastN and PageBefore of transcriptindex/index.go, and how servePaginatedMessages
-- of go-bridge/pagination.go walks back over them.
pub mod Search
pub mod Reference
pub mod Walk
use cccode_macbridge.Base.{
  ℕ, zero, suc, ◌+◌, ◌-◌, ◌/◌, Bool, true, false, ◌||◌, Option, none, some, List, [], ◌∷◌, ◌++◌,
  ltb, leb, if◌then◌else◌, length, take, drop, get_elem?,
}
use cccode_macbridge.Transcript.{LogicalMessageSpan}

unfoldable pub last_n : List LogicalMessageSpan → ℕ → List LogicalMessageSpan
last_n spans n =
    if leb n 0 || leb (length spans) 0
    then []
    else (if ltb (length spans) n then spans else drop (length spans - n) spans)

-- sort.Search(n, f) between `i` and `j`; nothing where the fuel runs out.
unfoldable pub search : ℕ → (ℕ → Bool) → ℕ → ℕ → Option ℕ
search zero f i j = if ltb i j then none else some i
search (suc fuel) f i j = elim (ltb i j) [
  | false ↦ some i
  | true ↦ elim (f ((i + j) / 2)) [
    | false ↦ search fuel f ((i + j) / 2 + 1) j
    | true ↦ search fuel f i ((i + j) / 2)
  ]
]

-- spans[i].Ordinal >= beforeOrdinal; no index is out of range.
abbrev pub reaches : ℕ → Option LogicalMessageSpan → Bool
reaches before none = true
reaches before (some s) = leb before s.ordinal

-- spans[start:end]
abbrev pub slice_of : List LogicalMessageSpan → ℕ → ℕ → List LogicalMessageSpan
slice_of spans start end = if leb end start then [] else take (end - start) (drop start spans)

unfoldable pub page_up_to :
    List LogicalMessageSpan → ℕ → Option ℕ → Option (List LogicalMessageSpan)
page_up_to spans count none = none
page_up_to spans count (some end) = some (slice_of spans (end - count) end)

-- `PageBefore`; the length of the spans is fuel enough for the search.
unfoldable pub page_before : List LogicalMessageSpan → ℕ → ℕ → Option (List LogicalMessageSpan)
unfolding search page_up_to
page_before spans before count =
    if leb count 0 || leb (length spans) 0
    then some []
    else (page_up_to spans count
        (search (length spans) (λ i. reaches before (get_elem? spans i)) 0 (length spans)))

-- The spans of a page: the newest without a cursor, those before its ordinal with one.
unfoldable pub page_spans :
    List LogicalMessageSpan → Option ℕ → ℕ → Option (List LogicalMessageSpan)
unfolding last_n page_before
page_spans spans none limit = some (last_n spans limit)
page_spans spans (some before) limit = page_before spans before limit

abbrev pub default_page_size : ℕ
default_page_size = 50

abbrev pub max_page_size : ℕ
max_page_size = 200

-- A request below 0 is 0 here.
unfoldable pub page_limit : ℕ → ℕ
page_limit requested =
    if leb requested 0
    then default_page_size
    else (if ltb max_page_size requested then max_page_size else requested)

-- A client that asks for page after page, with the oldest cursor of the one before, until a page
-- says that there is no more. `dropped` is the number of oldest messages that trimWireToBudget
-- leaves out of a page; the cursor is the ordinal of the first message kept. The client is the code's
-- environment: its loop describes how the handler is used, and is no part of pagination.go.
module _ (dropped : List LogicalMessageSpan → ℕ) (limit : ℕ) (spans : List LogicalMessageSpan) where
  abbrev pub kept : List LogicalMessageSpan → List LogicalMessageSpan
  kept page = drop (dropped page) page

  unfoldable pub walk : ℕ → Option ℕ → List LogicalMessageSpan → Option (List LogicalMessageSpan)
  unfolding page_spans
  walk zero cursor shown = none
  walk (suc fuel) cursor shown = elim (page_spans spans cursor limit) [
    | none ↦ none
    | some page ↦ elim (kept page) [
      | [] ↦ some shown
      | s ∷ ss ↦ elim (ltb 0 s.ordinal) [
        | false ↦ some ((s ∷ ss) ++ shown)
        | true ↦ walk fuel (some s.ordinal) ((s ∷ ss) ++ shown)
      ]
    ]
  ]
