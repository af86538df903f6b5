-- ===== src/Pagination/Trim.antt =====
-- trimWireToBudget of go-bridge/pagination.go. The length of the encoded messages and what
-- compactDuplicateMessageFields makes of a message are arguments.
pub mod Budget
use cccode_macbridge.Base.{ℕ, Bool, List, [], ◌∷◌, map, ltb, leb, if◌then◌else◌}

-- 256 << 10
abbrev pub max_page_response_bytes : ℕ
max_page_response_bytes = 262144

module _ {ℓ} {A : Type ℓ} (json_length : List A → ℕ) (compact : A → A) where
  -- The loop: a page of one message is not encoded again.
  unfoldable pub drop_oldest : List A → List A
  drop_oldest [] = []
  drop_oldest (m ∷ []) = m ∷ []
  drop_oldest (m ∷ n ∷ ms) =
      let rest = drop_oldest (n ∷ ms) in
      if leb (json_length (m ∷ n ∷ ms)) max_page_response_bytes then m ∷ n ∷ ms else rest

  unfoldable pub compact_over : List A → List A
  compact_over wire =
      if ltb max_page_response_bytes (json_length wire) then map compact wire else wire

  unfoldable pub trim_wire_to_budget : List A → List A
  unfolding compact_over drop_oldest
  trim_wire_to_budget wire = drop_oldest (compact_over wire)
