-- ===== src/Pagination/Trim/Budget.antt =====
-- What trimWireToBudget leaves of a page (go-bridge/pagination.go).
use cccode_macbridge.Base.{
  ap, ◌∙◌, ℕ, zero, suc, ◌≤◌, ◌<◌, ◌≡◌, refl, ◌⊎◌, inl, inr, List, [], ◌∷◌, map, arith, ltb, leb,
  length, drop, length-drop, Bool-cases, leb→le, lt_of_leb,
}
use cccode_macbridge.Pagination.Trim.{
  max_page_response_bytes, drop_oldest, compact_over, trim_wire_to_budget,
}

length-map {ℓ} : {A : Type ℓ} (f : A → A) (xs : List A) → length (map f xs) ≡ length xs
length-map f [] = refl
length-map f (x ∷ xs) = omega (arith, length-map f xs)

module _ {ℓ} {A : Type ℓ} (json_length : List A → ℕ) (compact : A → A) where
  -- The messages are over the budget, and so they are with any of the first n dropped but not all n.
  abbrev pub AllOver : ℕ → List A → Type 0
  AllOver zero ms = Unit
  AllOver (suc n) ms = (max_page_response_bytes < json_length ms) × AllOver n (drop 1 ms)

  record Dropped (wire : List A) : Type ℓ where
    number : ℕ
    result : drop_oldest json_length compact wire ≡ drop number wire
    one_left : 0 < length wire → number < length wire
    fits :
        (length (drop number wire) ≤ 1) ⊎ (json_length (drop number wire) ≤ max_page_response_bytes)
    needed : AllOver number wire

  drop_oldest_lem : (wire : List A) → Dropped wire
  unfolding drop_oldest
  drop_oldest_lem [] = record {
    number = 0;
    result = refl;
    one_left = λ h. h;
    fits = inl (omega arith);
    needed = tt;
  }
  drop_oldest_lem (m ∷ []) = record {
    number = 0;
    result = refl;
    one_left = λ h. h;
    fits = inl (omega arith);
    needed = tt;
  }
  drop_oldest_lem (m ∷ n ∷ ms) =
      elim (Bool-cases (leb (json_length (m ∷ n ∷ ms)) max_page_response_bytes)) [
        | inl e ↦ record {
          number = 0;
          result = rw e refl;
          one_left = λ h. h;
          fits = inr (leb→le (json_length (m ∷ n ∷ ms)) max_page_response_bytes e);
          needed = tt;
        }
        | inr e ↦
            let v = drop_oldest_lem (n ∷ ms) in
            let left : v.number < length (n ∷ ms) = v.one_left (omega arith) in
            record {
              number = suc v.number;
              result = rw e v.result;
              one_left = λ h. omega (arith, left);
              fits = v.fits;
              needed = (lt_of_leb (json_length (m ∷ n ∷ ms)) max_page_response_bytes e, v.needed);
            }
      ]

  length-compact_over :
      (wire : List A) → length (compact_over json_length compact wire) ≡ length wire
  unfolding compact_over
  length-compact_over wire = elim (Bool-cases (ltb max_page_response_bytes (json_length wire))) [
    | inl e ↦ rw e (length-map compact wire)
    | inr e ↦ rw e refl
  ]

  -- What the messages are before any is dropped: as they were when all of them are within the
  -- budget, and each compacted otherwise.
  abbrev pub Compacted : List A → List A → Type ℓ
  Compacted wire small =
      ((json_length wire ≤ max_page_response_bytes) × (small ≡ wire))
      ⊎ ((max_page_response_bytes < json_length wire) × (small ≡ map compact wire))

  compact_over-Compacted : (wire : List A) → Compacted wire (compact_over json_length compact wire)
  unfolding compact_over
  compact_over-Compacted wire = elim (Bool-cases (ltb max_page_response_bytes (json_length wire))) [
    | inl e ↦ inr (ground (arith, e), rw e refl)
    | inr e ↦ inl (ground (arith, e), rw e refl)
  ]

  -- The messages are each compacted when all of them are over the budget, and left alone otherwise.
  -- Then a number of the oldest ones is dropped, never all; what is left is one message at most or
  -- within the budget; and with fewer dropped it would be over the budget.
  pub trim_wire_to_budget_lem :
      (wire : List A)
      → (small : List A) × (number : ℕ) × Compacted wire small
        × (trim_wire_to_budget json_length compact wire ≡ drop number small)
        × ((length wire ≡ 0) ⊎ (number < length wire))
        × ((length (trim_wire_to_budget json_length compact wire) ≤ 1)
            ⊎ (json_length (trim_wire_to_budget json_length compact wire)
                ≤ max_page_response_bytes))
        × AllOver number small
  unfolding trim_wire_to_budget
  trim_wire_to_budget_lem wire =
      let v = drop_oldest_lem (compact_over json_length compact wire) in
      let same = length-compact_over wire in
      (
        compact_over json_length compact wire,
        v.number,
        compact_over-Compacted wire,
        v.result,
        elim (Bool-cases (leb (length wire) 0)) [
          | inl e ↦ inl (omega (arith, leb→le (length wire) 0 e))
          | inr e ↦
              let some_left : 0 < length (compact_over json_length compact wire) =
                omega (arith, same, lt_of_leb (length wire) 0 e) in
              inr (omega (arith, same, v.one_left some_left))
        ],
        rw v.result v.fits,
        v.needed,
      )

  pub length-Compacted : (wire small : List A) → Compacted wire small → length small ≡ length wire
  length-Compacted wire small (inl (h, e)) = ap (length {A = A}) e
  length-Compacted wire small (inr (h, e)) = ap (length {A = A}) e ∙ length-map compact wire

  pub length-trim_wire_to_budget-pos :
      (wire : List A) → 0 < length wire → 0 < length (trim_wire_to_budget json_length compact wire)
  length-trim_wire_to_budget-pos wire h =
      let (small, number, same, e, left, _, _) = trim_wire_to_budget_lem wire in
      let less : number < length wire = elim left [
        | inl none_left ↦ omega (arith, none_left, h)
        | inr l ↦ l
      ] in
      rw e (omega (arith, less, length-Compacted wire small same, length-drop number small))

  pub length-trim_wire_to_budget-le :
      (wire : List A) → length (trim_wire_to_budget json_length compact wire) ≤ length wire
  length-trim_wire_to_budget-le wire =
      let (small, number, same, e, _, _, _) = trim_wire_to_budget_lem wire in
      rw e (omega (arith, length-Compacted wire small same, length-drop number small))

  pub trim_wire_to_budget-nil : trim_wire_to_budget json_length compact [] ≡ []
  unfolding trim_wire_to_budget compact_over drop_oldest
  trim_wire_to_budget-nil = elim (Bool-cases (ltb max_page_response_bytes (json_length []))) [
    | inl e ↦ rw e refl
    | inr e ↦ rw e refl
  ]
