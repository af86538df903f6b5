-- ===== src/Transcript/Pages/Search.antt =====
-- The binary search of transcriptindex/index.go finds the split of its test.
use cccode_macbridge.Base.{
  ℕ, zero, suc, ◌+◌, ◌/◌, ◌≤◌, ◌<◌, ◌≡◌, Bool, true, false, inl, inr, some, arith, ltb, Bool-cases,
}
use cccode_macbridge.Transcript.Pages.{search}

module _ (f : ℕ → Bool) (split : ℕ) where
  -- The test fails below the split and holds from it on, below `n`.
  abbrev pub Splits : ℕ → Type 0
  Splits n = ((h : ℕ) → h < split → f h ≡ false) × ((h : ℕ) → split ≤ h → h < n → f h ≡ true)

  pub search_lem :
      (fuel i j n : ℕ)
      → Splits n
      → i ≤ split
      → split ≤ j
      → j ≤ n
      → j ≤ i + fuel
      → search fuel f i j ≡ some split
  unfolding search
  search_lem zero i j n s a b c d = ground arith
  search_lem (suc fuel) i j n s a b c d = elim (Bool-cases (ltb i j)) [
    | inr done ↦ rw (done, search) (ground arith)
    | inl more ↦ elim (Bool-cases (f ((i + j) / 2))) [
      | inr low ↦
          rw (more, search, low)
            (search_lem fuel ((i + j) / 2 + 1) j n s (ground (arith, s.1 ((i + j) / 2))) b c
              (ground arith))
      | inl high ↦
          rw (more, search, high)
            (search_lem fuel i ((i + j) / 2) n s a (ground (arith, s.0 ((i + j) / 2)))
              (ground arith) (ground arith))
    ]
  ]
