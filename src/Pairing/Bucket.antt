-- ===== src/Pairing/Bucket.antt =====
-- `slidingBucket` of go-bridge/pairing_hardening.go: a limit on the events of a sliding window.
-- Times and windows are nanoseconds; the stamps are held in the order in which they were made.
pub mod Window
use cccode_macbridge.Base.{
  ℕ, ◌+◌, ◌-◌, ◌≤◌, ◌<◌, ◌≡◌, Bool, true, false, List, [], ◌∷◌, ◌++◌, ltb, leb, if◌then◌else◌,
  length, keep,
}

pub record SlidingBucket : Type 0 where
  pub window : ℕ
  pub limit : ℕ
  pub counts : List ℕ

-- s.at.After(now.Add(-window)), for a cutoff that may lie before the zero time.
abbrev pub is_fresh : ℕ → ℕ → ℕ → Bool
is_fresh now window at = ltb now (at + window)

abbrev pub fresh : SlidingBucket → ℕ → List ℕ
fresh b now = keep (is_fresh now b.window) b.counts

unfoldable pub allow : SlidingBucket → ℕ → SlidingBucket × Bool × ℕ
allow b now =
    if leb b.limit (length (fresh b now)) then (record b { counts = fresh b now }, false, 0) else (
      record b { counts = fresh b now ++ (now ∷ []) },
      true,
      b.limit - length (fresh b now ++ (now ∷ [])),
    )
