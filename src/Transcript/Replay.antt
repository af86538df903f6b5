-- ===== src/Transcript/Replay.antt =====
-- Replay of transcriptindex/index.go: the contents of a page. The replayer, which reads a byte range
-- and builds the messages in it, is an argument.
pub mod Start
pub mod Inside
pub mod Content
use cccode_macbridge.Base.{
  ℕ, ◌+◌, Bool, true, false, ◌||◌, ◌⊎◌, inl, inr, Option, none, some, List, [], ◌∷◌, ◌==◌,
  if◌then◌else◌, length,
}
use cccode_macbridge.Transcript.{LogicalMessageSpan, ByteRange}
use cccode_macbridge.Transcript.Union.{span_byte_union}

-- spanAtOffset
unfoldable pub span_at_offset : List LogicalMessageSpan → ℕ → Option LogicalMessageSpan
span_at_offset [] off = none
span_at_offset (s ∷ ss) off =
    let rest = span_at_offset ss off in if s.replay_start == off then some s else rest

-- want[ordinal]
abbrev pub is_wanted : ℕ → List LogicalMessageSpan → Bool
is_wanted n [] = false
is_wanted n (s ∷ ss) = (s.ordinal == n) || is_wanted n ss

-- `unending` is for a byte range that never rests.
pub data ReplayError : Type 0 where
  no_replayer read_failed not_a_boundary mismatched unending : ReplayError

module _ {ℓ} {Entry : Type ℓ} where
  -- The loop over the entries, of which the first has the ordinal `n`.
  unfoldable pub select : ℕ → List LogicalMessageSpan → List Entry → List Entry
  select n page [] = []
  select n page (e ∷ es) =
      let rest = select (n + 1) page es in if is_wanted n page then e ∷ rest else rest

  unfoldable pub check_count : List LogicalMessageSpan → List Entry → ReplayError ⊎ List Entry
  check_count page out = if length out == length page then inr out else inl mismatched

  unfoldable pub replay_from :
      List LogicalMessageSpan → List Entry → Option LogicalMessageSpan → ReplayError ⊎ List Entry
  unfolding check_count select
  replay_from page entries none = inl not_a_boundary
  replay_from page entries (some first) = check_count page (select first.ordinal page entries)

  unfoldable pub replay_entries :
      List LogicalMessageSpan
      → List LogicalMessageSpan
      → ℕ
      → Option (List Entry)
      → ReplayError ⊎ List Entry
  unfolding replay_from span_at_offset
  replay_entries spans page start none = inl read_failed
  replay_entries spans page start (some entries) =
      replay_from page entries (span_at_offset spans start)

  unfoldable pub replay_range :
      (ByteRange → Option (List Entry))
      → List LogicalMessageSpan
      → List LogicalMessageSpan
      → Option ByteRange
      → ReplayError ⊎ List Entry
  unfolding replay_entries
  replay_range replayer spans page none = inl unending
  replay_range replayer spans page (some union) =
      replay_entries spans page union.start (replayer union)

  unfoldable pub replay :
      Option (ByteRange → Option (List Entry))
      → List LogicalMessageSpan
      → List LogicalMessageSpan
      → ReplayError ⊎ List Entry
  unfolding replay_range span_byte_union
  replay none spans page = inl no_replayer
  replay (some replayer) spans [] = inr []
  replay (some replayer) spans (s ∷ ss) =
      replay_range replayer spans (s ∷ ss) (span_byte_union spans (s ∷ ss))
