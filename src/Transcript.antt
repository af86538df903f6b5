-- ===== src/Transcript.antt =====
-- transcriptindex/: the index of a transcript file, which locates its logical messages.
-- Offsets and ordinals are int64 in the source and never negative.
pub mod Scan
pub mod Spans
pub mod Codex
pub mod Claude
pub mod Pages
pub mod Union
pub mod Refresh
pub mod Lineage
pub mod Cursor
pub mod Replay
pub mod Index
mod Tests
use cccode_macbridge.Base.{ℕ, ◌+◌, ◌≤◌, ◌<◌, ◌≡◌, String, List, [], ◌∷◌}

pub record LogicalMessageSpan : Type 0 where
  pub ordinal : ℕ
  pub stable_id : String
  pub replay_start : ℕ
  pub end_offset : ℕ
  pub open_tool_uses : ℕ

pub record ByteRange : Type 0 where
  pub start : ℕ
  pub end : ℕ
