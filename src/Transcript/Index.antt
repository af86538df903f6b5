-- ===== src/Transcript/Index.antt =====
-- Build, Refresh and Replay of transcriptindex/index.go. A file is its bytes and what stat says of
-- it; the errors of opening and reading it are left out. What json.Unmarshal makes of a line, the
-- checksum and the random identifiers of generations are arguments.
pub mod Anchored
pub mod Continues
pub mod Grown
use cccode_macbridge.Base.{
  ℕ, zero, suc, ◌+◌, String, Bool, true, false, not, ◌&&◌, ◌||◌, Option, none, some, List, [], ◌∷◌,
  ◌++◌, ltb, leb, ◌==◌, if◌then◌else◌, str_eq, length, keep,
}
use cccode_macbridge.Transcript.{LogicalMessageSpan, ByteRange}
use cccode_macbridge.Transcript.Codex.{Envelope}
use cccode_macbridge.Transcript.Claude.{ClaudeLine}
use cccode_macbridge.Transcript.Lineage.{
  PageIndex, Fingerprint, finalize_new_lineage, append_child_generation, verify_anchor_at,
}
use cccode_macbridge.Transcript.Refresh.{
  SpanExtractor, codex_extractor, claude_extractor, refresh_spans,
}
use cccode_macbridge.Transcript.Union.{span_byte_union}

-- A file when it is read, with what os.FileInfo says of it. The size is that of the bytes.
pub record File : Type 0 where
  pub text : List ℕ
  pub mod_time : ℕ
  pub device : ℕ
  pub inode : ℕ

abbrev pub file_fingerprint : File → Fingerprint
file_fingerprint f = record { size_bytes = length f.text; mod_time_unix_nano = f.mod_time }

-- Fingerprint.Equal
unfoldable pub is_same_fingerprint : Fingerprint → Fingerprint → Bool
is_same_fingerprint f o =
    (f.size_bytes == o.size_bytes) && (f.mod_time_unix_nano == o.mod_time_unix_nano)

abbrev pub index_version : ℕ
index_version = 1

unfoldable pub extractor_revision : String → String
extractor_revision backend =
    if str_eq backend "codex"
    then "codex-v2"
    else (if str_eq backend "claude" then "claude-v1" else "")

unfoldable pub same_identity : PageIndex → File → Bool
same_identity idx f =
    if (idx.file_device == 0) && (idx.file_inode == 0)
    then true
    else ((f.device == idx.file_device) && (f.inode == idx.file_inode))

module _ (unmarshal_codex : List ℕ → Option Envelope)
    (unmarshal_claude : List ℕ → Option ClaudeLine) (checksum : List ℕ → String) where
  unfoldable pub new_extractor : String → Option SpanExtractor
  new_extractor backend =
      if str_eq backend "codex"
      then some (codex_extractor unmarshal_codex)
      else (if str_eq backend "claude" then some (claude_extractor unmarshal_claude) else none)

  abbrev pub first_index : SpanExtractor → String → String → File → PageIndex
  first_index x backend path f = record {
    version = index_version;
    backend = backend;
    extractor_revision = extractor_revision backend;
    file_path = path;
    fingerprint = file_fingerprint f;
    anchor = record { algo = ""; window = 0 };
    parse_offset = length f.text;
    prefix_generation = "";
    generation_lineage = [];
    spans = x.spans_of f.text;
    file_device = f.device;
    file_inode = f.inode;
  }

  unfoldable pub build_with :
      Option SpanExtractor → String → String → File → String → Option PageIndex
  unfolding finalize_new_lineage
  build_with none backend path f gen_id = none
  build_with (some x) backend path f gen_id =
      some (finalize_new_lineage checksum f.text gen_id (first_index x backend path f))

  -- `Build`, with the new identifier of the generation; nothing for an unknown backend.
  unfoldable pub build : String → String → File → String → Option PageIndex
  unfolding build_with new_extractor
  build backend path f gen_id = build_with (new_extractor backend) backend path f gen_id

  abbrev pub grown_index : List LogicalMessageSpan → PageIndex → File → PageIndex
  grown_index spans idx f = record idx {
    fingerprint = file_fingerprint f;
    parse_offset = length f.text;
    file_device = f.device;
    file_inode = f.inode;
    spans = spans;
  }

  unfoldable pub replayed :
      Option (List LogicalMessageSpan) → PageIndex → File → String → Option PageIndex
  unfolding append_child_generation
  replayed none idx f gen_id = none
  replayed (some spans) idx f gen_id =
      some (
        append_child_generation checksum f.text gen_id idx (length f.text)
          (grown_index spans idx f))

  -- The end of Refresh, from the computation of the replay start on.
  unfoldable pub extend_index : Option SpanExtractor → PageIndex → File → String → Option PageIndex
  unfolding replayed refresh_spans
  extend_index none idx f gen_id = none
  extend_index (some x) idx f gen_id = replayed (refresh_spans x idx.spans f.text) idx f gen_id

  -- Whether the file only grew since the index was made.
  unfoldable pub is_continued : PageIndex → File → Bool
  unfolding extractor_revision same_identity verify_anchor_at
  is_continued idx f =
      str_eq idx.extractor_revision (extractor_revision idx.backend)
      && (same_identity idx f
          && (not (ltb (length f.text) idx.parse_offset) && verify_anchor_at checksum f.text idx))

  unfoldable pub refresh : PageIndex → File → String → Option PageIndex
  unfolding extractor_revision same_identity is_same_fingerprint verify_anchor_at build extend_index
      new_extractor
  refresh idx f gen_id =
      if not (str_eq idx.extractor_revision (extractor_revision idx.backend))
      then build idx.backend idx.file_path f gen_id
      else if not (same_identity idx f)
      then build idx.backend idx.file_path f gen_id
      else if ltb (length f.text) idx.parse_offset
      then build idx.backend idx.file_path f gen_id
      else if (length f.text == idx.parse_offset)
          && is_same_fingerprint (file_fingerprint f) idx.fingerprint
      then some idx
      else if not (verify_anchor_at checksum f.text idx)
      then build idx.backend idx.file_path f gen_id
      else extend_index (new_extractor idx.backend) idx f gen_id
