-- ===== src/Transcript/Index/Continues.antt =====
-- An index as Build and the end of Refresh leave it (transcriptindex/index.go).
use cccode_macbridge.Base.{
  true, [], ◌∷◌, ℕ, ◌≡◌, ◌≢◌, refl, ap, ◌⊎◌, inl, inr, String, false, Option, some, List, length,
}
use cccode_macbridge.Transcript.{LogicalMessageSpan}
use cccode_macbridge.Transcript.Codex.{Envelope}
use cccode_macbridge.Transcript.Claude.{ClaudeLine}
use cccode_macbridge.Transcript.Lineage.{
  PageIndex, finalize_new_lineage, append_child_generation, is_in, ids, is_cursor_stale,
}
use cccode_macbridge.Transcript.Lineage.{validate_lineage}
use cccode_macbridge.Transcript.Lineage.Stale.{IsChain-validate_lineage}
use cccode_macbridge.Transcript.Lineage.Chain.{
  IsLineage, finalize_new_lineage-IsLineage, append_child_generation-IsLineage,
}
use cccode_macbridge.Transcript.Refresh.{SpanExtractor}
use cccode_macbridge.Transcript.Refresh.Tail.{Refreshed, refresh_spans_misplaced}
use cccode_macbridge.Transcript.Index.{
  File, extractor_revision, new_extractor, build_with, build, first_index, grown_index, replayed,
  extend_index,
}
use cccode_macbridge.Transcript.Index.Anchored.{
  IsCurrent, finalize_new_lineage-IsCurrent, append_child_generation-IsCurrent, append_child_keeps,
}
use cccode_macbridge.Transcript.Spans.{Ordered}

module _ (unmarshal_codex : List ℕ → Option Envelope)
    (unmarshal_claude : List ℕ → Option ClaudeLine) (checksum : List ℕ → String) where
  abbrev pub Known : String → Type 0
  Known backend = (backend ≡ "codex") ⊎ (backend ≡ "claude")

  pub new_extractor-Known :
      (backend : String)
      → Known backend
      → (x : SpanExtractor) × (new_extractor unmarshal_codex unmarshal_claude checksum backend
          ≡ some x)
  unfolding new_extractor
  new_extractor-Known backend (inl e) = rw e (_, refl)
  new_extractor-Known backend (inr e) = rw e (_, refl)

  -- An index as Build leaves it, and Refresh over it for a file that grows.
  pub record IsIndexOf (backend : String) (f : File) (idx : PageIndex) : Type 0 where
    pub lineage : IsLineage idx
    pub valid : validate_lineage idx.generation_lineage ≡ true
    pub current : IsCurrent checksum f.text idx
    pub same_backend : idx.backend ≡ backend
    pub revision : idx.extractor_revision ≡ extractor_revision backend
    pub device : idx.file_device ≡ f.device
    pub inode : idx.file_inode ≡ f.inode

  pub build_lem :
      (backend path gen_id : String) (f : File)
      → Known backend
      → gen_id ≢ ""
      → (idx : PageIndex) × (build unmarshal_codex unmarshal_claude checksum backend path f gen_id
          ≡ some idx)
        × IsIndexOf backend f idx
        × (ids idx.generation_lineage ≡ gen_id ∷ [])
        × ((n : ℕ) × Ordered 0 0 idx.spans n (length f.text) (length f.text))
  unfolding build build_with finalize_new_lineage
  build_lem backend path gen_id f known named =
      let (x, e) = new_extractor-Known backend known in
      let first = first_index unmarshal_codex unmarshal_claude checksum x backend path f in
      let lineage = finalize_new_lineage-IsLineage checksum f.text gen_id first named in
      (
        finalize_new_lineage checksum f.text gen_id first,
        ap (λ o. build_with unmarshal_codex unmarshal_claude checksum o backend path f gen_id) e,
        record {
          lineage = lineage;
          valid =
              IsChain-validate_lineage
                (finalize_new_lineage checksum f.text gen_id first).generation_lineage lineage.chain
                lineage.present;
          current = finalize_new_lineage-IsCurrent checksum f.text gen_id first refl;
          same_backend = refl;
          revision = refl;
          device = refl;
          inode = refl;
        },
        refl,
        x.in_order f.text,
      )

  -- The spans after a refresh, by the extractor of the backend.
  abbrev pub Extracted : String → File → List LogicalMessageSpan → List LogicalMessageSpan → Type 0
  Extracted backend f before after =
      (x : SpanExtractor) × (new_extractor unmarshal_codex unmarshal_claude checksum backend
        ≡ some x)
      × Refreshed x f.text before after

  pub extend_index_lem :
      (backend gen_id : String) (f g : File) (idx : PageIndex) (n : ℕ)
      → Known backend
      → IsIndexOf backend f idx
      → Ordered 0 0 idx.spans n (length f.text) (length f.text)
      → gen_id ≢ ""
      → is_in gen_id (ids idx.generation_lineage) ≡ false
      → (new : PageIndex) × (extend_index unmarshal_codex unmarshal_claude checksum
            (new_extractor unmarshal_codex unmarshal_claude checksum idx.backend)
            idx
            g
            gen_id
          ≡ some new)
        × IsIndexOf backend g new
        × (is_cursor_stale new idx.prefix_generation ≡ false)
        × Extracted backend g idx.spans new.spans
  unfolding extend_index replayed append_child_generation
  extend_index_lem backend gen_id f g idx n known v o named fresh =
      let (x, e) = new_extractor-Known backend known in
      let (spans, result, refreshed, _, _) =
        refresh_spans_misplaced x g.text n (length f.text) (length f.text) idx.spans o in
      let grown = grown_index unmarshal_codex unmarshal_claude checksum spans idx g in
      let new = append_child_generation checksum g.text gen_id idx (length g.text) grown in
      let lineage =
        append_child_generation-IsLineage checksum g.text gen_id idx (length g.text) grown v.lineage
          named fresh in
      (
        new,
        rw (v.same_backend, e, result) refl,
        record {
          lineage = lineage;
          valid = IsChain-validate_lineage new.generation_lineage lineage.chain lineage.present;
          current = append_child_generation-IsCurrent checksum g.text gen_id idx grown refl;
          same_backend = v.same_backend;
          revision = v.revision;
          device = refl;
          inode = refl;
        },
        append_child_keeps checksum idx grown gen_id (length g.text) g.text v.lineage,
        (x, e, refreshed),
      )
