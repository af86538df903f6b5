-- ===== src/Transcript/Index/Grown.antt =====
-- What Refresh does to a file that grew, and to one that was replaced (transcriptindex/index.go).
use mathlib.Core.Path.{subst}
use mathlib.Core.List.{append-nil}
use cccode_macbridge.Base.{
  ℕ, ◌≡◌, ◌≢◌, ◌⊎◌, refl, sym, ap, ◌∙◌, inl, inr, String, Bool, true, false, ◌&&◌, Option, some,
  List, [], ◌∷◌, ◌++◌, arith, ltb, ◌==◌, str_eq, eq_iff, length, length-append, Bool-cases,
}
use cccode_macbridge.Base.Dict.{ne_of_not-eq}
use cccode_macbridge.Transcript.Codex.{Envelope}
use cccode_macbridge.Transcript.Claude.{ClaudeLine}
use cccode_macbridge.Transcript.Lineage.{PageIndex, verify_anchor_at, is_in, ids, is_cursor_stale}
use cccode_macbridge.Transcript.Index.{
  File, file_fingerprint, is_same_fingerprint, extractor_revision, same_identity, build,
  is_continued, refresh,
}
use cccode_macbridge.Transcript.Index.Anchored.{IsCurrent, verify_anchor_at-append, current_keeps}
use cccode_macbridge.Transcript.Index.Continues.{
  Known, IsIndexOf, Extracted, build_lem, extend_index_lem,
}
use cccode_macbridge.Transcript.Spans.{Ordered}

append_nothing : (xs ys : List ℕ) → length (xs ++ ys) ≡ length xs → xs ++ ys ≡ xs
append_nothing xs [] h = append-nil xs
append_nothing xs (y ∷ ys) h = absurd (omega (arith, length-append xs (y ∷ ys)))

same_length : (m n : ℕ) (b : Bool) → ((m == n) && b) ≡ true → m ≡ n
same_length m n b h = ground arith

module _ (unmarshal_codex : List ℕ → Option Envelope)
    (unmarshal_claude : List ℕ → Option ClaudeLine) (checksum : List ℕ → String) where
  same_identity-true :
      (idx : PageIndex) (g : File)
      → idx.file_device ≡ g.device
      → idx.file_inode ≡ g.inode
      → same_identity idx g ≡ true
  unfolding same_identity
  same_identity-true idx g d i = ground (arith, d, i)

  -- An index of a file, with its spans in order, is refreshed after more bytes were appended to that
  -- file: it gets a valid lineage, and the length, anchor and identity of the grown file, and the
  -- cursors of the generation before are not stale. The index is as it was, which only happens when
  -- no byte was appended, or its spans are the complete ones before a replay start, followed by
  -- those that the extractor finds in the bytes from there on, with ordinals that count from 0.
  pub refresh_grown :
      (backend gen_id : String) (f g : File) (tail : List ℕ) (idx : PageIndex) (n : ℕ)
      → Known unmarshal_codex unmarshal_claude checksum backend
      → IsIndexOf unmarshal_codex unmarshal_claude checksum backend f idx
      → Ordered 0 0 idx.spans n (length f.text) (length f.text)
      → g.text ≡ f.text ++ tail
      → g.device ≡ f.device
      → g.inode ≡ f.inode
      → gen_id ≢ ""
      → is_in gen_id (ids idx.generation_lineage) ≡ false
      → (new : PageIndex) × (refresh unmarshal_codex unmarshal_claude checksum idx g gen_id
          ≡ some new)
        × IsIndexOf unmarshal_codex unmarshal_claude checksum backend g new
        × (is_cursor_stale new idx.prefix_generation ≡ false)
        × (((new ≡ idx) × (g.text ≡ f.text))
            ⊎ Extracted unmarshal_codex unmarshal_claude checksum backend g idx.spans new.spans)
  unfolding refresh
  refresh_grown backend gen_id f g tail idx n known v o grown d i named fresh =
      let revision : str_eq idx.extractor_revision (extractor_revision idx.backend) ≡ true =
        (eq_iff idx.extractor_revision (extractor_revision idx.backend)).1
          (v.revision ∙ ap extractor_revision (sym v.same_backend)) in
      let same = same_identity-true idx g (v.device ∙ sym d) (v.inode ∙ sym i) in
      let longer : ltb (length g.text) idx.parse_offset ≡ false =
        ground (arith, v.current.through, ap length grown, length-append f.text tail) in
      let verified : verify_anchor_at checksum g.text idx ≡ true =
        ap (λ t. verify_anchor_at checksum t idx) grown
        ∙ verify_anchor_at-append checksum f.text tail idx v.current in
      let is_unchanged =
        (length g.text == idx.parse_offset)
        && is_same_fingerprint (file_fingerprint g) idx.fingerprint in
      elim (Bool-cases is_unchanged) [
        | inl unchanged ↦
            let same_text : f.text ≡ g.text =
              sym (
                append_nothing f.text tail (
                  omega (
                    arith,
                    same_length (length g.text) idx.parse_offset
                        (is_same_fingerprint (file_fingerprint g) idx.fingerprint) unchanged,
                    v.current.through,
                    ap length grown,
                  )))
              ∙ sym grown in
            (
              idx,
              rw (revision, same, longer, unchanged) refl,
              record {
                lineage = v.lineage;
                valid = v.valid;
                current = subst (λ t. IsCurrent checksum t idx) same_text v.current;
                same_backend = v.same_backend;
                revision = v.revision;
                device = v.device ∙ sym d;
                inode = v.inode ∙ sym i;
              },
              current_keeps idx v.lineage,
              inl (refl, sym same_text),
            )
        | inr changed ↦
            let (new, e, is, keeps, extracted) =
              extend_index_lem unmarshal_codex unmarshal_claude checksum backend gen_id f g idx n
                known v o named fresh in
            (new, rw (revision, same, longer, changed, verified) e, is, keeps, inr extracted)
      ]

  refresh_rebuilds :
      (idx : PageIndex) (f : File) (gen_id : String)
      → is_continued unmarshal_codex unmarshal_claude checksum idx f ≡ false
      → ((length f.text == idx.parse_offset)
          && is_same_fingerprint (file_fingerprint f) idx.fingerprint)
        ≡ false
      → refresh unmarshal_codex unmarshal_claude checksum idx f gen_id
        ≡ build unmarshal_codex unmarshal_claude checksum idx.backend idx.file_path f gen_id
  unfolding refresh is_continued
  refresh_rebuilds idx f gen_id broken changed =
      elim (Bool-cases (str_eq idx.extractor_revision (extractor_revision idx.backend))) [
        | inr e ↦ rw e refl
        | inl revision ↦ elim (Bool-cases (same_identity idx f)) [
          | inr e ↦ rw (revision, e) refl
          | inl same ↦ elim (Bool-cases (ltb (length f.text) idx.parse_offset)) [
            | inl e ↦ rw (revision, same, e) refl
            | inr longer ↦
                let e : verify_anchor_at checksum f.text idx ≡ false =
                  rw (revision, same, longer) at broken in
                rw (revision, same, longer, changed, e) refl
          ]
        ]
      ]

  only_new :
      (idx : PageIndex) (gen_id generation : String)
      → ids idx.generation_lineage ≡ gen_id ∷ []
      → generation ≢ gen_id
      → is_cursor_stale idx generation ≡ true
  unfolding is_cursor_stale is_in
  only_new idx gen_id generation e other =
      rw (e, ne_of_not-eq gen_id generation (λ same. other (sym same))) refl

  -- When the file is not one that only grew, by the revision of the extractor, the identity of the
  -- file, its size or the anchor, and its size or modification time have changed, Refresh gives what
  -- Build gives: an index of the new file, for which every cursor of another generation than the new
  -- one is stale.
  pub refresh_replaced :
      (idx : PageIndex) (f : File) (gen_id generation : String)
      → Known unmarshal_codex unmarshal_claude checksum idx.backend
      → is_continued unmarshal_codex unmarshal_claude checksum idx f ≡ false
      → ((length f.text == idx.parse_offset)
          && is_same_fingerprint (file_fingerprint f) idx.fingerprint)
        ≡ false
      → gen_id ≢ ""
      → generation ≢ gen_id
      → (new : PageIndex) × (refresh unmarshal_codex unmarshal_claude checksum idx f gen_id
          ≡ some new)
        × (build unmarshal_codex unmarshal_claude checksum idx.backend idx.file_path f gen_id
            ≡ some new)
        × IsIndexOf unmarshal_codex unmarshal_claude checksum idx.backend f new
        × (is_cursor_stale new generation ≡ true)
  refresh_replaced idx f gen_id generation known broken changed named other =
      let (new, e, is, only, _) =
        build_lem unmarshal_codex unmarshal_claude checksum idx.backend idx.file_path gen_id f known
          named in
      (
        new,
        refresh_rebuilds idx f gen_id broken changed ∙ e,
        e,
        is,
        only_new new gen_id generation only other,
      )
