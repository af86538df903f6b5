-- ===== src/Transcript/Index/Anchored.antt =====
-- The continuity anchor of an index (transcriptindex/anchor.go, lineage.go).
use mathlib.Core.List.{append-nil}
use text.Mathlib.TextPositions.{eq_refl}
use cccode_macbridge.Base.{
  ℕ, zero, suc, ◌-◌, ◌≤◌, ◌<◌, ◌≡◌, refl, sym, ap, ◌∙◌, inl, inr, String, true, false, not, Option,
  none, some, List, [], ◌∷◌, ◌++◌, arith, leb, if◌then◌else◌, str_eq, eq_iff, length, take, drop,
  length-append, take-drop, Bool-cases, lt_of_leb,
}
use mathlib.Core.Option.{some-injective}
use cccode_macbridge.Transcript.Lineage.Stale.{or_true_right, newest, ids-append_child}
use cccode_macbridge.Transcript.Lineage.{
  PageIndex, PrefixGenerationRecord, anchor_for, window_of, default_anchor_window,
  max_lineage_depth, AnchorDesc, rewire, current_generation, verify_current, verify_anchor_at,
  finalize_new_lineage, append_child_generation, child_of, is_in, ids, is_cursor_stale,
  fold_lineage,
}
use cccode_macbridge.Transcript.Lineage.Chain.{IsLineage, last_id, length-ids}

take-append : (n : ℕ) (xs ys : List ℕ) → n ≤ length xs → take n (xs ++ ys) ≡ take n xs
take-append zero xs ys h = refl
take-append (suc n) [] ys h = absurd (omega arith)
take-append (suc n) (x ∷ xs) ys h = ap (λ zs. x ∷ zs) (take-append n xs ys (omega arith))

abbrev pub hex_of : Option PrefixGenerationRecord → Option String
hex_of none = none
hex_of (some g) = some g.anchor_hex

abbrev pub newest_hex : List PrefixGenerationRecord → Option String
newest_hex gs = hex_of (current_generation gs)

newest_hex-rewire : (gs : List PrefixGenerationRecord) → newest_hex (rewire gs) ≡ newest_hex gs
unfolding rewire current_generation
newest_hex-rewire [] = refl
newest_hex-rewire (b ∷ []) = refl
newest_hex-rewire (b ∷ g ∷ []) = refl
newest_hex-rewire (b ∷ g ∷ h ∷ hs) = refl

newest_hex-drop :
    (n : ℕ) (gs : List PrefixGenerationRecord)
    → n < length gs
    → newest_hex (drop n gs) ≡ newest_hex gs
unfolding current_generation
newest_hex-drop n [] h = absurd (omega arith)
newest_hex-drop zero (g ∷ gs) h = refl
newest_hex-drop (suc n) (g ∷ []) h = absurd (omega arith)
newest_hex-drop (suc n) (g ∷ k ∷ gs) h = newest_hex-drop n (k ∷ gs) (omega arith)

newest_hex-fold_lineage :
    (gs : List PrefixGenerationRecord) → newest_hex (fold_lineage gs) ≡ newest_hex gs
unfolding fold_lineage
newest_hex-fold_lineage gs = elim (Bool-cases (leb (length gs) max_lineage_depth)) [
  | inl few ↦ rw few refl
  | inr many ↦ rw many (
      newest_hex-rewire (drop (length gs - max_lineage_depth) gs)
      ∙ newest_hex-drop (length gs - max_lineage_depth) gs
          (omega (arith, lt_of_leb (length gs) max_lineage_depth many)))
]

newest_hex-append :
    (gs : List PrefixGenerationRecord) (g : PrefixGenerationRecord)
    → newest_hex (gs ++ (g ∷ [])) ≡ some g.anchor_hex
unfolding current_generation
newest_hex-append [] g = refl
newest_hex-append (h ∷ []) g = refl
newest_hex-append (h ∷ k ∷ gs) g = newest_hex-append (k ∷ gs) g

window_of-window_of : (a : AnchorDesc) → window_of (record a { window = window_of a }) ≡ window_of a
window_of-window_of a = ground arith

-- The generation before the newest is still in the lineage.
last_id-is_in :
    (g : PrefixGenerationRecord) (gs : List PrefixGenerationRecord) (ys : List String)
    → is_in (last_id g.id gs) (g.id ∷ (ids gs ++ ys)) ≡ true
unfolding is_in
last_id-is_in g [] ys = rw (eq_refl g.id) refl
last_id-is_in g (h ∷ gs) ys =
    rw (last_id-is_in h gs ys) (or_true_right (str_eq g.id (last_id h.id gs)))

last_id-newest :
    (n : ℕ) (p : String) (gs : List PrefixGenerationRecord) (ys : List String)
    → n < length gs
    → is_in (last_id p gs) (drop n (ids gs ++ ys)) ≡ true
last_id-newest n p [] ys h = absurd (omega arith)
last_id-newest zero p (g ∷ gs) ys h = last_id-is_in g gs ys
last_id-newest (suc n) p (g ∷ gs) ys h = last_id-newest n g.id gs ys (omega arith)

pub current_keeps :
    (idx : PageIndex) → IsLineage idx → is_cursor_stale idx idx.prefix_generation ≡ false
unfolding is_cursor_stale
current_keeps idx v =
    let gs = idx.generation_lineage in
    ap not (
      ap (is_in idx.prefix_generation) (sym (append-nil (ids gs)))
      ∙ ap (λ p. is_in p (ids gs ++ [])) v.newest
      ∙ last_id-newest 0 "" gs [] v.present)

-- A cursor of the generation before an append is not stale.
pub append_child_keeps :
    (checksum : List ℕ → String) (parent idx : PageIndex) (gen_id : String) (through : ℕ)
    (text : List ℕ)
    → IsLineage parent
    → is_cursor_stale
        (append_child_generation checksum text gen_id parent through idx)
        parent.prefix_generation
      ≡ false
unfolding is_cursor_stale
append_child_keeps checksum parent idx gen_id through text v =
    let gs = parent.generation_lineage in
    let all = ids gs ++ (gen_id ∷ []) in
    ap not (
      ap (is_in parent.prefix_generation) (ids-append_child checksum parent idx gen_id through text)
      ∙ ap (λ p. is_in p (newest all)) v.newest
      ∙ last_id-newest (length all - max_lineage_depth) "" gs (gen_id ∷ []) (
          omega (arith, length-append (ids gs) (gen_id ∷ []), length-ids gs, v.present, v.bounded)))

module _ (checksum : List ℕ → String) where
  -- The anchor of a prefix does not depend on what follows it.
  anchor_for-append :
      (text tail : List ℕ) (through window : ℕ)
      → through ≤ length text
      → anchor_for checksum (text ++ tail) through window ≡ anchor_for checksum text through window
  unfolding anchor_for
  anchor_for-append text tail through window h =
      let wide = if leb window 0 then default_anchor_window else window in
      let start = through - wide in
      let hashed = through - start in
      ap (λ bytes. if leb hashed 0 then "" else checksum bytes)
        (take-drop start hashed through (text ++ tail) (omega arith)
          ∙ ap (drop start) (take-append through text tail h)
          ∙ sym (take-drop start hashed through text (omega arith)))

  -- The index is of this text: its newest generation has the anchor of the end.
  pub record IsCurrent (text : List ℕ) (idx : PageIndex) : Type 0 where
    pub through : idx.parse_offset ≡ length text
    pub anchored :
        newest_hex idx.generation_lineage
        ≡ some (anchor_for checksum text (length text) (window_of idx.anchor))

  verify_of :
      (text : List ℕ) (idx : PageIndex) (o : Option PrefixGenerationRecord)
      → hex_of o ≡ some (anchor_for checksum text idx.parse_offset (window_of idx.anchor))
      → verify_current checksum text idx o ≡ true
  unfolding verify_current
  verify_of text idx none e = cc
  verify_of text idx (some g) e =
      (eq_iff (anchor_for checksum text idx.parse_offset (window_of idx.anchor)) g.anchor_hex).1 (
        sym (
          some-injective g.anchor_hex
            (anchor_for checksum text idx.parse_offset (window_of idx.anchor)) e))

  pub verify_anchor_at-append :
      (text tail : List ℕ) (idx : PageIndex)
      → IsCurrent text idx
      → verify_anchor_at checksum (text ++ tail) idx ≡ true
  unfolding verify_anchor_at
  verify_anchor_at-append text tail idx v =
      verify_of (text ++ tail) idx (current_generation idx.generation_lineage) (
        v.anchored
        ∙ ap some (
            sym (anchor_for-append text tail (length text) (window_of idx.anchor) (omega arith))
            ∙ ap (λ n. anchor_for checksum (text ++ tail) n (window_of idx.anchor))
                (sym v.through)))

  pub finalize_new_lineage-IsCurrent :
      (text : List ℕ) (gen_id : String) (idx : PageIndex)
      → idx.parse_offset ≡ length text
      → IsCurrent text (finalize_new_lineage checksum text gen_id idx)
  unfolding finalize_new_lineage current_generation
  finalize_new_lineage-IsCurrent text gen_id idx e = record {
    through = e;
    anchored = ap (λ n. some (anchor_for checksum text n default_anchor_window)) e;
  }

  pub append_child_generation-IsCurrent :
      (text : List ℕ) (gen_id : String) (parent idx : PageIndex)
      → idx.parse_offset ≡ length text
      → IsCurrent text (append_child_generation checksum text gen_id parent (length text) idx)
  unfolding append_child_generation
  append_child_generation-IsCurrent text gen_id parent idx e =
      let gs = parent.generation_lineage in
      let g = child_of checksum text parent gen_id (length text) in
      record {
        through = e;
        anchored =
            newest_hex-fold_lineage (gs ++ (g ∷ []))
            ∙ newest_hex-append gs g
            ∙ ap (λ n. some (anchor_for checksum text (length text) n))
                (sym (window_of-window_of parent.anchor));
      }
