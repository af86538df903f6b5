-- ===== src/Transcript/Lineage.antt =====
-- transcriptindex/lineage.go and IsCursorStale of cursor.go: the chain of generations of an index,
-- which shows what a cursor may still refer to. The digest of the file's bytes and the random
-- identifier of a generation are arguments.
pub mod Chain
pub mod Stale
use cccode_macbridge.Base.{
  ℕ, ◌+◌, ◌-◌, String, Bool, true, false, not, ◌&&◌, ◌||◌, Option, none, some, List, [], ◌∷◌, ◌++◌,
  leb, if◌then◌else◌, str_eq, length, take, drop,
}
use cccode_macbridge.Transcript.{LogicalMessageSpan}

pub record PrefixGenerationRecord : Type 0 where
  pub id : String
  pub parent_id : String
  pub indexed_through : ℕ
  pub anchor_hex : String

pub record AnchorDesc : Type 0 where
  pub algo : String
  pub window : ℕ

pub record Fingerprint : Type 0 where
  pub size_bytes : ℕ
  pub mod_time_unix_nano : ℕ

pub record PageIndex : Type 0 where
  pub version : ℕ
  pub backend : String
  pub extractor_revision : String
  pub file_path : String
  pub fingerprint : Fingerprint
  pub anchor : AnchorDesc
  pub parse_offset : ℕ
  pub prefix_generation : String
  pub generation_lineage : List PrefixGenerationRecord
  pub spans : List LogicalMessageSpan
  pub file_device : ℕ
  pub file_inode : ℕ

abbrev pub max_lineage_depth : ℕ
max_lineage_depth = 64

-- seen[id]
unfoldable pub is_in : String → List String → Bool
is_in id [] = false
is_in id (x ∷ xs) = str_eq x id || is_in id xs

abbrev pub ids : List PrefixGenerationRecord → List String
ids [] = []
ids (g ∷ gs) = g.id ∷ ids gs

-- The oldest record that is kept becomes the root, and the next one its child; the list has both.
unfoldable pub rewire : List PrefixGenerationRecord → List PrefixGenerationRecord
rewire [] = []
rewire (b ∷ []) = record b { parent_id = "" } ∷ []
rewire (b ∷ g ∷ gs) = record b { parent_id = "" } ∷ record g { parent_id = b.id } ∷ gs

unfoldable pub fold_lineage : List PrefixGenerationRecord → List PrefixGenerationRecord
unfolding rewire
fold_lineage lineage =
    if leb (length lineage) max_lineage_depth
    then lineage
    else (rewire (drop (length lineage - max_lineage_depth) lineage))

-- The first loop of validateLineage: the identifiers seen, unless one is empty or repeated.
unfoldable pub seen_ids : List String → List PrefixGenerationRecord → Option (List String)
unfolding is_in
seen_ids seen [] = some seen
seen_ids seen (g ∷ gs) =
    let rest = seen_ids (g.id ∷ seen) gs in if str_eq g.id "" || is_in g.id seen then none else rest

-- The second loop.
unfoldable pub has_parents : List String → List PrefixGenerationRecord → Bool
unfolding is_in
has_parents seen [] = true
has_parents seen (g ∷ gs) =
    not (str_eq g.parent_id "" || not (is_in g.parent_id seen)) && has_parents seen gs

unfoldable pub validate_seen :
    Option (List String) → PrefixGenerationRecord → List PrefixGenerationRecord → Bool
unfolding has_parents
validate_seen none g gs = false
validate_seen (some seen) g gs = str_eq g.parent_id "" && has_parents seen gs

unfoldable pub validate_lineage : List PrefixGenerationRecord → Bool
unfolding validate_seen seen_ids
validate_lineage [] = false
validate_lineage (g ∷ gs) = validate_seen (seen_ids [] (g ∷ gs)) g gs

abbrev pub default_anchor_window : ℕ
default_anchor_window = 4096

abbrev pub default_anchor_algo : String
default_anchor_algo = "sha256-128"

-- currentGeneration
unfoldable pub current_generation : List PrefixGenerationRecord → Option PrefixGenerationRecord
current_generation [] = none
current_generation (g ∷ []) = some g
current_generation (g ∷ h ∷ gs) = current_generation (h ∷ gs)

-- IsCursorStale, of the generation in the cursor.
unfoldable pub is_cursor_stale : PageIndex → String → Bool
unfolding is_in
is_cursor_stale idx generation = not (is_in generation (ids idx.generation_lineage))

abbrev pub window_of : AnchorDesc → ℕ
window_of anchor = if leb anchor.window 0 then default_anchor_window else anchor.window

-- `checksum` stands for the first 16 bytes of SHA-256 in hexadecimal digits.
module _ (checksum : List ℕ → String) where
  unfoldable pub anchor_for : List ℕ → ℕ → ℕ → String
  anchor_for text through window =
      let wide = if leb window 0 then default_anchor_window else window in
      let start = through - wide in
      let hashed = through - start in
      if leb hashed 0 then "" else checksum (take hashed (drop start text))

  -- The results of `finalizeNewLineage` and `appendChildGeneration`, as Build and Refresh store them.
  unfoldable pub finalize_new_lineage : List ℕ → String → PageIndex → PageIndex
  unfolding anchor_for
  finalize_new_lineage text gen_id idx = record idx {
    prefix_generation = gen_id;
    anchor = record { algo = default_anchor_algo; window = default_anchor_window };
    generation_lineage =
        record {
          id = gen_id;
          parent_id = "";
          indexed_through = idx.parse_offset;
          anchor_hex = anchor_for text idx.parse_offset default_anchor_window;
        }
        ∷ [];
  }

  abbrev pub child_of : List ℕ → PageIndex → String → ℕ → PrefixGenerationRecord
  child_of text parent gen_id through = record {
    id = gen_id;
    parent_id = parent.prefix_generation;
    indexed_through = through;
    anchor_hex = anchor_for text through (window_of parent.anchor);
  }

  unfoldable pub append_child_generation : List ℕ → String → PageIndex → ℕ → PageIndex → PageIndex
  unfolding fold_lineage anchor_for
  append_child_generation text gen_id parent through idx = record idx {
    prefix_generation = gen_id;
    anchor = record {
      algo = if str_eq parent.anchor.algo "" then default_anchor_algo else parent.anchor.algo;
      window = window_of parent.anchor;
    };
    generation_lineage =
        fold_lineage (parent.generation_lineage ++ (child_of text parent gen_id through ∷ []));
  }

  unfoldable pub verify_current : List ℕ → PageIndex → Option PrefixGenerationRecord → Bool
  unfolding anchor_for
  verify_current text idx none = false
  verify_current text idx (some g) =
      str_eq (anchor_for text idx.parse_offset (window_of idx.anchor)) g.anchor_hex

  unfoldable pub verify_anchor_at : List ℕ → PageIndex → Bool
  unfolding verify_current current_generation
  verify_anchor_at text idx = verify_current text idx (current_generation idx.generation_lineage)
