-- ===== src/Transcript/Scan.antt =====
-- transcriptindex/record.go: the lines of a transcript with their offsets. A text is a list of
-- bytes; the callback never fails where the source uses it, so the records are returned.
pub mod Tiles
use cccode_macbridge.Base.{ℕ, ◌+◌, Bool, List, [], ◌∷◌, leb, ◌==◌, if◌then◌else◌, length}

pub record Record : Type 0 where
  pub start : ℕ
  pub end : ℕ
  pub bytes : List ℕ

abbrev pub newline : ℕ
newline = 10

abbrev pub carriage_return : ℕ
carriage_return = 13

abbrev pub onto_first : ℕ → List (List ℕ) → List (List ℕ)
onto_first b [] = (b ∷ []) ∷ []
onto_first b (l ∷ ls) = (b ∷ l) ∷ ls

-- What the calls of br.ReadString('\n') return in turn: each line with its newline, and what is
-- left at the end of the file.
unfoldable pub read_lines : List ℕ → List (List ℕ)
read_lines [] = [] ∷ []
read_lines (b ∷ bs) =
    let rest = read_lines bs in if b == newline then (b ∷ []) ∷ rest else onto_first b rest

-- if n := len(body); n > 0 && body[n-1] == c { body = body[:n-1] }
unfoldable pub drop_last : ℕ → List ℕ → List ℕ
drop_last c [] = []
drop_last c (b ∷ []) = if b == c then [] else b ∷ []
drop_last c (b ∷ x ∷ xs) = b ∷ drop_last c (x ∷ xs)

unfoldable pub body : List ℕ → List ℕ
unfolding drop_last
body line = drop_last carriage_return (drop_last newline line)

-- The loop, from the offset of the first line on.
unfoldable pub scan_lines : ℕ → List (List ℕ) → List Record
unfolding body
scan_lines offset [] = []
scan_lines offset (line ∷ lines) =
    let rest = scan_lines (offset + length line) lines in
    if leb (length (body line)) 0
    then rest
    else record { start = offset; end = offset + length line; bytes = body line } ∷ rest

unfoldable pub scan_transcript : List ℕ → List Record
unfolding scan_lines read_lines
scan_transcript text = scan_lines 0 (read_lines text)
