-- ===== src/Transcript/Scan/Tiles.antt =====
-- What transcriptindex/record.go reads of a text: every line that is not blank, at its place.
use mathlib.Core.Path.{subst}
use cccode_macbridge.Base.{
  ℕ, ◌+◌, ◌≤◌, ◌<◌, ◌≡◌, ◌≢◌, refl, ap, ◌∙◌, true, false, inl, inr, ◌⊎◌, List, [], ◌∷◌, ◌++◌, arith,
  leb, ◌==◌, length, length-append, Bool-cases, leb→le, lt_of_leb,
}
use cccode_macbridge.Transcript.Scan.{
  Record, newline, carriage_return, onto_first, read_lines, drop_last, body, scan_lines,
  scan_transcript,
}

abbrev pub NoNewline : List ℕ → Type 0
NoNewline [] = Unit
NoNewline (b ∷ bs) = (b ≢ newline) × NoNewline bs

-- A whole line with its newline.
abbrev pub IsEnded : List ℕ → Type 0
IsEnded [] = ⊥
IsEnded (b ∷ []) = b ≡ newline
IsEnded (b ∷ x ∷ xs) = (b ≢ newline) × IsEnded (x ∷ xs)

-- The lines of a text: all end with their only newline, but for the last, which has none.
abbrev pub AreLines : List (List ℕ) → Type 0
AreLines [] = ⊥
AreLines (l ∷ []) = NoNewline l
AreLines (l ∷ m ∷ ms) = IsEnded l × AreLines (m ∷ ms)

abbrev pub NotLast : ℕ → List ℕ → Type 0
NotLast c [] = Unit
NotLast c (b ∷ []) = b ≢ c
NotLast c (b ∷ x ∷ xs) = NotLast c (x ∷ xs)

-- The second list is the first without one `c` at its end, or it has none there.
abbrev pub Stripped : ℕ → List ℕ → List ℕ → Type 0
Stripped c line rest = (line ≡ rest ++ (c ∷ [])) ⊎ ((rest ≡ line) × NotLast c line)

-- A newline and then a carriage return are taken off the end of the line, where they are there.
abbrev pub IsBodyOf : List ℕ → List ℕ → Type 0
IsBodyOf line bytes =
    (rest : List ℕ) × Stripped newline line rest × Stripped carriage_return rest bytes

-- Of the lines from an offset on, those with an empty body have no record, and each other has one, at
-- its place.
abbrev pub Located : ℕ → List (List ℕ) → List Record → Type 0
Located offset [] rs = rs ≡ []
Located offset (l ∷ ls) rs =
    (IsBodyOf l [] × Located (offset + length l) ls rs)
    ⊎ ((r : Record) × (rest : List Record) × (rs ≡ r ∷ rest)
        × IsBodyOf l r.bytes
        × (0 < length r.bytes)
        × (r.start ≡ offset)
        × (r.end ≡ offset + length l)
        × Located (offset + length l) ls rest)

abbrev pub concat : List (List ℕ) → List ℕ
concat [] = []
concat (l ∷ ls) = l ++ concat ls

concat-onto_first : (b : ℕ) (ls : List (List ℕ)) → concat (onto_first b ls) ≡ b ∷ concat ls
concat-onto_first b [] = refl
concat-onto_first b (l ∷ ls) = refl

-- The lines that are read, one after the other, are the text.
concat-read_lines : (text : List ℕ) → concat (read_lines text) ≡ text
unfolding read_lines
concat-read_lines [] = refl
concat-read_lines (b ∷ bs) = elim (Bool-cases (b == newline)) [
  | inl ends ↦ rw ends (ap (λ x. b ∷ x) (concat-read_lines bs))
  | inr goes ↦
      rw goes (concat-onto_first b (read_lines bs) ∙ ap (λ x. b ∷ x) (concat-read_lines bs))
]

ne_of_eqb : (a b : ℕ) → (a == b) ≡ false → a ≢ b
ne_of_eqb a b h e = ground arith

AreLines-cons : (l : List ℕ) (ls : List (List ℕ)) → IsEnded l → AreLines ls → AreLines (l ∷ ls)
AreLines-cons l [] e a = absurd a
AreLines-cons l (m ∷ ms) e a = (e, a)

IsEnded-cons : (b : ℕ) (l : List ℕ) → b ≢ newline → IsEnded l → IsEnded (b ∷ l)
IsEnded-cons b [] h e = absurd e
IsEnded-cons b (x ∷ xs) h e = (h, e)

AreLines-onto_first :
    (b : ℕ) (ls : List (List ℕ)) → b ≢ newline → AreLines ls → AreLines (onto_first b ls)
AreLines-onto_first b [] h a = absurd a
AreLines-onto_first b (l ∷ []) h a = (h, a)
AreLines-onto_first b (l ∷ m ∷ ms) h a = (IsEnded-cons b l h a.0, a.1)

eq_of : (a b : ℕ) → (a == b) ≡ true → a ≡ b
eq_of a b e = ground arith

read_lines-AreLines : (text : List ℕ) → AreLines (read_lines text)
unfolding read_lines
read_lines-AreLines [] = tt
read_lines-AreLines (b ∷ bs) = elim (Bool-cases (b == newline)) [
  | inl ends ↦
      rw ends
        (AreLines-cons (b ∷ []) (read_lines bs) (eq_of b newline ends) (read_lines-AreLines bs))
  | inr goes ↦
      rw goes
        (AreLines-onto_first b (read_lines bs) (ne_of_eqb b newline goes) (read_lines-AreLines bs))
]

Stripped-cons :
    (c b x : ℕ) (xs rest : List ℕ) → Stripped c (x ∷ xs) rest → Stripped c (b ∷ x ∷ xs) (b ∷ rest)
Stripped-cons c b x xs rest (inl e) = inl (ap (λ ys. b ∷ ys) e)
Stripped-cons c b x xs rest (inr (e, h)) = inr (ap (λ ys. b ∷ ys) e, h)

drop_last-Stripped : (c : ℕ) (xs : List ℕ) → Stripped c xs (drop_last c xs)
unfolding drop_last
drop_last-Stripped c [] = inr (refl, tt)
drop_last-Stripped c (b ∷ []) = elim (Bool-cases (b == c)) [
  | inl e ↦ rw e (inl (ap (λ (x : ℕ). x ∷ []) (eq_of b c e)))
  | inr e ↦ rw e (inr (refl, ne_of_eqb b c e))
]
drop_last-Stripped c (b ∷ x ∷ xs) =
    Stripped-cons c b x xs (drop_last c (x ∷ xs)) (drop_last-Stripped c (x ∷ xs))

body-IsBodyOf : (line : List ℕ) → IsBodyOf line (body line)
unfolding body
body-IsBodyOf line = (
  drop_last newline line,
  drop_last-Stripped newline line,
  drop_last-Stripped carriage_return (drop_last newline line),
)

empty_of : (xs : List ℕ) → length xs ≤ 0 → xs ≡ []
empty_of [] h = refl
empty_of (x ∷ xs) h = absurd (omega arith)

scan_lines-Located : (offset : ℕ) (ls : List (List ℕ)) → Located offset ls (scan_lines offset ls)
unfolding scan_lines
scan_lines-Located offset [] = refl
scan_lines-Located offset (l ∷ ls) =
    let rest = scan_lines-Located (offset + length l) ls in
    elim (Bool-cases (leb (length (body l)) 0)) [
      | inl blank ↦ rw blank (
          inl (
            subst (IsBodyOf l) (empty_of (body l) (leb→le (length (body l)) 0 blank))
                (body-IsBodyOf l),
            rest,
          ))
      | inr full ↦ rw full (
          inr (
            record { start = offset; end = offset + length l; bytes = body l },
            scan_lines (offset + length l) ls,
            refl,
            body-IsBodyOf l,
            lt_of_leb (length (body l)) 0 full,
            refl,
            refl,
            rest,
          ))
    ]

-- A text is read as its lines: all but the last end with their only newline. Each line that is not
-- empty without its ending, a newline and a carriage return before it, has one record, in order: it
-- starts at the offset of the line, ends behind the line, and its bytes are the line without the
-- ending. No other line has a record.
pub scan_transcript_lem :
    (text : List ℕ)
    → (lines : List (List ℕ)) × (concat lines ≡ text)
      × AreLines lines
      × Located 0 lines (scan_transcript text)
unfolding scan_transcript
scan_transcript_lem text = (
  read_lines text,
  concat-read_lines text,
  read_lines-AreLines text,
  scan_lines-Located 0 (read_lines text),
)

-- Records that follow one another from an offset on, up to another.
abbrev pub Follows : ℕ → List Record → ℕ → Type 0
Follows low [] high = low ≤ high
Follows low (r ∷ rs) high = (low ≤ r.start) × (r.start < r.end) × Follows r.end rs high

length-drop_last-le : (c : ℕ) (xs : List ℕ) → length (drop_last c xs) ≤ length xs
unfolding drop_last
length-drop_last-le c [] = omega arith
length-drop_last-le c (b ∷ []) = ground arith
length-drop_last-le c (b ∷ x ∷ xs) = omega (arith, length-drop_last-le c (x ∷ xs))

length-body-le : (line : List ℕ) → length (body line) ≤ length line
unfolding body
length-body-le line = omega (
  arith,
  length-drop_last-le carriage_return (drop_last newline line),
  length-drop_last-le newline line,
)

Follows-lower :
    (low low' : ℕ) (rs : List Record) (high : ℕ)
    → low ≤ low'
    → Follows low' rs high
    → Follows low rs high
Follows-lower low low' [] high h f = omega (arith, h, f)
Follows-lower low low' (r ∷ rs) high h f = (omega (arith, h, f.0), f.1, f.2)

scan_lines-Follows :
    (offset : ℕ) (ls : List (List ℕ))
    → Follows offset (scan_lines offset ls) (offset + length (concat ls))
unfolding scan_lines
scan_lines-Follows offset [] = omega arith
scan_lines-Follows offset (l ∷ ls) =
    let rest : Follows (offset + length l) (scan_lines (offset + length l) ls)
        (offset + length (l ++ concat ls)) =
      subst (Follows (offset + length l) (scan_lines (offset + length l) ls))
        (omega (arith, length-append l (concat ls))) (scan_lines-Follows (offset + length l) ls) in
    elim (Bool-cases (leb (length (body l)) 0)) [
      | inl blank ↦ rw blank (
          Follows-lower offset (offset + length l) (scan_lines (offset + length l) ls)
            (offset + length (l ++ concat ls)) (omega arith) rest)
      | inr full ↦
          rw full
            (omega arith, omega (arith, length-body-le l, lt_of_leb (length (body l)) 0 full), rest)
    ]

pub scan_transcript-Follows : (text : List ℕ) → Follows 0 (scan_transcript text) (length text)
unfolding scan_transcript
scan_transcript-Follows text =
    subst (Follows 0 (scan_lines 0 (read_lines text)))
      (omega (arith, ap (length {A = ℕ}) (concat-read_lines text)))
      (scan_lines-Follows 0 (read_lines text))
