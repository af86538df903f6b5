-- ===== src/Transcript/Lineage/Stale.antt =====
-- Which cursors a lineage still answers, and that the validation accepts it
-- (transcriptindex/lineage.go, cursor.go).
use cccode_macbridge.Base.{
  ℕ, zero, suc, ◌-◌, ◌≤◌, ◌<◌, ◌≡◌, ◌≢◌, refl, sym, ap, ◌∙◌, String, Bool, true, false, not, ◌||◌,
  some, List, [], ◌∷◌, ◌++◌, arith, str_eq, length, drop, length-drop, drop-drop, length-append,
  or_false,
}
use mathlib.Core.List.{append_assoc, append-nil}
use text.Mathlib.TextPositions.{eq_refl}
use cccode_macbridge.Base.Dict.{ne_of_not-eq}
use cccode_macbridge.Transcript.Lineage.{
  PrefixGenerationRecord, PageIndex, max_lineage_depth, is_in, ids, seen_ids, has_parents,
  validate_seen, validate_lineage, child_of, append_child_generation, is_cursor_stale,
}
use cccode_macbridge.Transcript.Lineage.Chain.{
  IsChain, length-fold_lineage-le, ids-append, ids-fold_lineage, length-ids, differ_of,
}

-- The identifiers of the last 64 generations.
abbrev pub newest : List String → List String
newest xs = drop (length xs - max_lineage_depth) xs

drop-append : (n : ℕ) (xs ys : List String) → n ≤ length xs → drop n xs ++ ys ≡ drop n (xs ++ ys)
drop-append zero xs ys h = refl
drop-append (suc n) [] ys h = absurd (omega arith)
drop-append (suc n) (x ∷ xs) ys h = drop-append n xs ys (omega arith)

newest-append : (xs ys : List String) → newest (newest xs ++ ys) ≡ newest (xs ++ ys)
newest-append xs ys =
    let k = length xs - max_lineage_depth in
    ap newest (drop-append k xs ys (omega arith))
    ∙ drop-drop (length (drop k (xs ++ ys)) - max_lineage_depth) k
        (length (xs ++ ys) - max_lineage_depth) (xs ++ ys)
        (omega (arith, length-drop k (xs ++ ys), length-append xs ys))

-- One appended generation after the other: the identifier, the offset it reaches and the file then.
abbrev pub append_all : (List ℕ → String) → PageIndex → List (String × ℕ × List ℕ) → PageIndex
append_all checksum idx [] = idx
append_all checksum idx ((gen_id, through, text) ∷ steps) =
    append_all checksum (append_child_generation checksum text gen_id idx through idx) steps

abbrev pub ids_of : List (String × ℕ × List ℕ) → List String
ids_of [] = []
ids_of ((gen_id, through, text) ∷ steps) = gen_id ∷ ids_of steps

pub ids-append_child :
    (checksum : List ℕ → String) (parent idx : PageIndex) (gen_id : String) (through : ℕ)
    (text : List ℕ)
    → ids (append_child_generation checksum text gen_id parent through idx).generation_lineage
      ≡ newest (ids parent.generation_lineage ++ (gen_id ∷ []))
unfolding append_child_generation
ids-append_child checksum parent idx gen_id through text =
    let gs = parent.generation_lineage ++ (child_of checksum text parent gen_id through ∷ []) in
    ids-fold_lineage gs
    ∙ ap (λ n. drop (n - max_lineage_depth) (ids gs)) (sym (length-ids gs))
    ∙ ap newest
        (ids-append parent.generation_lineage (child_of checksum text parent gen_id through ∷ []))

append_child-bounded :
    (checksum : List ℕ → String) (idx : PageIndex) (gen_id : String) (through : ℕ) (text : List ℕ)
    → length (append_child_generation checksum text gen_id idx through idx).generation_lineage
      ≤ max_lineage_depth
unfolding append_child_generation
append_child-bounded checksum idx gen_id through text =
    length-fold_lineage-le
      (idx.generation_lineage ++ (child_of checksum text idx gen_id through ∷ []))

ids-append_all :
    (checksum : List ℕ → String) (idx : PageIndex) (steps : List (String × ℕ × List ℕ))
    → length idx.generation_lineage ≤ max_lineage_depth
    → ids (append_all checksum idx steps).generation_lineage
      ≡ newest (ids idx.generation_lineage ++ ids_of steps)
ids-append_all checksum idx [] h =
    let gs = idx.generation_lineage in
    let none_left : length (ids gs) - max_lineage_depth ≡ 0 = omega (arith, length-ids gs, h) in
    sym (ap newest (append-nil (ids gs)) ∙ ap (λ n. drop n (ids gs)) none_left)
ids-append_all checksum idx ((gen_id, through, text) ∷ steps) h =
    ids-append_all checksum (append_child_generation checksum text gen_id idx through idx) steps
      (append_child-bounded checksum idx gen_id through text)
    ∙ ap (λ xs. newest (xs ++ ids_of steps)) (ids-append_child checksum idx idx gen_id through text)
    ∙ newest-append (ids idx.generation_lineage ++ (gen_id ∷ [])) (ids_of steps)
    ∙ ap newest (append_assoc (ids idx.generation_lineage) (gen_id ∷ []) (ids_of steps))

-- After any number of appends to an index, a cursor is stale unless its generation is one of the 64
-- newest that the index has had.
pub is_cursor_stale-append_all :
    (checksum : List ℕ → String) (idx : PageIndex) (steps : List (String × ℕ × List ℕ))
    (generation : String)
    → length idx.generation_lineage ≤ max_lineage_depth
    → is_cursor_stale (append_all checksum idx steps) generation
      ≡ not (is_in generation (newest (ids idx.generation_lineage ++ ids_of steps)))
unfolding is_cursor_stale
is_cursor_stale-append_all checksum idx steps generation h =
    ap (λ xs. not (is_in generation xs)) (ids-append_all checksum idx steps h)

abbrev AllOut : List String → List PrefixGenerationRecord → Type 0
AllOut seen [] = Unit
AllOut seen (g ∷ gs) = (is_in g.id seen ≡ false) × AllOut seen gs

abbrev AllIn : List String → List PrefixGenerationRecord → Type 0
AllIn seen [] = Unit
AllIn seen (g ∷ gs) = (is_in g.id seen ≡ true) × AllIn seen gs

AllOut-none : (gs : List PrefixGenerationRecord) → AllOut [] gs
unfolding is_in
AllOut-none [] = tt
AllOut-none (g ∷ gs) = (refl, AllOut-none gs)

pub or_true_right : (b : Bool) → (b || true) ≡ true
or_true_right true = refl
or_true_right false = refl

AllOut-cons :
    (x : String) (seen : List String) (gs : List PrefixGenerationRecord)
    → is_in x (ids gs) ≡ false
    → AllOut seen gs
    → AllOut (x ∷ seen) gs
unfolding is_in
AllOut-cons x seen [] new a = tt
AllOut-cons x seen (g ∷ gs) new a =
    let apart = or_false (str_eq g.id x) (is_in x (ids gs)) new in
    (
      rw (ne_of_not-eq x g.id (λ same. differ_of g.id x apart.0 (sym same))) a.0,
      AllOut-cons x seen gs apart.1 a.1,
    )

record Seen (seen : List String) (gs : List PrefixGenerationRecord) : Type 0 where
  result : List String
  ends : seen_ids seen gs ≡ some result
  keeps : (x : String) → is_in x seen ≡ true → is_in x result ≡ true
  holds : AllIn result gs

seen_ids_lem :
    (p : String) (seen : List String) (gs : List PrefixGenerationRecord)
    → IsChain p gs
    → AllOut seen gs
    → Seen seen gs
unfolding seen_ids is_in
seen_ids_lem p seen [] c a = record { result = seen; ends = refl; keeps = λ x h. h; holds = tt }
seen_ids_lem p seen (g ∷ gs) c a =
    let v = seen_ids_lem g.id (g.id ∷ seen) gs c.3 (AllOut-cons g.id seen gs c.2 a.1) in
    record {
      result = v.result;
      ends = rw (ne_of_not-eq g.id "" c.1, a.0) v.ends;
      keeps = λ x h. v.keeps x (rw h (or_true_right (str_eq g.id x)));
      holds = (v.keeps g.id (rw (eq_refl g.id) refl), v.holds);
    }

has_parents-true :
    (p : String) (seen : List String) (gs : List PrefixGenerationRecord)
    → p ≢ ""
    → is_in p seen ≡ true
    → IsChain p gs
    → AllIn seen gs
    → has_parents seen gs ≡ true
unfolding has_parents
has_parents-true p seen [] named known c a = refl
has_parents-true p seen (g ∷ gs) named known c a =
    rw (c.0, ne_of_not-eq p "" named, known) (has_parents-true g.id seen gs c.1 a.0 c.3 a.1)

validate_rooted :
    (seen : List String) (g : PrefixGenerationRecord) (gs : List PrefixGenerationRecord)
    → g.parent_id ≡ ""
    → has_parents seen gs ≡ true
    → validate_seen (some seen) g gs ≡ true
unfolding validate_seen
validate_rooted seen g gs root h = rw (root, h) refl

pub IsChain-validate_lineage :
    (gs : List PrefixGenerationRecord) → IsChain "" gs → 0 < length gs → validate_lineage gs ≡ true
unfolding validate_lineage validate_seen
IsChain-validate_lineage [] c h = absurd (omega arith)
IsChain-validate_lineage (g ∷ gs) c h =
    let v = seen_ids_lem "" [] (g ∷ gs) c (AllOut-none (g ∷ gs)) in
    ap (λ o. validate_seen o g gs) v.ends
    ∙ validate_rooted v.result g gs c.0
        (has_parents-true g.id v.result gs c.1 v.holds.0 c.3 v.holds.1)
