-- ===== src/Transcript/Lineage/Chain.antt =====
-- The generations of an index form a chain (transcriptindex/lineage.go).
use cccode_macbridge.Base.{
  ℕ, zero, suc, ◌-◌, ◌≤◌, ◌<◌, ◌≡◌, ◌≢◌, refl, sym, ap, ◌∙◌, inl, inr, String, true, false, ◌||◌,
  List, [], ◌∷◌, ◌++◌, arith, leb, str_eq, eq_iff, length, drop, length-drop, length-append,
  Bool-cases, or_false, leb→le, lt_of_leb,
}
use cccode_macbridge.Base.Dict.{ne_of_not-eq}
use cccode_macbridge.Transcript.Lineage.{
  PrefixGenerationRecord, PageIndex, max_lineage_depth, is_in, ids, rewire, fold_lineage, child_of,
  append_child_generation, finalize_new_lineage,
}

-- Each record has an identifier, which no later record has, and the one before it as its parent.
abbrev pub IsChain : String → List PrefixGenerationRecord → Type 0
IsChain parent [] = Unit
IsChain parent (g ∷ gs) =
    (g.parent_id ≡ parent) × (g.id ≢ "") × (is_in g.id (ids gs) ≡ false) × IsChain g.id gs

abbrev pub last_id : String → List PrefixGenerationRecord → String
last_id parent [] = parent
last_id parent (g ∷ gs) = last_id g.id gs

pub ids-append : (gs hs : List PrefixGenerationRecord) → ids (gs ++ hs) ≡ ids gs ++ ids hs
ids-append [] hs = refl
ids-append (g ∷ gs) hs = ap (λ xs. g.id ∷ xs) (ids-append gs hs)

pub ids-drop : (n : ℕ) (gs : List PrefixGenerationRecord) → ids (drop n gs) ≡ drop n (ids gs)
ids-drop zero gs = refl
ids-drop (suc n) [] = refl
ids-drop (suc n) (g ∷ gs) = ids-drop n gs

pub length-ids : (gs : List PrefixGenerationRecord) → length (ids gs) ≡ length gs
length-ids [] = refl
length-ids (g ∷ gs) = omega (arith, length-ids gs)

ids-rewire : (gs : List PrefixGenerationRecord) → ids (rewire gs) ≡ ids gs
unfolding rewire
ids-rewire [] = refl
ids-rewire (b ∷ []) = refl
ids-rewire (b ∷ g ∷ gs) = refl

-- Folding keeps the identifiers of the newest generations.
pub ids-fold_lineage :
    (gs : List PrefixGenerationRecord)
    → ids (fold_lineage gs) ≡ drop (length gs - max_lineage_depth) (ids gs)
unfolding fold_lineage
ids-fold_lineage gs = elim (Bool-cases (leb (length gs) max_lineage_depth)) [
  | inl few ↦ rw few (
      let e : length gs - max_lineage_depth ≡ 0 =
        omega (arith, leb→le (length gs) max_lineage_depth few) in
      sym (ap (λ n. drop n (ids gs)) e))
  | inr many ↦ rw many (
      ids-rewire (drop (length gs - max_lineage_depth) gs)
      ∙ ids-drop (length gs - max_lineage_depth) gs)
]

is_in-append : (x : String) (xs ys : List String) → is_in x (xs ++ ys) ≡ (is_in x xs || is_in x ys)
unfolding is_in
is_in-append x [] ys = refl
is_in-append x (y ∷ xs) ys = elim (Bool-cases (str_eq y x)) [
  | inl e ↦ rw e refl
  | inr e ↦ rw e (is_in-append x xs ys)
]

pub differ_of : (s t : String) → str_eq s t ≡ false → s ≢ t
differ_of s t h e = let same : str_eq s t ≡ true = (eq_iff s t).1 e in cc

-- A chain goes on with a record of a new identifier.
pub IsChain-append :
    (parent : String) (gs : List PrefixGenerationRecord) (g : PrefixGenerationRecord)
    → IsChain parent gs
    → g.parent_id ≡ last_id parent gs
    → g.id ≢ ""
    → is_in g.id (ids gs) ≡ false
    → IsChain parent (gs ++ (g ∷ []))
unfolding is_in
IsChain-append parent [] g c e named new = (e, named, refl, tt)
IsChain-append parent (h ∷ gs) g c e named new = (
  c.0,
  c.1,
  ap (λ xs. is_in h.id xs) (ids-append gs (g ∷ []))
      ∙ is_in-append h.id (ids gs) (g.id ∷ [])
      ∙ rw c.2 (
          rw
            (ne_of_not-eq g.id h.id (λ same.
              differ_of h.id g.id (or_false (str_eq h.id g.id) (is_in g.id (ids gs)) new).0
                (sym same)))
            refl),
  IsChain-append h.id gs g c.3 e named (or_false (str_eq h.id g.id) (is_in g.id (ids gs)) new).1,
)

last_id-append :
    (parent : String) (gs : List PrefixGenerationRecord) (g : PrefixGenerationRecord)
    → last_id parent (gs ++ (g ∷ [])) ≡ g.id
last_id-append parent [] g = refl
last_id-append parent (h ∷ gs) g = last_id-append h.id gs g

IsChain-drop :
    (n : ℕ) (parent : String) (gs : List PrefixGenerationRecord)
    → IsChain parent gs
    → (p : String) × IsChain p (drop n gs)
IsChain-drop zero parent gs c = (parent, c)
IsChain-drop (suc n) parent [] c = (parent, tt)
IsChain-drop (suc n) parent (g ∷ gs) c = IsChain-drop n g.id gs c.3

IsChain-rewire :
    (p : String) (gs : List PrefixGenerationRecord) → IsChain p gs → IsChain "" (rewire gs)
unfolding rewire
IsChain-rewire p [] c = tt
IsChain-rewire p (b ∷ []) c = (refl, c.1, c.2, tt)
IsChain-rewire p (b ∷ g ∷ gs) c = (refl, c.1, c.2, (refl, c.3.1, c.3.2, c.3.3))

pub IsChain-fold_lineage :
    (gs : List PrefixGenerationRecord) → IsChain "" gs → IsChain "" (fold_lineage gs)
unfolding fold_lineage
IsChain-fold_lineage gs c = elim (Bool-cases (leb (length gs) max_lineage_depth)) [
  | inl few ↦ rw few c
  | inr many ↦ rw many (
      let (p, d) = IsChain-drop (length gs - max_lineage_depth) "" gs c in
      IsChain-rewire p (drop (length gs - max_lineage_depth) gs) d)
]

-- A lineage as Build and Refresh leave it.
pub record IsLineage (idx : PageIndex) : Type 0 where
  pub chain : IsChain "" idx.generation_lineage
  pub newest : idx.prefix_generation ≡ last_id "" idx.generation_lineage
  pub bounded : length idx.generation_lineage ≤ max_lineage_depth
  pub present : 0 < length idx.generation_lineage

length-rewire : (gs : List PrefixGenerationRecord) → length (rewire gs) ≡ length gs
unfolding rewire
length-rewire [] = refl
length-rewire (b ∷ []) = refl
length-rewire (b ∷ g ∷ gs) = refl

pub length-fold_lineage-le :
    (gs : List PrefixGenerationRecord) → length (fold_lineage gs) ≤ max_lineage_depth
unfolding fold_lineage
length-fold_lineage-le gs = elim (Bool-cases (leb (length gs) max_lineage_depth)) [
  | inl few ↦ rw few (leb→le (length gs) max_lineage_depth few)
  | inr many ↦ rw many (
      omega (
        arith,
        length-rewire (drop (length gs - max_lineage_depth) gs),
        length-drop (length gs - max_lineage_depth) gs,
      ))
]

length-fold_lineage-pos :
    (gs : List PrefixGenerationRecord) → 0 < length gs → 0 < length (fold_lineage gs)
unfolding fold_lineage
length-fold_lineage-pos gs h = elim (Bool-cases (leb (length gs) max_lineage_depth)) [
  | inl few ↦ rw few h
  | inr many ↦ rw many (
      omega (
        arith,
        length-rewire (drop (length gs - max_lineage_depth) gs),
        length-drop (length gs - max_lineage_depth) gs,
        lt_of_leb (length gs) max_lineage_depth many,
      ))
]

last_id-drop :
    (n : ℕ) (p q : String) (gs : List PrefixGenerationRecord)
    → n < length gs
    → last_id p (drop n gs) ≡ last_id q gs
last_id-drop n p q [] h = absurd (omega arith)
last_id-drop zero p q (g ∷ gs) h = refl
last_id-drop (suc n) p q (g ∷ gs) h = last_id-drop n p g.id gs (omega arith)

last_id-rewire :
    (p : String) (gs : List PrefixGenerationRecord) → last_id p (rewire gs) ≡ last_id p gs
unfolding rewire
last_id-rewire p [] = refl
last_id-rewire p (b ∷ []) = refl
last_id-rewire p (b ∷ g ∷ gs) = refl

last_id-fold_lineage :
    (gs : List PrefixGenerationRecord) → last_id "" (fold_lineage gs) ≡ last_id "" gs
unfolding fold_lineage
last_id-fold_lineage gs = elim (Bool-cases (leb (length gs) max_lineage_depth)) [
  | inl few ↦ rw few refl
  | inr many ↦ rw many (
      last_id-rewire "" (drop (length gs - max_lineage_depth) gs)
      ∙ last_id-drop (length gs - max_lineage_depth) "" "" gs
          (omega (arith, lt_of_leb (length gs) max_lineage_depth many)))
]

pub finalize_new_lineage-IsLineage :
    (checksum : List ℕ → String) (text : List ℕ) (gen_id : String) (idx : PageIndex)
    → gen_id ≢ ""
    → IsLineage (finalize_new_lineage checksum text gen_id idx)
unfolding finalize_new_lineage is_in
finalize_new_lineage-IsLineage checksum text gen_id idx named = record {
  chain = (refl, named, refl, tt);
  newest = refl;
  bounded = omega arith;
  present = omega arith;
}

pub append_child_generation-IsLineage :
    (checksum : List ℕ → String) (text : List ℕ) (gen_id : String) (parent : PageIndex)
    (through : ℕ) (idx : PageIndex)
    → IsLineage parent
    → gen_id ≢ ""
    → is_in gen_id (ids parent.generation_lineage) ≡ false
    → IsLineage (append_child_generation checksum text gen_id parent through idx)
unfolding append_child_generation
append_child_generation-IsLineage checksum text gen_id parent through idx v named new =
    let g = child_of checksum text parent gen_id through in
    let gs = parent.generation_lineage in
    record {
      chain =
          IsChain-fold_lineage (gs ++ (g ∷ [])) (IsChain-append "" gs g v.chain v.newest named new);
      newest = sym (last_id-fold_lineage (gs ++ (g ∷ [])) ∙ last_id-append "" gs g);
      bounded = length-fold_lineage-le (gs ++ (g ∷ []));
      present = length-fold_lineage-pos (gs ++ (g ∷ [])) (omega (arith, length-append gs (g ∷ [])));
    }
