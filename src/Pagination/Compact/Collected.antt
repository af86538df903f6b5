-- ===== src/Pagination/Compact/Collected.antt =====
-- The texts and the steps that compactDuplicateMessageFields finds in the parts
-- (go-bridge/pagination.go).
use cccode_macbridge.Base.{
  ◌≡◌, ◌≢◌, refl, sym, ap, ◌∙◌, inl, inr, String, Bool, true, false, not, ◌&&◌, Option, none, some,
  List, [], ◌∷◌, arith, str_eq, eq_iff, Bool-cases,
}
use mathlib.Core.Option.{some-injective}
use cccode_macbridge.Base.Dict.{ne_of_not-eq}
use cccode_macbridge.Pagination.Compact.{
  Field, missing, other, typed, Part, string_of, is_type, texts_of, steps_of, step_first,
}

-- The values that a relation finds in a list, in order: one in an element, or none.
pub data Collected {ℓ κ μ} {P : Type ℓ} {X : Type κ} (R : P → X → Type μ)
    : List P → List X → Type (ℓ ⊔ κ ⊔ μ) where
  nothing : Collected R [] []
  takes :
      {p : P} {ps : List P} {x : X} {xs : List X}
      → R p x
      → Collected R ps xs
      → Collected R (p ∷ ps) (x ∷ xs)
  skips :
      {p : P} {ps : List P} {xs : List X}
      → ((x : X) → ¬ (R p x))
      → Collected R ps xs
      → Collected R (p ∷ ps) xs

pub string_of_typed :
    (f : Field String) → not (str_eq (string_of f) "") ≡ true → f ≡ typed (string_of f)
string_of_typed missing h = cc
string_of_typed other h = cc
string_of_typed (typed s) h = refl

pub full_of : (s : String) → not (str_eq s "") ≡ true → s ≢ ""
full_of s h e = let same : str_eq s "" ≡ true = (eq_iff s "").1 e in ground (arith, same, h)

pub not_empty : (s : String) → s ≢ "" → not (str_eq s "") ≡ true
not_empty s h = rw (ne_of_not-eq s "" h) refl

pub both : (a b : Bool) → (a && b) ≡ true → (a ≡ true) × (b ≡ true)
both a b h = ground (arith, h)

pub both_true : (a b : Bool) → a ≡ true → b ≡ true → (a && b) ≡ true
both_true a b h k = rw (h, k) refl

type_of : (name : String) (f : Field String) → is_type name f ≡ true → f ≡ typed name
type_of name missing h = cc
type_of name other h = cc
type_of name (typed s) h = ap typed ((eq_iff s name).0 h)

is_type_of : (name : String) (f : Field String) → f ≡ typed name → is_type name f ≡ true
is_type_of name f e = ap (is_type name) e ∙ (eq_iff name name).1 refl

pub clash : (b : Bool) → b ≡ true → b ≡ false → ⊥
clash b h k = cc

module _ {ℓ} {Step : Type ℓ} where
  -- The part has this type, and this text, which is not empty.
  abbrev pub HasText : String → Option (Part Step) → String → Type ℓ
  HasText name o x =
      (p : Part Step) × (o ≡ some p) × (p.type ≡ typed name) × (p.content ≡ typed x) × (x ≢ "")

  abbrev pub HasStep : Option (Part Step) → Step → Type ℓ
  HasStep o x = (p : Part Step) × (o ≡ some p) × (p.type ≡ typed "tool") × (p.step ≡ some x)

  none-some : (p : Part Step) → none ≡ some p → ⊥
  none-some p e = cc

  pub texts_of-Collected :
      (name : String) (ps : List (Option (Part Step)))
      → Collected (HasText name) ps (texts_of name ps)
  unfolding texts_of
  texts_of-Collected name [] = nothing
  texts_of-Collected name (none ∷ ps) =
      skips (λ x (p, e, _, _, _). none-some p e) (texts_of-Collected name ps)
  texts_of-Collected name (some p ∷ ps) =
      let rest = texts_of-Collected name ps in
      elim (Bool-cases (not (str_eq (string_of p.content) "") && is_type name p.type)) [
        | inl e ↦
            let (full, kind) =
              both (not (str_eq (string_of p.content) "")) (is_type name p.type) e in
            rw e (
              takes
                (
                  p,
                  refl,
                  type_of name p.type kind,
                  string_of_typed p.content full,
                  full_of (string_of p.content) full,
                )
                rest)
        | inr e ↦ rw e (
            skips
              (λ x (q, same, kind, content, full).
                let eq : p ≡ q = some-injective p q same in
                clash (not (str_eq (string_of p.content) "") && is_type name p.type)
                  (both_true (not (str_eq (string_of p.content) "")) (is_type name p.type)
                    (ap (λ (r : Part Step). not (str_eq (string_of r.content) "")) eq
                      ∙ ap (λ f. not (str_eq (string_of f) "")) content
                      ∙ not_empty x full)
                    (ap (λ (r : Part Step). is_type name r.type) eq ∙ is_type_of name q.type kind))
                  e)
              rest)
      ]

  no_step : (x : Step) → none ≡ some x → ⊥
  no_step x e = cc

  step_first-Collected :
      (p : Part Step) (ps : List (Option (Part Step))) (xs : List Step) (o : Option Step)
      → p.type ≡ typed "tool"
      → p.step ≡ o
      → Collected HasStep ps xs
      → Collected HasStep (some p ∷ ps) (step_first o xs)
  step_first-Collected p ps xs none kind at c =
      skips
        (λ x (q, same, _, step).
          no_step x (sym at ∙ ap (λ (r : Part Step). r.step) (some-injective p q same) ∙ step))
        c
  step_first-Collected p ps xs (some s) kind at c = takes (p, refl, kind, at) c

  pub steps_of-Collected : (ps : List (Option (Part Step))) → Collected HasStep ps (steps_of ps)
  unfolding steps_of
  steps_of-Collected [] = nothing
  steps_of-Collected (none ∷ ps) = skips (λ x (p, e, _, _). none-some p e) (steps_of-Collected ps)
  steps_of-Collected (some p ∷ ps) =
      let rest = steps_of-Collected ps in
      elim (Bool-cases (is_type "tool" p.type)) [
        | inl e ↦
            rw e
              (step_first-Collected p ps (steps_of ps) p.step (type_of "tool" p.type e) refl rest)
        | inr e ↦ rw e (
            skips
              (λ x (q, same, kind, _).
                clash (is_type "tool" p.type)
                  (ap (λ (r : Part Step). is_type "tool" r.type) (some-injective p q same)
                    ∙ is_type_of "tool" q.type kind)
                  e)
              rest)
      ]
