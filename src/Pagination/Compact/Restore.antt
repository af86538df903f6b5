-- ===== src/Pagination/Compact/Restore.antt =====
-- The fields that compactDuplicateMessageFields deletes are those that the parts have as well
-- (go-bridge/pagination.go).
use cccode_macbridge.Base.{
  ◌≡◌, ◌≢◌, refl, sym, ap, ◌∙◌, ◌⊎◌, inl, inr, ◌↔◌, String, Bool, true, not, ◌&&◌, Option, List, [],
  ◌∷◌, str_eq, eq_iff, Bool-cases,
}
use cccode_macbridge.Base.Text.{join}
use cccode_macbridge.Pagination.Compact.{
  Field, missing, other, typed, Part, Message, string_of, texts_of, steps_of, compact_text,
  compact_steps, compact_parts, compact_duplicate_message_fields,
}
use cccode_macbridge.Pagination.Compact.Collected.{
  Collected, HasText, HasStep, string_of_typed, full_of, not_empty, both, both_true, clash,
  texts_of-Collected, steps_of-Collected,
}

of_typed {ℓ} : {A : Type ℓ} (x : A) → Field A → A
of_typed x missing = x
of_typed x other = x
of_typed x (typed y) = y

typed-injective {ℓ} : {A : Type ℓ} (x y : A) → typed x ≡ typed y → x ≡ y
unfolding of_typed
typed-injective x y e = ap (of_typed x) e

-- The field is deleted, and had the value that the parts have; or it is as it was, and did not.
abbrev pub IsCompacted {ℓ} : {A : Type ℓ} → A → A → Field A → Field A → Type ℓ
IsCompacted blank value before after =
    ((before ≡ typed value) × (value ≢ blank) × (after ≡ missing))
    ⊎ (¬ ((before ≡ typed value) × (value ≢ blank)) × (after ≡ before))

abbrev pub parts_in {ℓ} :
    {Step : Type ℓ} → Field (List (Option (Part Step))) → List (Option (Part Step))
parts_in missing = []
parts_in other = []
parts_in (typed ps) = ps

compact_text-IsCompacted :
    (texts : List String) (f : Field String)
    → IsCompacted "" (join texts "\n") f (compact_text texts f)
unfolding compact_text
compact_text-IsCompacted texts f =
    let value = join texts "\n" in
    elim (Bool-cases (not (str_eq (string_of f) "") && str_eq (string_of f) value)) [
      | inl e ↦
          let (full, same) = both (not (str_eq (string_of f) "")) (str_eq (string_of f) value) e in
          let eq : string_of f ≡ value = (eq_iff (string_of f) value).0 same in
          inl (
            string_of_typed f full ∙ ap typed eq,
            λ blank. full_of (string_of f) full (eq ∙ blank),
            rw e refl,
          )
      | inr e ↦ inr (
        λ (same, full).
            let eq : string_of f ≡ value = ap string_of same in
            clash (not (str_eq (string_of f) "") && str_eq (string_of f) value)
              (both_true (not (str_eq (string_of f) "")) (str_eq (string_of f) value)
                (not_empty (string_of f) (λ blank. full (sym eq ∙ blank)))
                ((eq_iff (string_of f) value).1 eq))
              e,
        rw e refl,
      )
    ]

no_parts {ℓ} : {A : Type ℓ} (blank : A) (f : Field A) → IsCompacted blank blank f f
no_parts blank f = inr (λ (_, full). full refl, refl)

module _ {ℓ} {Step : Type ℓ} where
  abbrev IsUntyped : Field (List Step) → Type 0
  IsUntyped missing = Unit
  IsUntyped other = Unit
  IsUntyped (typed xs) = ⊥

  not_typed : (f : Field (List Step)) (xs : List Step) → IsUntyped f → f ≡ typed xs → ⊥
  not_typed missing xs u e = cc
  not_typed other xs u e = cc
  not_typed (typed ys) xs u e = u

  cons_nil : (x : Step) (xs : List Step) → x ∷ xs ≡ [] → ⊥
  cons_nil x xs e = cc

  module _ (deep_equal : List Step → List Step → Bool)
      (exact : (xs ys : List Step) → (deep_equal xs ys ≡ true) ↔ (xs ≡ ys)) where
    compact_steps-IsCompacted :
        (found : List Step) (f : Field (List Step))
        → IsCompacted [] found f (compact_steps deep_equal found f)
    unfolding compact_steps
    compact_steps-IsCompacted found missing = inr (λ (e, _). not_typed missing found tt e, refl)
    compact_steps-IsCompacted found other = inr (λ (e, _). not_typed other found tt e, refl)
    compact_steps-IsCompacted found (typed []) =
        inr (λ (e, full). full (sym (typed-injective [] found e)), refl)
    compact_steps-IsCompacted found (typed (s ∷ ss)) =
        elim (Bool-cases (deep_equal (s ∷ ss) found)) [
          | inl e ↦
              let eq : s ∷ ss ≡ found = (exact (s ∷ ss) found).0 e in
              inl (ap typed eq, λ blank. cons_nil s ss (eq ∙ blank), rw e refl)
          | inr e ↦ inr (
            λ (same, _).
                clash (deep_equal (s ∷ ss) found)
                  ((exact (s ∷ ss) found).1 (typed-injective (s ∷ ss) found same)) e,
            rw e refl,
          )
        ]

    -- What is left of a message whose parts have these texts and steps.
    abbrev pub IsCompactOf :
        Message Step → Message Step → List String → List String → List Step → Type ℓ
    IsCompactOf m c texts reasoning steps =
        (c.parts ≡ m.parts)
        × IsCompacted "" (join texts "\n") m.content c.content
        × IsCompacted "" (join reasoning "\n") m.thinking c.thinking
        × IsCompacted [] steps m.steps c.steps

    compact_parts-IsCompactOf :
        (m : Message Step) (f : Field (List (Option (Part Step))))
        → IsCompactOf m
            (compact_parts deep_equal f m)
            (texts_of "text" (parts_in f))
            (texts_of "reasoning" (parts_in f))
            (steps_of (parts_in f))
    unfolding compact_parts texts_of steps_of join
    compact_parts-IsCompactOf m missing =
        (refl, no_parts "" m.content, no_parts "" m.thinking, no_parts [] m.steps)
    compact_parts-IsCompactOf m other =
        (refl, no_parts "" m.content, no_parts "" m.thinking, no_parts [] m.steps)
    compact_parts-IsCompactOf m (typed []) =
        (refl, no_parts "" m.content, no_parts "" m.thinking, no_parts [] m.steps)
    compact_parts-IsCompactOf m (typed (q ∷ qs)) = (
      refl,
      compact_text-IsCompacted (texts_of "text" (q ∷ qs)) m.content,
      compact_text-IsCompacted (texts_of "reasoning" (q ∷ qs)) m.thinking,
      compact_steps-IsCompacted (steps_of (q ∷ qs)) m.steps,
    )

    -- The parts of a message stay. Its content is deleted exactly when it is the texts of its text
    -- parts, the empty ones left out, joined by newlines, and not empty, and is as it was otherwise;
    -- likewise its thinking with the reasoning parts, and its steps with those of the tool parts.
    -- That is so when DeepEqual holds exactly of equal lists of steps.
    pub compact_duplicate_message_fields_lem :
        (m : Message Step)
        → (texts : List String) × (reasoning : List String) × (steps : List Step) × Collected
            (HasText "text")
            (parts_in m.parts)
            texts
          × Collected (HasText "reasoning") (parts_in m.parts) reasoning
          × Collected HasStep (parts_in m.parts) steps
          × IsCompactOf m (compact_duplicate_message_fields deep_equal m) texts reasoning steps
    unfolding compact_duplicate_message_fields
    compact_duplicate_message_fields_lem m =
        let ps = parts_in m.parts in
        (
          texts_of "text" ps,
          texts_of "reasoning" ps,
          steps_of ps,
          texts_of-Collected "text" ps,
          texts_of-Collected "reasoning" ps,
          steps_of-Collected ps,
          compact_parts-IsCompactOf m m.parts,
        )
