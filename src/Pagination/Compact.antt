-- ===== src/Pagination/Compact.antt =====
-- compactDuplicateMessageFields of go-bridge/pagination.go, over a message as a JSON object.
pub mod Collected
pub mod Restore
use cccode_macbridge.Base.{
  ℕ, String, Bool, true, false, not, ◌&&◌, ◌||◌, Option, none, some, List, [], ◌∷◌, if◌then◌else◌,
  str_eq,
}
use cccode_macbridge.Base.Text.{join}

-- A field of an object: missing, of the type that the code asks for, or of another type.
pub data Field {ℓ} (A : Type ℓ) : Type ℓ where
  missing other : Field A
  typed : A → Field A

-- A step of a tool is an argument: the code only compares lists of steps.
module _ {ℓ} (Step : Type ℓ) where
  -- A part that is an object; its step is any value, where it has one.
  pub record Part : Type ℓ where
    pub type : Field String
    pub content : Field String
    pub step : Option Step

  -- The fields that the code reads; a part that is no object is missing in `parts`.
  pub record Message : Type ℓ where
    pub content : Field String
    pub thinking : Field String
    pub steps : Field (List Step)
    pub parts : Field (List (Option Part))

-- v, _ := x.(string)
abbrev pub string_of : Field String → String
string_of missing = ""
string_of other = ""
string_of (typed s) = s

abbrev pub is_type : String → Field String → Bool
is_type name missing = false
is_type name other = false
is_type name (typed s) = str_eq s name

-- delete(message, "content") where the parts have the same text.
unfoldable pub compact_text : List String → Field String → Field String
unfolding join
compact_text texts f =
    if not (str_eq (string_of f) "") && str_eq (string_of f) (join texts "\n") then missing else f

module _ {ℓ} {Step : Type ℓ} where
  -- The contents of the parts of one type that are not empty.
  unfoldable pub texts_of : String → List (Option (Part Step)) → List String
  texts_of name [] = []
  texts_of name (none ∷ ps) = texts_of name ps
  texts_of name (some p ∷ ps) =
      let rest = texts_of name ps in
      let content = string_of p.content in
      if not (str_eq content "") && is_type name p.type then content ∷ rest else rest

  abbrev pub step_first : Option Step → List Step → List Step
  step_first none steps = steps
  step_first (some s) steps = s ∷ steps

  unfoldable pub steps_of : List (Option (Part Step)) → List Step
  steps_of [] = []
  steps_of (none ∷ ps) = steps_of ps
  steps_of (some p ∷ ps) =
      let rest = steps_of ps in if is_type "tool" p.type then step_first p.step rest else rest

  -- reflect.DeepEqual on two lists of steps.
  module _ (deep_equal : List Step → List Step → Bool) where
    unfoldable pub compact_steps : List Step → Field (List Step) → Field (List Step)
    compact_steps found missing = missing
    compact_steps found other = other
    compact_steps found (typed []) = typed []
    compact_steps found (typed (s ∷ ss)) =
        if deep_equal (s ∷ ss) found then missing else typed (s ∷ ss)

    unfoldable pub compact_parts : Field (List (Option (Part Step))) → Message Step → Message Step
    unfolding compact_text compact_steps texts_of steps_of
    compact_parts missing m = m
    compact_parts other m = m
    compact_parts (typed []) m = m
    compact_parts (typed (p ∷ ps)) m = record m {
      content = compact_text (texts_of "text" (p ∷ ps)) m.content;
      thinking = compact_text (texts_of "reasoning" (p ∷ ps)) m.thinking;
      steps = compact_steps (steps_of (p ∷ ps)) m.steps;
    }

    unfoldable pub compact_duplicate_message_fields : Message Step → Message Step
    unfolding compact_parts
    compact_duplicate_message_fields m = compact_parts m.parts m
