-- ===== src/Base/Slices.antt =====
-- Slices of lists: an element by its index, and how `take` and `drop` go together.
use Prim.Native.Nat.{ℕ, zero, suc, ◌+◌, ◌-◌, ◌≤◌}
use mathlib.Core.Path.{◌≡◌, refl, ap}
use mathlib.Core.Option.{Option, none, some}
use mathlib.Core.List.{List, [], ◌∷◌}
use native.Mathlib.Omega.{arith}
use cccode_macbridge.Base.Lists.{length, take, drop, take-nil, drop-nil}

module _ {ℓ} {A : Type ℓ} where
  abbrev pub get_elem? : List A → ℕ → Option A
  get_elem? [] i = none
  get_elem? (x ∷ xs) zero = some x
  get_elem? (x ∷ xs) (suc i) = get_elem? xs i

  pub length-take : (n : ℕ) (xs : List A) → n ≤ length xs → length (take n xs) ≡ n
  length-take zero xs h = refl
  length-take (suc n) [] h = absurd (omega arith)
  length-take (suc n) (x ∷ xs) h = omega (arith, length-take n xs)

  pub length-drop : (n : ℕ) (xs : List A) → length (drop n xs) ≡ length xs - n
  length-drop zero xs = omega arith
  length-drop (suc n) [] = omega arith
  length-drop (suc n) (x ∷ xs) = omega (arith, length-drop n xs)

  pub take_all : (n : ℕ) (xs : List A) → length xs ≤ n → take n xs ≡ xs
  take_all zero [] h = refl
  take_all zero (x ∷ xs) h = absurd (omega arith)
  take_all (suc n) [] h = refl
  take_all (suc n) (x ∷ xs) h = ap (λ ys. x ∷ ys) (take_all n xs (omega arith))

  pub drop_all : (n : ℕ) (xs : List A) → length xs ≤ n → drop n xs ≡ []
  drop_all zero [] h = refl
  drop_all zero (x ∷ xs) h = absurd (omega arith)
  drop_all (suc n) [] h = refl
  drop_all (suc n) (x ∷ xs) h = drop_all n xs (omega arith)

  -- xs[i:j] may be cut at either end first.
  pub take-drop : (i k j : ℕ) (xs : List A) → i + k ≡ j → take k (drop i xs) ≡ drop i (take j xs)
  take-drop zero k j xs h = let e : k ≡ j = omega arith in ap (λ n. take n xs) e
  take-drop (suc i) k zero xs h = absurd (omega arith)
  take-drop (suc i) k (suc j) [] h = take-nil k
  take-drop (suc i) k (suc j) (x ∷ xs) h = take-drop i k j xs (omega arith)

  pub drop-drop : (i j k : ℕ) (xs : List A) → i + j ≡ k → drop i (drop j xs) ≡ drop k xs
  drop-drop i zero k xs h = let e : i ≡ k = omega arith in ap (λ n. drop n xs) e
  drop-drop i (suc j) zero xs h = absurd (omega arith)
  drop-drop i (suc j) (suc k) [] h = drop-nil i
  drop-drop i (suc j) (suc k) (x ∷ xs) h = drop-drop i j k xs (omega arith)

  pub take-take : (i j : ℕ) (xs : List A) → i ≤ j → take i (take j xs) ≡ take i xs
  take-take zero j xs h = refl
  take-take (suc i) zero xs h = absurd (omega arith)
  take-take (suc i) (suc j) [] h = refl
  take-take (suc i) (suc j) (x ∷ xs) h = ap (λ ys. x ∷ ys) (take-take i j xs (omega arith))
