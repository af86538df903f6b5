-- ===== src/Base/Codec/Unary.antt =====
-- Numbers and texts written one after the other, for a concrete codec: a number is as many ones and
-- a comma, a text its length and its characters.
use Prim.Native.Nat.{ℕ, zero, suc}
use Prim.Native.Char.{Char, char, code}
use Prim.Native.String.{String}
use mathlib.Core.Path.{◌≡◌, refl, ap, ◌∙◌}
use mathlib.Core.Logic.{◌≢◌}
use mathlib.Core.Option.{Option, none, some}
use mathlib.Core.Bool.{true, false}
use cccode_macbridge.Base.Text.{is_empty}
use cccode_macbridge.Base.Tests.{◌==◌, if◌then◌else◌}

unfoldable pub write_number : ℕ → String → String
write_number zero rest = String.◌∷◌ (char 44 tt) rest
write_number (suc n) rest = String.◌∷◌ (char 49 tt) (write_number n rest)

abbrev raise : Option (ℕ × String) → Option (ℕ × String)
raise none = none
raise (some (n, rest)) = some (suc n, rest)

unfoldable pub read_number : String → Option (ℕ × String)
read_number String.[] = none
read_number (String.◌∷◌ c s) =
    let rest = read_number s in if code c == 44 then some (0, s) else raise rest

pub read_number-write : (n : ℕ) (rest : String) → read_number (write_number n rest) ≡ some (n, rest)
unfolding read_number write_number
read_number-write zero rest = refl
read_number-write (suc n) rest = ap raise (read_number-write n rest)

abbrev size : String → ℕ
size String.[] = 0
size (String.◌∷◌ c s) = suc (size s)

abbrev append_text : String → String → String
append_text String.[] t = t
append_text (String.◌∷◌ c s) t = String.◌∷◌ c (append_text s t)

abbrev first_char : Char → Option (String × String) → Option (String × String)
first_char c none = none
first_char c (some (s, rest)) = some (String.◌∷◌ c s, rest)

unfoldable pub split_text : ℕ → String → Option (String × String)
split_text zero s = some ("", s)
split_text (suc n) String.[] = none
split_text (suc n) (String.◌∷◌ c s) = first_char c (split_text n s)

unfoldable pub write_text : String → String → String
unfolding write_number
write_text s rest = write_number (size s) (append_text s rest)

unfoldable pub read_counted : Option (ℕ × String) → Option (String × String)
unfolding split_text
read_counted none = none
read_counted (some (n, s)) = split_text n s

unfoldable pub read_text : String → Option (String × String)
unfolding read_counted read_number
read_text s = read_counted (read_number s)

split_text-append : (s rest : String) → split_text (size s) (append_text s rest) ≡ some (s, rest)
unfolding split_text
split_text-append String.[] rest = refl
split_text-append (String.◌∷◌ c s) rest = ap (first_char c) (split_text-append s rest)

pub read_text-write : (s rest : String) → read_text (write_text s rest) ≡ some (s, rest)
unfolding read_text write_text read_counted
read_text-write s rest =
    ap read_counted (read_number-write (size s) (append_text s rest)) ∙ split_text-append s rest

pub write_number-full : (n : ℕ) (rest : String) → write_number n rest ≢ ""
unfolding write_number
write_number-full zero rest e = let f : false ≡ true = ap is_empty e in cc
write_number-full (suc n) rest e = let f : false ≡ true = ap is_empty e in cc
