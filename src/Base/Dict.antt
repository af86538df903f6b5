-- ===== src/Base/Dict.antt =====
-- Go's `map[string]V`, as an association list with one entry for each key. What a `range` collects
-- is in the order of the list; Go leaves that order open, and no theorem depends on it.
use Prim.Native.Nat.{ℕ, suc, ◌≤◌}
use Prim.Native.String.{String}
use mathlib.Core.Path.{◌≡◌, refl, subst₂}
use mathlib.Core.Bool.{Bool, false}
use mathlib.Core.Option.{Option, none, some, some-injective}
use mathlib.Core.List.{List, [], ◌∷◌}
use native.Mathlib.Omega.{arith}
use text.Mathlib.Text.{◌==◌}
use text.Mathlib.TextEquality.{eq_iff}
use text.Mathlib.TextPositions.{eq_refl}
use mathlib.Core.Logic.{inl, inr}
use cccode_macbridge.Base.Tests.{if◌then◌else◌, Bool-cases}
use cccode_macbridge.Base.Lists.{length}

abbrev pub Dict {ℓ} : Type ℓ → Type ℓ
Dict V = List (String × V)

-- What is left of a looked-up value under a test.
abbrev pub hold {ℓ} : {V : Type ℓ} → (V → Bool) → Option V → Option V
hold p none = none
hold p (some v) = if p v then some v else none

pub ne_of_not-eq : (s t : String) → ¬ (s ≡ t) → (s == t) ≡ false
ne_of_not-eq s t h = elim (Bool-cases (s == t)) [
  | inl e ↦ absurd (h ((eq_iff s t).0 e))
  | inr e ↦ e
]

pub hold-some {ℓ} :
    {V : Type ℓ} (p : V → Bool) (o : Option V) (w : V) → hold p o ≡ some w → o ≡ some w
hold-some p none w e = e
hold-some p (some v) w e = ground arith

module _ {ℓ} {V : Type ℓ} where
  -- v, ok := m[k]
  unfoldable pub get : String → Dict V → Option V
  get k [] = none
  get k ((j, v) ∷ d) = if j == k then some v else get k d

  -- m[k] = v
  unfoldable pub put : String → V → Dict V → Dict V
  put k v [] = (k, v) ∷ []
  put k v ((j, w) ∷ d) = if j == k then (j, v) ∷ d else (j, w) ∷ put k v d

  -- delete(m, k)
  unfoldable pub remove : String → Dict V → Dict V
  remove k [] = []
  remove k ((j, v) ∷ d) = if j == k then d else (j, v) ∷ remove k d

  -- for k, v := range m { if !p(v) { delete(m, k) } }
  unfoldable pub retain : (V → Bool) → Dict V → Dict V
  retain p [] = []
  retain p ((j, v) ∷ d) = if p v then (j, v) ∷ retain p d else retain p d

  -- No key has two entries.
  abbrev pub IsMap : Dict V → Type ℓ
  IsMap [] = Unit
  IsMap ((j, v) ∷ d) = (get j d ≡ none) × IsMap d

  pub get-put :
      (k j : String) (v : V) (d : Dict V) → get j (put k v d) ≡ (if k == j then some v else get j d)
  unfolding get put
  get-put k j v [] = refl
  get-put k j v ((i, w) ∷ d) = ground (arith, eq_iff k j, eq_iff i k, eq_iff i j, get-put k j v d)

  pub get-put_self : (k : String) (v : V) (d : Dict V) → get k (put k v d) ≡ some v
  get-put_self k v d = rw (get-put k k v d, eq_refl)

  pub get-put_ne :
      (k j : String) (v : V) (d : Dict V) → (k == j) ≡ false → get j (put k v d) ≡ get j d
  get-put_ne k j v d h = rw (get-put k j v d, h)

  pub get-remove :
      (k j : String) (d : Dict V)
      → IsMap d
      → get j (remove k d) ≡ (if k == j then none else get j d)
  unfolding get remove
  get-remove k j [] m = ground arith
  get-remove k j ((i, w) ∷ d) m =
      ground (arith, eq_iff k j, eq_iff i k, eq_iff i j, get-remove k j d m.1)

  pub get-retain :
      (p : V → Bool) (j : String) (d : Dict V) → IsMap d → get j (retain p d) ≡ hold p (get j d)
  unfolding get retain
  get-retain p j [] m = refl
  get-retain p j ((i, w) ∷ d) m = ground (arith, eq_iff i j, get-retain p j d m.1)

  pub put-IsMap : (k : String) (v : V) (d : Dict V) → IsMap d → IsMap (put k v d)
  unfolding put get
  put-IsMap k v [] m = (refl, tt)
  put-IsMap k v ((i, w) ∷ d) m =
      ground (arith, eq_iff i k, eq_iff k i, get-put k i v d, put-IsMap k v d m.1)

  pub remove-IsMap : (k : String) (d : Dict V) → IsMap d → IsMap (remove k d)
  unfolding remove get
  remove-IsMap k [] m = tt
  remove-IsMap k ((i, w) ∷ d) m =
      ground (arith, eq_iff i k, get-remove k i d m.1, remove-IsMap k d m.1)

  pub retain-IsMap : (p : V → Bool) (d : Dict V) → IsMap d → IsMap (retain p d)
  unfolding retain get
  retain-IsMap p [] m = tt
  retain-IsMap p ((i, w) ∷ d) m = ground (arith, get-retain p i d m.1, retain-IsMap p d m.1)

  -- A write adds an entry only for a new key.
  abbrev pub size_put : Option V → ℕ → ℕ
  size_put none n = suc n
  size_put (some _) n = n

  pub length-put :
      (k : String) (v : V) (d : Dict V) → length (put k v d) ≡ size_put (get k d) (length d)
  unfolding put get
  length-put k v [] = refl
  length-put k v ((i, w) ∷ d) = ground (arith, length-put k v d)

  pub length-retain-le : (p : V → Bool) (d : Dict V) → length (retain p d) ≤ length d
  unfolding retain
  length-retain-le p [] = omega arith
  length-retain-le p ((i, w) ∷ d) = ground (arith, length-retain-le p d)

  pub length-remove-le : (k : String) (d : Dict V) → length (remove k d) ≤ length d
  unfolding remove
  length-remove-le k [] = omega arith
  length-remove-le k ((i, w) ∷ d) = ground (arith, length-remove-le k d)

-- What holds of every entry holds after a write, a deletion and a sweep.
module _ {ℓ κ} {V : Type ℓ} (P : String → V → Type κ) where
  abbrev pub Every : Dict V → Type (ℓ ⊔ κ)
  Every d = (j : String) (w : V) → get j d ≡ some w → P j w

  pub empty-Every : Every []
  unfolding get
  empty-Every j w e = cc

  pub put-Every : (k : String) (v : V) (d : Dict V) → P k v → Every d → Every (put k v d)
  put-Every k v d p h j w e = elim (Bool-cases (k == j)) [
    | inl same ↦
        subst₂ P ((eq_iff k j).0 same) (some-injective v w (rw (get-put k j v d, same) at e)) p
    | inr other ↦ h j w (rw (get-put k j v d, other) at e)
  ]

  pub remove-Every : (k : String) (d : Dict V) → IsMap d → Every d → Every (remove k d)
  remove-Every k d m h j w e = elim (Bool-cases (k == j)) [
    | inl same ↦ absurd (cc (rw (get-remove k j d m, same) at e))
    | inr other ↦ h j w (rw (get-remove k j d m, other) at e)
  ]

  pub retain-Every : (p : V → Bool) (d : Dict V) → IsMap d → Every d → Every (retain p d)
  retain-Every p d m h j w e = h j w (hold-some p (get j d) w (rw (get-retain p j d m) at e))
