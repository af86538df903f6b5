-- ===== src/Transcript/Replay/Start.antt =====
-- The byte range of a page begins where a span of the index begins (transcriptindex/index.go).
use cccode_macbridge.Base.{
  ℕ, zero, suc, ◌+◌, ◌-◌, ◌≡◌, refl, Bool, false, ◌||◌, ◌⊎◌, inl, inr, some, List, [], ◌∷◌, ◌++◌,
  ltb, Bool-cases,
}
use mathlib.Core.Path.{subst}
use mathlib.Core.Option.{some-injective}
use cccode_macbridge.Transcript.{LogicalMessageSpan, ByteRange}
use cccode_macbridge.Transcript.Union.{
  lower, raise, hull, is_disjoint, absorb, is_moved, one_round, grow, top, union_from,
  span_byte_union,
}

abbrev pub Starts : ℕ → List LogicalMessageSpan → Type 0
Starts n [] = ⊥
Starts n (s ∷ ss) = (s.replay_start ≡ n) ⊎ Starts n ss

module _ (P : ℕ → Type 0) where
  abbrev pub Each : List LogicalMessageSpan → Type 0
  Each [] = Unit
  Each (s ∷ ss) = P s.replay_start × Each ss

  lower-P : (s : LogicalMessageSpan) (lo : ℕ) → P s.replay_start → P lo → P (lower s lo)
  lower-P s lo p q = elim (Bool-cases (ltb s.replay_start lo)) [ inl e ↦ rw e p | inr e ↦ rw e q ]

  hull-P :
      (ss : List LogicalMessageSpan) (r : ByteRange) → Each ss → P r.start → P (hull ss r).start
  unfolding hull
  hull-P [] r e p = p
  hull-P (s ∷ ss) r e p =
      hull-P ss (record { start = lower s r.start; end = raise s r.end }) e.1
        (lower-P s r.start e.0 p)

  absorb-P :
      (s : LogicalMessageSpan) (r : ByteRange) → P s.replay_start → P r.start → P (absorb s r).start
  absorb-P s r p q = elim (Bool-cases (is_disjoint s r)) [
    | inl e ↦ rw e q
    | inr e ↦ rw e (lower-P s r.start p q)
  ]

  one_round-P :
      (ss : List LogicalMessageSpan) (r : ByteRange) (moved : Bool)
      → Each ss
      → P r.start
      → P (one_round ss r moved).0.start
  unfolding one_round
  one_round-P [] r moved e p = p
  one_round-P (s ∷ ss) r moved e p =
      one_round-P ss (absorb s r) (moved || is_moved s r) e.1 (absorb-P s r e.0 p)

  grow-P :
      (fuel : ℕ) (all : List LogicalMessageSpan) (r t : ByteRange)
      → Each all
      → P r.start
      → grow fuel all r ≡ some t
      → P t.start
  unfolding grow
  grow-P zero all r t e p h = cc
  grow-P (suc fuel) all r t e p h =
      let after = one_round-P all r false e p in
      elim (Bool-cases (one_round all r false).1) [
        | inl more ↦
            let g : grow fuel all (one_round all r false).0 ≡ some t = rw (grow, more) at h in
            grow-P fuel all (one_round all r false).0 t e after g
        | inr rests ↦
            let g : some (one_round all r false).0 ≡ some t = rw (grow, rests) at h in
            subst (λ (u : ByteRange). P u.start) (some-injective (one_round all r false).0 t g)
              after
      ]

  span_byte_union-P :
      (all : List LogicalMessageSpan) (s : LogicalMessageSpan) (ss : List LogicalMessageSpan)
      (t : ByteRange)
      → Each all
      → Each (s ∷ ss)
      → span_byte_union all (s ∷ ss) ≡ some t
      → P t.start
  unfolding span_byte_union union_from
  span_byte_union-P all s ss t every page h =
      let first : ByteRange = record { start = s.replay_start; end = s.end_offset } in
      let r = hull ss first in
      grow-P (suc (r.start + (top all r.end - r.end))) all r t every (hull-P ss first page.1 page.0)
        h

  pub Each-right : (xs ys : List LogicalMessageSpan) → Each (xs ++ ys) → Each ys
  Each-right [] ys e = e
  Each-right (x ∷ xs) ys e = Each-right xs ys e.1

  pub Each-left : (xs ys : List LogicalMessageSpan) → Each (xs ++ ys) → Each xs
  Each-left [] ys e = tt
  Each-left (x ∷ xs) ys e = (e.0, Each-left xs ys e.1)

Each-cons :
    (s : LogicalMessageSpan) (ss ts : List LogicalMessageSpan)
    → Each (λ n. Starts n ss) ts
    → Each (λ n. Starts n (s ∷ ss)) ts
Each-cons s ss [] e = tt
Each-cons s ss (t ∷ ts) e = (inr e.0, Each-cons s ss ts e.1)

Each-Starts : (ss : List LogicalMessageSpan) → Each (λ n. Starts n ss) ss
Each-Starts [] = tt
Each-Starts (s ∷ ss) = (inl refl, Each-cons s ss ss (Each-Starts ss))

-- The range of a page that stands in the index starts with one of its spans.
pub span_byte_union-Starts :
    (xs : List LogicalMessageSpan) (s : LogicalMessageSpan) (ss ys : List LogicalMessageSpan)
    (t : ByteRange)
    → span_byte_union (xs ++ ((s ∷ ss) ++ ys)) (s ∷ ss) ≡ some t
    → Starts t.start (xs ++ ((s ∷ ss) ++ ys))
span_byte_union-Starts xs s ss ys t h =
    let all = xs ++ ((s ∷ ss) ++ ys) in
    let every = Each-Starts all in
    span_byte_union-P (λ n. Starts n all) all s ss t every
      (Each-left (λ n. Starts n all) (s ∷ ss) ys
        (Each-right (λ n. Starts n all) xs ((s ∷ ss) ++ ys) every))
      h
