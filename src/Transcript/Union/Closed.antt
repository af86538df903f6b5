-- ===== src/Transcript/Union/Closed.antt =====
-- The loop of spanByteUnion (transcriptindex/index.go) ends, with the least closed range.
use mathlib.Core.Path.{subst}
use cccode_macbridge.Base.{
  ℕ, zero, suc, ◌+◌, ◌-◌, ◌≤◌, ◌<◌, ◌≡◌, refl, ap, ◌∙◌, Bool, true, false, ◌||◌, inl, inr, ◌⊎◌,
  some, List, [], ◌∷◌, arith, leb, Bool-cases, or_false, or_true,
}
use cccode_macbridge.Transcript.{LogicalMessageSpan, ByteRange}
use cccode_macbridge.Transcript.Union.{
  lower, raise, hull, is_disjoint, absorb, is_moved, one_round, grow, top, union_from,
  span_byte_union,
}

-- The span lies in the range.
abbrev pub Inside : ByteRange → LogicalMessageSpan → Type 0
Inside r s = (r.start ≤ s.replay_start) × (s.end_offset ≤ r.end)

abbrev pub Apart : ByteRange → LogicalMessageSpan → Type 0
Apart r s = (s.end_offset ≤ r.start) ⊎ (r.end ≤ s.replay_start)

-- Every span lies in the range or apart from it.
abbrev pub Closed : List LogicalMessageSpan → ByteRange → Type 0
Closed [] r = Unit
Closed (s ∷ ss) r = (Inside r s ⊎ Apart r s) × Closed ss r

abbrev pub AllInside : List LogicalMessageSpan → ByteRange → Type 0
AllInside [] r = Unit
AllInside (s ∷ ss) r = Inside r s × AllInside ss r

abbrev pub Within : ByteRange → ByteRange → Type 0
Within r t = (t.start ≤ r.start) × (r.end ≤ t.end)

Apart-of : (s : LogicalMessageSpan) (r : ByteRange) → is_disjoint s r ≡ true → Apart r s
Apart-of s r h = elim (Bool-cases (leb s.end_offset r.start)) [
  | inl before ↦ inl (ground arith)
  | inr other ↦ inr (ground arith)
]

absorb_still :
    (s : LogicalMessageSpan) (r : ByteRange)
    → is_moved s r ≡ false
    → (absorb s r ≡ r) × (Inside r s ⊎ Apart r s)
absorb_still s r e = elim (Bool-cases (is_disjoint s r)) [
  | inl apart ↦ (rw apart refl, inr (Apart-of s r apart))
  | inr near ↦ (ground (arith, near), inl (ground (arith, near)))
]

-- Without a move, the round left the range alone and every span is inside or apart.
one_round_still :
    (ss : List LogicalMessageSpan) (r : ByteRange) (moved : Bool)
    → (one_round ss r moved).1 ≡ false
    → (moved ≡ false) × ((one_round ss r moved).0 ≡ r) × Closed ss r
unfolding one_round
one_round_still [] r moved e = (e, refl, tt)
one_round_still (s ∷ ss) r moved e =
    let (unmoved, same, closed) = one_round_still ss (absorb s r) (moved || is_moved s r) e in
    let (before, now) = or_false moved (is_moved s r) unmoved in
    let (p, h) = absorb_still s r now in (before, same ∙ p, (h, subst (Closed ss) p closed))

module _ (bound : ℕ) where
  abbrev pub AllBelow : List LogicalMessageSpan → Type 0
  AllBelow [] = Unit
  AllBelow (s ∷ ss) = (s.end_offset ≤ bound) × AllBelow ss

  -- What falls with each round that moves the range.
  abbrev measure : ByteRange → ℕ
  measure r = r.start + (bound - r.end)

  absorb-below :
      (s : LogicalMessageSpan) (r : ByteRange)
      → s.end_offset ≤ bound
      → r.end ≤ bound
      → ((absorb s r).end ≤ bound)
        × (measure (absorb s r) ≤ measure r)
        × (is_moved s r ≡ true → measure (absorb s r) < measure r)
  absorb-below s r h k = (ground arith, ground arith, λ e. ground arith)

  one_round-below :
      (ss : List LogicalMessageSpan) (r : ByteRange) (moved : Bool)
      → AllBelow ss
      → r.end ≤ bound
      → ((one_round ss r moved).0.end ≤ bound)
        × (measure (one_round ss r moved).0 ≤ measure r)
        × ((one_round ss r moved).1 ≡ true
            → (moved ≡ true) ⊎ (measure (one_round ss r moved).0 < measure r))
  unfolding one_round
  one_round-below [] r moved b k = (k, omega arith, λ e. inl e)
  one_round-below (s ∷ ss) r moved b k =
      let (end, small, less) = absorb-below s r b.0 k in
      let (end', small', less') = one_round-below ss (absorb s r) (moved || is_moved s r) b.1 end in
      (
        end',
        omega (arith, small, small'),
        λ e. elim (less' e) [
          | inl any ↦ elim (or_true moved (is_moved s r) any) [
            | inl before ↦ inl before
            | inr now ↦ inr (omega (arith, less now, small'))
          ]
          | inr later ↦ inr (omega (arith, later, small))
        ],
      )

one_round-grows :
    (ss : List LogicalMessageSpan) (r : ByteRange) (moved : Bool)
    → Within r (one_round ss r moved).0
unfolding one_round
one_round-grows [] r moved = (omega arith, omega arith)
one_round-grows (s ∷ ss) r moved =
    let (a, b) = one_round-grows ss (absorb s r) (moved || is_moved s r) in
    (ground (arith, a), ground (arith, b))

absorb-Within :
    (s : LogicalMessageSpan) (r t : ByteRange)
    → Inside t s ⊎ Apart t s
    → Within r t
    → Within (absorb s r) t
absorb-Within s r t (inl inside) w = (ground arith, ground arith)
absorb-Within s r t (inr (inl before)) w = (ground arith, ground arith)
absorb-Within s r t (inr (inr behind)) w = (ground arith, ground arith)

-- A closed range that holds the range holds what the round makes of it.
one_round-Within :
    (ss : List LogicalMessageSpan) (r t : ByteRange) (moved : Bool)
    → Closed ss t
    → Within r t
    → Within (one_round ss r moved).0 t
unfolding one_round
one_round-Within [] r t moved c w = w
one_round-Within (s ∷ ss) r t moved c w =
    one_round-Within ss (absorb s r) t (moved || is_moved s r) c.1 (absorb-Within s r t c.0 w)

-- The least closed range that holds another.
pub record IsClosure (all : List LogicalMessageSpan) (r t : ByteRange) : Type 0 where
  pub closed : Closed all t
  pub holds : Within r t
  pub least : (u : ByteRange) → Closed all u → Within r u → Within t u

grow_lem :
    (bound fuel : ℕ) (all : List LogicalMessageSpan) (r : ByteRange)
    → AllBelow bound all
    → r.end ≤ bound
    → measure bound r < fuel
    → (t : ByteRange) × (grow fuel all r ≡ some t) × IsClosure all r t
unfolding grow
grow_lem bound zero all r b k f = absurd (omega arith)
grow_lem bound (suc fuel) all r b k f = elim (Bool-cases (one_round all r false).1) [
  | inr still ↦
      let (_, same, closed) = one_round_still all r false still in
      (
        r,
        rw (still, grow) (ap some same),
        record { closed = closed; holds = (omega arith, omega arith); least = λ u c w. w },
      )
  | inl moved ↦
      let (end, _, less) = one_round-below bound all r false b k in
      let next = (one_round all r false).0 in
      let smaller : measure bound next < measure bound r = elim (less moved) [
        | inl e ↦ absurd (cc e)
        | inr h ↦ h
      ] in
      let (t, result, v) = grow_lem bound fuel all next b end (omega (arith, smaller)) in
      let (a, c) = one_round-grows all r false in
      (
        t,
        rw (moved, grow) result,
        record {
          closed = v.closed;
          holds = (omega (arith, a, v.holds), omega (arith, c, v.holds));
          least = λ u d w. v.least u d (one_round-Within all r u false d w);
        },
      )
]

top-ge : (ss : List LogicalMessageSpan) (hi : ℕ) → (hi ≤ top ss hi) × AllBelow (top ss hi) ss
unfolding top
top-ge [] hi = (omega arith, tt)
top-ge (s ∷ ss) hi =
    let (a, b) = top-ge ss (raise s hi) in (ground (arith, a), (ground (arith, a), b))

union_from_lem :
    (all : List LogicalMessageSpan) (r : ByteRange)
    → (t : ByteRange) × (union_from all r ≡ some t) × IsClosure all r t
unfolding union_from
union_from_lem all r =
    grow_lem (top all r.end) (suc (r.start + (top all r.end - r.end))) all r (top-ge all r.end).1
      (top-ge all r.end).0 (omega arith)

hull_lem :
    (ss : List LogicalMessageSpan) (r : ByteRange)
    → Within r (hull ss r)
      × AllInside ss (hull ss r)
      × ((u : ByteRange) → AllInside ss u → Within r u → Within (hull ss r) u)
unfolding hull
hull_lem [] r = ((omega arith, omega arith), tt, λ u a w. w)
hull_lem (s ∷ ss) r =
    let (w, inside, least) =
      hull_lem ss (record { start = lower s r.start; end = raise s r.end }) in
    (
      (ground (arith, w), ground (arith, w)),
      ((ground (arith, w), ground (arith, w)), inside),
      λ u a v. least u a.1 (ground (arith, a.0, v), ground (arith, a.0, v)),
    )

AllInside-Within :
    (ss : List LogicalMessageSpan) (r t : ByteRange) → Within r t → AllInside ss r → AllInside ss t
AllInside-Within [] r t w a = tt
AllInside-Within (s ∷ ss) r t w a =
    ((omega (arith, a.0, w), omega (arith, a.0, w)), AllInside-Within ss r t w a.1)

-- For a page that is not empty, the loop of spanByteUnion ends within the fuel it is given here,
-- and the range holds every span of the page, no span of the index lies across its bounds, and
-- every other range with these two properties holds it.
pub span_byte_union_lem :
    (all : List LogicalMessageSpan) (s : LogicalMessageSpan) (ss : List LogicalMessageSpan)
    → (t : ByteRange) × (span_byte_union all (s ∷ ss) ≡ some t)
      × AllInside (s ∷ ss) t
      × Closed all t
      × ((u : ByteRange) → Closed all u → AllInside (s ∷ ss) u → Within t u)
unfolding span_byte_union
span_byte_union_lem all s ss =
    let first : ByteRange = record { start = s.replay_start; end = s.end_offset } in
    let (w, inside, least) = hull_lem ss first in
    let (t, result, v) = union_from_lem all (hull ss first) in
    (
      t,
      result,
      (
        (omega (arith, w, v.holds), omega (arith, w, v.holds)),
        AllInside-Within ss (hull ss first) t v.holds inside,
      ),
      v.closed,
      λ u c a. v.least u c (least u a.1 a.0),
    )
