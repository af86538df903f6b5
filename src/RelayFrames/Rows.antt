-- ===== src/RelayFrames/Rows.antt =====
-- The rows of relay-server/internal/relay/store.go's mailbox_frames: their order, and the eviction.
use cccode_macbridge.Base.{
  ℕ, suc, ◌+◌, ◌-◌, ◌≤◌, ◌<◌, ◌≡◌, refl, ap, ◌∙◌, Bool, false, not, inl, inr, some, List, [], ◌∷◌,
  ◌++◌, arith, leb, lt_of_leb, leb→le, length, keep, total, Bool-cases,
}
use cccode_macbridge.RelayFrames.{FrameRow, is_waiting, count_evicted, evict, insert_row}

-- The cursors ascend strictly, from `low` on and below `high`.
abbrev pub Ascends : ℕ → List FrameRow → ℕ → Type 0
Ascends low [] high = low ≤ high
Ascends low (f ∷ fs) high = (low ≤ f.cursor) × Ascends (f.cursor + 1) fs high

pub Ascends-lower :
    (low lower high : ℕ) (fs : List FrameRow)
    → lower ≤ low
    → Ascends low fs high
    → Ascends lower fs high
Ascends-lower low lower high [] h a = omega arith
Ascends-lower low lower high (f ∷ fs) h a = (omega (arith, a.0), a.1)

pub Ascends-keep :
    (p : FrameRow → Bool) (low high : ℕ) (fs : List FrameRow)
    → Ascends low fs high
    → Ascends low (keep p fs) high
Ascends-keep p low high [] a = a
Ascends-keep p low high (f ∷ fs) a = elim (Bool-cases (p f)) [
  | inl stays ↦ rw stays (a.0, Ascends-keep p (f.cursor + 1) high fs a.1)
  | inr goes ↦ rw goes (
      Ascends-lower (f.cursor + 1) low high (keep p fs) (omega (arith, a.0))
        (Ascends-keep p (f.cursor + 1) high fs a.1))
]

pub Ascends-suffix :
    (low high : ℕ) (dropped kept : List FrameRow)
    → Ascends low (dropped ++ kept) high
    → Ascends low kept high
Ascends-suffix low high [] kept a = a
Ascends-suffix low high (f ∷ fs) kept a =
    Ascends-lower (f.cursor + 1) low high kept (omega (arith, a.0))
      (Ascends-suffix (f.cursor + 1) high fs kept a.1)

pub Ascends-append :
    (low : ℕ) (f : FrameRow) (fs : List FrameRow)
    → Ascends low fs f.cursor
    → Ascends low (fs ++ (f ∷ [])) (f.cursor + 1)
Ascends-append low f [] a = (a, omega arith)
Ascends-append low f (g ∷ gs) a = (a.0, Ascends-append (g.cursor + 1) f gs a.1)

Ascends-high : (low high : ℕ) (fs : List FrameRow) → Ascends low fs high → low ≤ high
Ascends-high low high [] a = a
Ascends-high low high (f ∷ fs) a = omega (arith, a.0, Ascends-high (f.cursor + 1) high fs a.1)

-- A row with a cursor above all others goes to the end.
pub insert_row_last :
    (low : ℕ) (f : FrameRow) (fs : List FrameRow)
    → Ascends low fs f.cursor
    → insert_row f fs ≡ some (fs ++ (f ∷ []))
unfolding insert_row
insert_row_last low f [] a = refl
insert_row_last low f (g ∷ gs) a =
    rw (insert_row_last (g.cursor + 1) f gs a.1)
      (ground (arith, Ascends-high (g.cursor + 1) f.cursor gs a.1))

abbrev pub Pending : List FrameRow → Type 0
Pending [] = Unit
Pending (f ∷ fs) = (f.acked ≡ false) × Pending fs

pub keep-Pending : (now : ℕ) (fs : List FrameRow) → Pending (keep (is_waiting now) fs)
keep-Pending now [] = tt
keep-Pending now (f ∷ fs) = ground (arith, keep-Pending now fs)

pub keep_unacked : (fs : List FrameRow) → Pending fs → keep (λ f. not f.acked) fs ≡ fs
keep_unacked [] p = refl
keep_unacked (f ∷ fs) p = ground (arith, p.0, keep_unacked fs p.1)

-- Each dropped row had to go: with it and all after it, the new frame did not fit.
abbrev pub Needed : ℕ → ℕ → List FrameRow → List FrameRow → Type 0
Needed size max_bytes [] kept = Unit
Needed size max_bytes (f ∷ fs) kept =
    (max_bytes < f.size + total (λ g. g.size) (fs ++ kept) + size) × Needed size max_bytes fs kept

-- What the eviction drops and keeps.
pub record IsEvicted (size max_bytes : ℕ) (fs : List FrameRow) : Type 0 where
  pub dropped : List FrameRow
  pub kept : List FrameRow
  pub split : fs ≡ dropped ++ kept
  pub needed : Needed size max_bytes dropped kept
  pub fits : total (λ g. g.size) kept + size ≤ max_bytes
  pub result : evict size max_bytes fs (total (λ g. g.size) fs) ≡ some (kept, length dropped)

plus_one : (n : ℕ) → n + 1 ≡ suc n
plus_one n = omega arith

minus_first : (a b : ℕ) → a + b - a ≡ b
minus_first a b = omega arith

evict-cons :
    (size max_bytes : ℕ) (f : FrameRow) (fs kept : List FrameRow) (n : ℕ)
    → f.acked ≡ false
    → leb (total (λ g. g.size) (f ∷ fs) + size) max_bytes ≡ false
    → evict size max_bytes fs (total (λ g. g.size) fs) ≡ some (kept, n)
    → evict size max_bytes (f ∷ fs) (total (λ g. g.size) (f ∷ fs)) ≡ some (kept, n + 1)
unfolding evict count_evicted
evict-cons size max_bytes f fs kept n live over e =
    rw (over, live)
      (ap (λ c. count_evicted 1 (evict size max_bytes fs c))
          (minus_first f.size (total (λ g. g.size) fs))
        ∙ ap (count_evicted 1) e)

pub evict_lem :
    (size max_bytes : ℕ) (fs : List FrameRow)
    → size ≤ max_bytes
    → Pending fs
    → IsEvicted size max_bytes fs
unfolding evict count_evicted
evict_lem size max_bytes [] h p = record {
  dropped = [];
  kept = [];
  split = refl;
  needed = tt;
  fits = omega arith;
  result = ground arith;
}
evict_lem size max_bytes (f ∷ fs) h p =
    elim (Bool-cases (leb (total (λ g. g.size) (f ∷ fs) + size) max_bytes)) [
      | inl enough ↦ record {
        dropped = [];
        kept = f ∷ fs;
        split = refl;
        needed = tt;
        fits = leb→le (total (λ g. g.size) (f ∷ fs) + size) max_bytes enough;
        result = rw enough refl;
      }
      | inr over ↦
          let v = evict_lem size max_bytes fs h p.1 in
          record {
            dropped = f ∷ v.dropped;
            kept = v.kept;
            split = ap (λ gs. f ∷ gs) v.split;
            needed = (
              omega (
                arith,
                lt_of_leb (total (λ g. g.size) (f ∷ fs) + size) max_bytes over,
                ap (total (λ (g : FrameRow). g.size)) v.split,
              ),
              v.needed,
            );
            fits = v.fits;
            result =
                evict-cons size max_bytes f fs v.kept (length v.dropped) p.0 over v.result
                ∙ ap (λ (k : ℕ). some (v.kept, k)) (plus_one (length v.dropped));
          }
    ]
