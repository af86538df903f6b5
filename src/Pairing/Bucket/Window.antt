-- ===== src/Pairing/Bucket/Window.antt =====
-- The sliding window of go-bridge/pairing_hardening.go, against the list of all granted times.
use cccode_macbridge.Base.{
  ℕ, ◌+◌, ◌≤◌, ◌<◌, ◌≡◌, ◌∙◌, ap, refl, ◌&&◌, List, [], ◌∷◌, ◌++◌, arith, leb, if◌then◌else◌,
  length, keep, keep-append,
}
use cccode_macbridge.Pairing.Bucket.{is_fresh}

-- The granted times in the window that ends at `at`.
abbrev pub in_window : ℕ → ℕ → List ℕ → List ℕ
in_window window at = keep (λ s. is_fresh at window s && leb s at)

abbrev pub AtMost : ℕ → List ℕ → Type 0
AtMost n [] = Unit
AtMost n (s ∷ ss) = (s ≤ n) × AtMost n ss

AtMost-mono : (m n : ℕ) (ss : List ℕ) → m ≤ n → AtMost m ss → AtMost n ss
AtMost-mono m n [] h a = tt
AtMost-mono m n (s ∷ ss) h a = (omega arith, AtMost-mono m n ss h a.1)

AtMost-append : (n : ℕ) (ss : List ℕ) → AtMost n ss → AtMost n (ss ++ (n ∷ []))
AtMost-append n [] a = (omega arith, tt)
AtMost-append n (s ∷ ss) a = (a.0, AtMost-append n ss a.1)

module _ (window : ℕ) where
  pub keep_fresh_twice :
      (last now : ℕ) (ss : List ℕ)
      → last ≤ now
      → keep (is_fresh now window) (keep (is_fresh last window) ss) ≡ keep (is_fresh now window) ss
  keep_fresh_twice last now [] h = refl
  keep_fresh_twice last now (s ∷ ss) h = ground (arith, keep_fresh_twice last now ss h)

  in_window-le-fresh :
      (now at : ℕ) (ss : List ℕ)
      → now ≤ at
      → length (in_window window at ss) ≤ length (keep (is_fresh now window) ss)
  in_window-le-fresh now at [] h = omega arith
  in_window-le-fresh now at (s ∷ ss) h = ground (arith, in_window-le-fresh now at ss h)

  in_window-append :
      (now at : ℕ) (ss : List ℕ)
      → length (in_window window at (ss ++ (now ∷ [])))
        ≤ length (in_window window at ss) + (if leb now at then 1 else 0)
  in_window-append now at [] = ground arith
  in_window-append now at (s ∷ ss) = ground (arith, in_window-append now at ss)

-- What the stamps of a bucket are, after calls up to the time `last` that granted `past`.
pub record Tracks (window limit last : ℕ) (past counts : List ℕ) : Type 0 where
  pub recent : counts ≡ keep (is_fresh last window) past
  pub ended : AtMost last past
  pub limited : (at : ℕ) → length (in_window window at past) ≤ limit

module _ (window limit : ℕ) where
  pub Tracks-new : Tracks window limit 0 [] []
  Tracks-new = record { recent = refl; ended = tt; limited = λ at. omega arith }

  -- Time passes, and the stale stamps go.
  pub Tracks-fresh :
      (last now : ℕ) (past counts : List ℕ)
      → last ≤ now
      → Tracks window limit last past counts
      → Tracks window limit now past (keep (is_fresh now window) counts)
  Tracks-fresh last now past counts h v = record {
    recent = ap (keep (is_fresh now window)) v.recent ∙ keep_fresh_twice window last now past h;
    ended = AtMost-mono last now past h v.ended;
    limited = v.limited;
  }

  -- A stamp is added where there is room for it.
  pub Tracks-append :
      (now : ℕ) (past counts : List ℕ)
      → length counts < limit
      → Tracks window limit now past counts
      → 0 < window
      → Tracks window limit now (past ++ (now ∷ [])) (counts ++ (now ∷ []))
  Tracks-append now past counts h v w = record {
    recent = rw (keep-append (is_fresh now window) past, v.recent) (ground arith);
    ended = AtMost-append now past v.ended;
    limited = λ at. ground (
      arith,
      v.limited at,
      in_window-append window now at past,
      in_window-le-fresh window now at past,
      ap (length {A = ℕ}) v.recent,
    );
  }
