-- ===== src/Limiter/Fresh.antt =====
-- relay-server/internal/relay/limiter.go: what one key is granted in its own window.
use Prim.Native.Nat.{min}
use text.Mathlib.TextPositions.{eq_refl}
use cccode_macbridge.Base.{
  ℕ, ◌+◌, ◌-◌, ◌≤◌, ◌<◌, ◌≡◌, String, true, false, not, none, some, List, [], ◌∷◌, arith, length,
  leb, ◌==◌, if◌then◌else◌,
}
use cccode_macbridge.Base.Dict.{get, get-put_self, get-retain, length-retain-le}
use cccode_macbridge.Limiter.{
  RateBucket, RateLimiter, has_passed, cleanup_locked, cleanup_if_due, current, blank,
  count_request, admit, allow, granted,
}
use cccode_macbridge.Limiter.Config.{IsFor, cleanup_if_due-IsFor, allow-IsFor}

-- Calls for one key only, at times in the span that begins at `t`.
abbrev pub Alone : String → ℕ → ℕ → List (String × ℕ) → Type 0
Alone k t span [] = Unit
Alone k t span ((j, now) ∷ cs) = (j ≡ k) × (t ≤ now) × (now < t + span) × Alone k t span cs

abbrev counted : ℕ → RateBucket → RateBucket
counted limit b = if leb limit b.count then b else record b { count = b.count + 1 }

module _ (t interval limit : ℕ) (k : String) (after_zero : 0 < t) (positive : 0 < limit) where
  module _ (now : ℕ) (from : t ≤ now) (until : now < t + interval) (l : RateLimiter)
      (v : IsFor limit interval l) where
    kept_by_cleanup :
        (b : RateBucket)
        → get k l.buckets ≡ some b
        → t ≤ b.window
        → get k (cleanup_if_due l now).buckets ≡ some b
    unfolding cleanup_if_due cleanup_locked
    kept_by_cleanup b e h = ground (
      arith,
      get-retain (λ c. not (has_passed now c.window l.bucket_ttl)) k l.buckets v.is_map,
      v.long_lived,
    )

    missing_after_cleanup : get k l.buckets ≡ none → get k (cleanup_if_due l now).buckets ≡ none
    unfolding cleanup_if_due cleanup_locked
    missing_after_cleanup e =
        ground
          (arith, get-retain (λ c. not (has_passed now c.window l.bucket_ttl)) k l.buckets v.is_map)

    roomy_after_cleanup :
        length l.buckets < l.max_buckets
        → length (cleanup_if_due l now).buckets < (cleanup_if_due l now).max_buckets
    unfolding cleanup_if_due cleanup_locked
    roomy_after_cleanup h =
        ground (arith, length-retain-le (λ c. not (has_passed now c.window l.bucket_ttl)) l.buckets)

    -- The answer for a bucket of the current window, and the bucket afterwards.
    count_request_lem :
        (b : RateBucket)
        → ((count_request l k b).1 ≡ not (leb limit b.count))
          × (get k (count_request l k b).0.buckets ≡ some (counted limit b))
    unfolding count_request
    count_request_lem b = ground (
      arith,
      v.limit_kept,
      get-put_self k b l.buckets,
      get-put_self k (record b { count = b.count + 1 }) l.buckets,
    )

    current_kept : (b : RateBucket) → t ≤ b.window → current l now b ≡ b
    current_kept b h = ground (arith, v.interval_kept)

    admit_kept :
        (b : RateBucket)
        → t ≤ b.window
        → ((admit l k now (some b)).1 ≡ not (leb limit b.count))
          × (get k (admit l k now (some b)).0.buckets ≡ some (counted limit b))
    unfolding admit
    admit_kept b h = rw (current_kept b h) (count_request_lem b)

    admit_fresh :
        length l.buckets < l.max_buckets
        → ((admit l k now none).1 ≡ true)
          × (get k (admit l k now none).0.buckets ≡ some (record { window = now; count = 1 }))
    unfolding admit
    admit_fresh room =
        let free : leb l.max_buckets (length l.buckets) ≡ false = ground arith in
        let zeroed : current l now blank ≡ record { window = now; count = 0 } = ground arith in
        rw (free, zeroed) (ground (arith, count_request_lem (record { window = now; count = 0 })))

  module _ (now : ℕ) (from : t ≤ now) (until : now < t + interval) (l : RateLimiter)
      (v : IsFor limit interval l) where
    limited : (l.limit == 0) ≡ false
    limited = ground (arith, v.limit_kept)

    allow_kept :
        (b : RateBucket)
        → get k l.buckets ≡ some b
        → t ≤ b.window
        → ((allow l k now).1 ≡ not (leb limit b.count))
          × (get k (allow l k now).0.buckets ≡ some (counted limit b))
    unfolding allow
    allow_kept b e h =
        rw (limited, kept_by_cleanup now from until l v b e h)
          (admit_kept now from until (cleanup_if_due l now) (cleanup_if_due-IsFor l v now) b h)

    allow_fresh :
        get k l.buckets ≡ none
        → length l.buckets < l.max_buckets
        → ((allow l k now).1 ≡ true)
          × (get k (allow l k now).0.buckets ≡ some (record { window = now; count = 1 }))
    unfolding allow
    allow_fresh e room =
        rw (limited, missing_after_cleanup now from until l v e)
          (admit_fresh now from until (cleanup_if_due l now) (cleanup_if_due-IsFor l v now)
            (roomy_after_cleanup now from until l v room))

  granted_kept :
      (l : RateLimiter) (b : RateBucket) (cs : List (String × ℕ))
      → IsFor limit interval l
      → get k l.buckets ≡ some b
      → t ≤ b.window
      → Alone k t interval cs
      → granted k l cs ≡ min (length cs) (limit - b.count)
  unfolding granted
  granted_kept l b [] v e h w = omega arith
  granted_kept l b ((j, now) ∷ cs) v e h w =
      rw (w.0, eq_refl k)
        (let (answer, stored) = allow_kept now w.1 w.2 l v b e h in
          let later : t ≤ (counted limit b).window = ground arith in
          let ih =
            granted_kept (allow l k now).0 (counted limit b) cs (allow-IsFor l k now v) stored later
              w.3 in
          rw answer (ground (arith, ih)))

-- A key that has no bucket, on a limiter that has room for one, is granted exactly the limit: of
-- calls for it alone, at times within one interval, the first as many as the limit are allowed
-- and no more.
granted_fresh :
    (t interval limit : ℕ) (k : String) (l : RateLimiter) (cs : List (String × ℕ))
    → 0 < t
    → 0 < limit
    → IsFor limit interval l
    → get k l.buckets ≡ none
    → length l.buckets < l.max_buckets
    → Alone k t interval cs
    → granted k l cs ≡ min (length cs) limit
unfolding granted
granted_fresh t interval limit k l [] z h v e room w = omega arith
granted_fresh t interval limit k l ((j, now) ∷ cs) z h v e room w =
    rw (w.0, eq_refl k)
      (let (answer, stored) = allow_fresh t interval limit k z h now w.1 w.2 l v e room in
        let ih =
          granted_kept t interval limit k z h (allow l k now).0 (record { window = now; count = 1 })
            cs (allow-IsFor l k now v) stored w.1 w.3 in
        rw answer (omega (arith, ih)))
