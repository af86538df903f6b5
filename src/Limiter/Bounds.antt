-- ===== src/Limiter/Bounds.antt =====
-- relay-server/internal/relay/limiter.go: the limiter's table stays bounded.
use cccode_macbridge.Base.{
  refl, if◌then◌else◌, ℕ, ◌+◌, ◌≤◌, ◌≡◌, String, not, ◌||◌, List, [], ◌∷◌, inl, inr, arith, length,
  leb, ◌==◌, inc64, Bool-cases, Option-cases,
}
use cccode_macbridge.Base.Dict.{
  get, put, IsMap, put-IsMap, retain-IsMap, size_put, length-put, length-retain-le, Every,
  empty-Every, put-Every, retain-Every,
}
use cccode_macbridge.Limiter.{
  blank, RateBucket, RateLimiter, new_bounded_rate_limiter, has_passed, cleanup_locked,
  cleanup_if_due, current, count_request, admit, allow, run,
}

-- What every state of a limiter keeps: at most one bucket for a key, at most `max_buckets` of
-- them, and in each a count of at most `limit`.
pub record IsBounded (limit max_buckets : ℕ) (l : RateLimiter) : Type 0 where
  pub limit_kept : l.limit ≡ limit
  pub max_kept : l.max_buckets ≡ max_buckets
  pub is_map : IsMap l.buckets
  pub roomy : length l.buckets ≤ max_buckets
  pub counted : Every (λ _ b. b.count ≤ limit) l.buckets

module _ {limit max_buckets : ℕ} where
  cleanup_locked-IsBounded :
      (l : RateLimiter) (now : ℕ)
      → IsBounded limit max_buckets l
      → IsBounded limit max_buckets (cleanup_locked l now)
  unfolding cleanup_locked
  cleanup_locked-IsBounded l now v = record {
    limit_kept = v.limit_kept;
    max_kept = v.max_kept;
    is_map = retain-IsMap _ l.buckets v.is_map;
    roomy = omega (
      arith,
      length-retain-le (λ b. not (has_passed now b.window l.bucket_ttl)) l.buckets,
      v.roomy,
    );
    counted = retain-Every _ _ l.buckets v.is_map v.counted;
  }

  cleanup_if_due-IsBounded :
      (l : RateLimiter) (now : ℕ)
      → IsBounded limit max_buckets l
      → IsBounded limit max_buckets (cleanup_if_due l now)
  unfolding cleanup_if_due
  cleanup_if_due-IsBounded l now v =
      elim (Bool-cases (l.last_cleanup == 0 || has_passed now l.last_cleanup l.interval)) [
        | inl e ↦ rw e (cleanup_locked-IsBounded l now v)
        | inr e ↦ rw e v
      ]

  module _ (l : RateLimiter) (key : String) (v : IsBounded limit max_buckets l) where
    put-IsBounded :
        (b : RateBucket) (r : ℕ)
        → b.count ≤ limit
        → size_put (get key l.buckets) (length l.buckets) ≤ max_buckets
        → IsBounded limit max_buckets (record l { buckets = put key b l.buckets; rate_denied = r })
    put-IsBounded b r small room = record {
      limit_kept = v.limit_kept;
      max_kept = v.max_kept;
      is_map = put-IsMap key b l.buckets v.is_map;
      roomy = omega (arith, length-put key b l.buckets, room);
      counted = put-Every _ key b l.buckets small v.counted;
    }

    count_request-IsBounded :
        (b : RateBucket)
        → b.count ≤ limit
        → size_put (get key l.buckets) (length l.buckets) ≤ max_buckets
        → IsBounded limit max_buckets (count_request l key b).0
    unfolding count_request
    count_request-IsBounded b small room = elim (Bool-cases (leb l.limit b.count)) [
      | inl e ↦ rw e (put-IsBounded b (inc64 l.rate_denied) small room)
      | inr e ↦ rw e (
          put-IsBounded (record b { count = b.count + 1 }) l.rate_denied
            (ground (arith, v.limit_kept)) room)
    ]

    current_small : (now : ℕ) (b : RateBucket) → b.count ≤ limit → (current l now b).count ≤ limit
    current_small now b h = ground arith

    admit-IsBounded :
        (now : ℕ) → IsBounded limit max_buckets (admit l key now (get key l.buckets)).0
    unfolding admit
    admit-IsBounded now = elim (Option-cases (get key l.buckets)) [
      | inl e ↦ elim (Bool-cases (leb l.max_buckets (length l.buckets))) [
        | inl full ↦
            rw (e, full)
              (record {
                limit_kept = v.limit_kept;
                max_kept = v.max_kept;
                is_map = v.is_map;
                roomy = v.roomy;
                counted = v.counted;
              })
        | inr free ↦
            rw (e, free)
              (count_request-IsBounded _ (current_small now blank (omega arith))
                (rw e (ground (arith, v.max_kept))))
      ]
      | inr (b, e) ↦ rw e (
          count_request-IsBounded (current l now b) (current_small now b (v.counted key b e))
            (rw e v.roomy))
    ]

  allow-IsBounded :
      (l : RateLimiter) (key : String) (now : ℕ)
      → IsBounded limit max_buckets l
      → IsBounded limit max_buckets (allow l key now).0
  unfolding allow
  allow-IsBounded l key now v = elim (Bool-cases (l.limit == 0)) [
    | inl e ↦ rw e v
    | inr e ↦
        rw e (admit-IsBounded (cleanup_if_due l now) key (cleanup_if_due-IsBounded l now v) now)
  ]

  run_from-IsBounded :
      (l : RateLimiter) (cs : List (String × ℕ))
      → IsBounded limit max_buckets l
      → IsBounded limit max_buckets (run l cs)
  unfolding run
  run_from-IsBounded l [] v = v
  run_from-IsBounded l ((key, now) ∷ cs) v =
      run_from-IsBounded (allow l key now).0 cs (allow-IsBounded l key now v)

-- After any calls of `Allow` on a new limiter there is at most one bucket for a key, there are at
-- most `maxBuckets` buckets (4096 where the argument is not positive), and no count is above the
-- limit.
pub run-IsBounded :
    (limit interval max_buckets bucket_ttl : ℕ) (cs : List (String × ℕ))
    → IsBounded limit
        (if max_buckets == 0 then 4096 else max_buckets)
        (run (new_bounded_rate_limiter limit interval max_buckets bucket_ttl) cs)
unfolding new_bounded_rate_limiter
run-IsBounded limit interval max_buckets bucket_ttl cs = run_from-IsBounded _ cs (record {
  limit_kept = refl;
  max_kept = refl;
  is_map = tt;
  roomy = omega arith;
  counted = empty-Every _;
})
