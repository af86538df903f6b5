-- ===== src/Limiter/Config.antt =====
-- relay-server/internal/relay/limiter.go: what no call of `Allow` changes.
use cccode_macbridge.Base.{
  ◌+◌, inc64, ℕ, ◌≤◌, ◌≡◌, refl, String, ◌||◌, List, [], ◌∷◌, inl, inr, arith, length, leb, ◌==◌,
  Bool-cases, Option-cases,
}
use cccode_macbridge.Base.Dict.{put, get, IsMap, put-IsMap, retain-IsMap}
use cccode_macbridge.Limiter.{
  RateBucket, RateLimiter, new_bounded_rate_limiter, has_passed, cleanup_locked, cleanup_if_due,
  current, blank, count_request, admit, allow, run,
}

-- A limiter with this limit and interval that keeps its buckets for at least an interval.
pub record IsFor (limit interval : ℕ) (l : RateLimiter) : Type 0 where
  pub limit_kept : l.limit ≡ limit
  pub interval_kept : l.interval ≡ interval
  pub long_lived : interval ≤ l.bucket_ttl
  pub is_map : IsMap l.buckets

module _ {limit interval : ℕ} (l : RateLimiter) (v : IsFor limit interval l) where
  cleanup_locked-IsFor : (now : ℕ) → IsFor limit interval (cleanup_locked l now)
  unfolding cleanup_locked
  cleanup_locked-IsFor now = record {
    limit_kept = v.limit_kept;
    interval_kept = v.interval_kept;
    long_lived = v.long_lived;
    is_map = retain-IsMap _ l.buckets v.is_map;
  }

  pub cleanup_if_due-IsFor : (now : ℕ) → IsFor limit interval (cleanup_if_due l now)
  unfolding cleanup_if_due
  cleanup_if_due-IsFor now =
      elim (Bool-cases (l.last_cleanup == 0 || has_passed now l.last_cleanup l.interval)) [
        | inl e ↦ rw e (cleanup_locked-IsFor now)
        | inr e ↦ rw e v
      ]

  count_request-IsFor : (j : String) (b : RateBucket) → IsFor limit interval (count_request l j b).0
  unfolding count_request
  count_request-IsFor j b = elim (Bool-cases (leb l.limit b.count)) [
    | inl e ↦ rw e (stored b (inc64 l.rate_denied))
    | inr e ↦ rw e (stored (record b { count = b.count + 1 }) l.rate_denied)
  ]
    where
      stored :
          (c : RateBucket) (r : ℕ)
          → IsFor limit interval (record l { buckets = put j c l.buckets; rate_denied = r })
      stored c r = record {
        limit_kept = v.limit_kept;
        interval_kept = v.interval_kept;
        long_lived = v.long_lived;
        is_map = put-IsMap j c l.buckets v.is_map;
      }

  admit-IsFor : (j : String) (now : ℕ) → IsFor limit interval (admit l j now (get j l.buckets)).0
  unfolding admit
  admit-IsFor j now = elim (Option-cases (get j l.buckets)) [
    | inl e ↦ elim (Bool-cases (leb l.max_buckets (length l.buckets))) [
      | inl full ↦
          rw (e, full)
            (record {
              limit_kept = v.limit_kept;
              interval_kept = v.interval_kept;
              long_lived = v.long_lived;
              is_map = v.is_map;
            })
      | inr free ↦ rw (e, free) (count_request-IsFor j (current l now blank))
    ]
    | inr (b, e) ↦ rw e (count_request-IsFor j (current l now b))
  ]

module _ {limit interval : ℕ} where
  pub allow-IsFor :
      (l : RateLimiter) (j : String) (now : ℕ)
      → IsFor limit interval l
      → IsFor limit interval (allow l j now).0
  unfolding allow
  allow-IsFor l j now v = elim (Bool-cases (l.limit == 0)) [
    | inl e ↦ rw e v
    | inr e ↦ rw e (admit-IsFor (cleanup_if_due l now) (cleanup_if_due-IsFor l v now) j now)
  ]

  pub run-IsFor :
      (l : RateLimiter) (cs : List (String × ℕ))
      → IsFor limit interval l
      → IsFor limit interval (run l cs)
  unfolding run
  run-IsFor l [] v = v
  run-IsFor l ((j, now) ∷ cs) v = run-IsFor (allow l j now).0 cs (allow-IsFor l j now v)

-- The constructor raises a `bucketTTL` below the interval to two intervals.
pub new_bounded_rate_limiter-IsFor :
    (limit interval max_buckets bucket_ttl : ℕ)
    → IsFor limit interval (new_bounded_rate_limiter limit interval max_buckets bucket_ttl)
unfolding new_bounded_rate_limiter
new_bounded_rate_limiter-IsFor limit interval max_buckets bucket_ttl = record {
  limit_kept = refl;
  interval_kept = refl;
  long_lived = ground arith;
  is_map = tt;
}
