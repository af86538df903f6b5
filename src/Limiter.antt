-- ===== src/Limiter.antt =====
-- relay-server/internal/relay/limiter.go: the relay's request limiter. Times and durations are
-- nanoseconds, and the zero `time.Time` is 0, so `now.Sub(x) >= d` reads `x + d <= now` for
-- durations that are not negative. A limit or a size of 0 stands for every `<= 0`. Each method is
-- one step, since it holds the mutex.
pub mod Bounds
pub mod Config
pub mod Windows
pub mod Fresh
mod Tests
use cccode_macbridge.Base.{
  ℕ, zero, suc, ◌+◌, ◌-◌, ◌*◌, ◌%◌, ◌^◌, String, Bool, true, false, not, ◌&&◌, ◌||◌, Option, none,
  some, List, [], ◌∷◌, ltb, leb, ◌==◌, if◌then◌else◌, inc64, length, str_eq,
}
use cccode_macbridge.Base.Dict.{Dict, get, put, retain}

pub record RateBucket : Type 0 where
  pub window : ℕ
  pub count : ℕ

pub record RateLimiter : Type 0 where
  pub limit : ℕ
  pub interval : ℕ
  pub bucket_ttl : ℕ
  pub max_buckets : ℕ
  pub last_cleanup : ℕ
  pub buckets : Dict RateBucket
  pub rate_denied : ℕ
  pub capacity_denied : ℕ
  pub cleaned : ℕ

pub record RateLimiterStats : Type 0 where
  pub buckets : ℕ
  pub rate_denied : ℕ
  pub capacity_denied : ℕ
  pub cleaned : ℕ

unfoldable pub new_bounded_rate_limiter : ℕ → ℕ → ℕ → ℕ → RateLimiter
new_bounded_rate_limiter limit interval max_buckets bucket_ttl = record {
  limit = limit;
  interval = interval;
  bucket_ttl = if ltb bucket_ttl interval then 2 * interval else bucket_ttl;
  max_buckets = if max_buckets == 0 then 4096 else max_buckets;
  last_cleanup = 0;
  buckets = [];
  rate_denied = 0;
  capacity_denied = 0;
  cleaned = 0;
}

unfoldable pub new_rate_limiter : ℕ → ℕ → RateLimiter
unfolding new_bounded_rate_limiter
new_rate_limiter limit interval = new_bounded_rate_limiter limit interval 4096 (2 * interval)

-- now.Sub(start) >= span
abbrev pub has_passed : ℕ → ℕ → ℕ → Bool
has_passed now start span = leb (start + span) now

unfoldable pub cleanup_locked : RateLimiter → ℕ → RateLimiter
cleanup_locked l now = record l {
  buckets = retain (λ b. not (has_passed now b.window l.bucket_ttl)) l.buckets;
  cleaned =
      (l.cleaned
        + (length l.buckets
            - length (retain (λ b. not (has_passed now b.window l.bucket_ttl)) l.buckets)))
      % 2 ^ 64;
  last_cleanup = now;
}

-- The cleanup at the head of `Allow`.
unfoldable pub cleanup_if_due : RateLimiter → ℕ → RateLimiter
cleanup_if_due l now =
    if l.last_cleanup == 0 || has_passed now l.last_cleanup l.interval
    then cleanup_locked l now
    else l

-- The zero value that a missing key reads as.
abbrev pub blank : RateBucket
blank = record { window = 0; count = 0 }

-- The bucket of the current window.
abbrev pub current : RateLimiter → ℕ → RateBucket → RateBucket
current l now b =
    if b.window == 0 || has_passed now b.window l.interval
    then record { window = now; count = 0 }
    else b

-- `Allow` once the bucket is known.
unfoldable pub count_request : RateLimiter → String → RateBucket → RateLimiter × Bool
count_request l key b =
    if leb l.limit b.count
    then (record l { buckets = put key b l.buckets; rate_denied = inc64 l.rate_denied }, false)
    else (record l { buckets = put key (record b { count = b.count + 1 }) l.buckets }, true)

-- `Allow` after the cleanup, by what `l.buckets[key]` holds.
unfoldable pub admit : RateLimiter → String → ℕ → Option RateBucket → RateLimiter × Bool
admit l key now (some b) = count_request l key (current l now b)
admit l key now none =
    if leb l.max_buckets (length l.buckets)
    then (record l { capacity_denied = inc64 l.capacity_denied }, false)
    else count_request l key (current l now blank)

unfoldable pub allow : RateLimiter → String → ℕ → RateLimiter × Bool
allow l key now =
    let swept = cleanup_if_due l now in
    if l.limit == 0 then (l, true) else admit swept key now (get key swept.buckets)

-- `Allow` on a limiter that may be `nil`.
unfoldable pub allow_nil : Option RateLimiter → String → ℕ → Option RateLimiter × Bool
unfolding allow
allow_nil none key now = (none, true)
allow_nil (some l) key now = let (l', answer) = allow l key now in (some l', answer)

unfoldable pub stats : Option RateLimiter → RateLimiterStats
stats none = record { buckets = 0; rate_denied = 0; capacity_denied = 0; cleaned = 0 }
stats (some l) = record {
  buckets = length l.buckets;
  rate_denied = l.rate_denied;
  capacity_denied = l.capacity_denied;
  cleaned = l.cleaned;
}

-- A history of calls of `Allow`, each with its key and time.
unfoldable pub run : RateLimiter → List (String × ℕ) → RateLimiter
run l [] = l
run l ((key, now) ∷ cs) = run (allow l key now).0 cs

-- How many of the calls for a key are allowed.
unfoldable pub granted : String → RateLimiter → List (String × ℕ) → ℕ
granted k l [] = 0
granted k l ((key, now) ∷ cs) =
    granted k (allow l key now).0 cs + (if str_eq key k && (allow l key now).1 then 1 else 0)
