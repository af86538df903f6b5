-- ===== src/Limiter/Windows.antt =====
-- relay-server/internal/relay/limiter.go: how many requests of a key pass in a span of time.
use native.Mathlib.Nat.{le_refl, le_trans}
use cccode_macbridge.Base.{
  ℕ, ◌+◌, ◌-◌, ◌*◌, ◌≤◌, ◌<◌, ◌≡◌, String, Bool, true, false, not, ◌&&◌, ◌||◌, Option, none, some,
  List, [], ◌∷◌, inl, inr, arith, length, leb, ltb, ◌==◌, if◌then◌else◌, Bool-cases, Option-cases,
  str_eq, eq_iff,
}
use cccode_macbridge.Base.Dict.{get, hold, get-put, get-retain}
use cccode_macbridge.Limiter.{
  RateBucket, RateLimiter, new_bounded_rate_limiter, has_passed, cleanup_locked, cleanup_if_due,
  current, blank, count_request, admit, allow, run, granted,
}
use cccode_macbridge.Limiter.Config.{
  IsFor, cleanup_if_due-IsFor, allow-IsFor, run-IsFor, new_bounded_rate_limiter-IsFor,
}

-- All the times of a history lie in the span that begins at `t` and lasts `span`.
abbrev pub Within : ℕ → ℕ → List (String × ℕ) → Type 0
Within t span [] = Unit
Within t span ((k, now) ∷ cs) = (t ≤ now) × (now < t + span) × Within t span cs

-- What a key's bucket allows until the span's end: what is left of its window, and one whole
-- window more if that began before the span.
abbrev budget : ℕ → ℕ → Option RateBucket → ℕ
budget t limit none = limit
budget t limit (some b) = if ltb b.window t then (limit - b.count) + limit else limit - b.count

budget-le : (t limit : ℕ) (o : Option RateBucket) → budget t limit o ≤ 2 * limit
budget-le t limit none = omega arith
budget-le t limit (some b) = ground arith

-- What a call for `j` grants `k`.
abbrev gain : String → String → Bool → ℕ
gain j k answer = if str_eq j k && answer then 1 else 0

module _ (t interval limit : ℕ) (after_zero : 0 < t) where
  module _ (now : ℕ) (from : t ≤ now) (until : now < t + interval) where
    hold-budget :
        (ttl : ℕ) (o : Option RateBucket)
        → interval ≤ ttl
        → budget t limit (hold (λ b. not (has_passed now b.window ttl)) o) ≤ budget t limit o
    hold-budget ttl none h = omega arith
    hold-budget ttl (some b) h = ground arith

    current-budget :
        (l : RateLimiter) (b : RateBucket)
        → IsFor limit interval l
        → budget t limit (some (current l now b)) ≤ budget t limit (some b)
    current-budget l b v = ground (arith, v.interval_kept)

    current-blank : (l : RateLimiter) → budget t limit (some (current l now blank)) ≤ limit
    current-blank l = ground arith

    spend-budget :
        (b : RateBucket)
        → leb limit b.count ≡ false
        → budget t limit (some (record b { count = b.count + 1 })) + 1 ≤ budget t limit (some b)
    spend-budget b h = ground arith

    module _ (l : RateLimiter) (v : IsFor limit interval l) where
      cleanup_locked-budget :
          (k : String)
          → budget t limit (get k (cleanup_locked l now).buckets) ≤ budget t limit (get k l.buckets)
      unfolding cleanup_locked
      cleanup_locked-budget k =
          rw (get-retain (λ b. not (has_passed now b.window l.bucket_ttl)) k l.buckets v.is_map)
            (hold-budget l.bucket_ttl (get k l.buckets) v.long_lived)

      cleanup_if_due-budget :
          (k : String)
          → budget t limit (get k (cleanup_if_due l now).buckets) ≤ budget t limit (get k l.buckets)
      unfolding cleanup_if_due
      cleanup_if_due-budget k =
          elim (Bool-cases (l.last_cleanup == 0 || has_passed now l.last_cleanup l.interval)) [
            | inl e ↦ rw e (cleanup_locked-budget k)
            | inr e ↦ rw e (le_refl _)
          ]

      -- One answer on a bucket `b` that allows no more than `o`.
      count_request-budget :
          (j k : String) (b : RateBucket) (o : ℕ)
          → budget t limit (some b) ≤ o
          → (str_eq j k ≡ true → o ≤ budget t limit (get k l.buckets))
          → gain j k (count_request l j b).1
              + budget t limit (get k (count_request l j b).0.buckets)
            ≤ budget t limit (get k l.buckets)
      unfolding count_request
      count_request-budget j k b o h q = elim (Bool-cases (str_eq j k)) [
        | inl same ↦ elim (Bool-cases (leb l.limit b.count)) [
          | inl e ↦ rw (e, same, get-put j k b l.buckets, same) (omega (arith, h, q same))
          | inr e ↦
              rw (e, same, get-put j k (record b { count = b.count + 1 }) l.buckets, same)
                (omega (arith, h, q same, spend-budget b (ground arith)))
        ]
        | inr other ↦ elim (Bool-cases (leb l.limit b.count)) [
          | inl e ↦ rw (e, other, get-put j k b l.buckets, other) (omega arith)
          | inr e ↦
              rw (e, other, get-put j k (record b { count = b.count + 1 }) l.buckets, other)
                (omega arith)
        ]
      ]

      same_entry :
          (j k : String) (o : Option RateBucket)
          → get j l.buckets ≡ o
          → str_eq j k ≡ true
          → budget t limit o ≤ budget t limit (get k l.buckets)
      same_entry j k o e same = rw (← (eq_iff j k).0 same, e) (le_refl _)

      admit-budget :
          (j k : String)
          → let r = admit l j now (get j l.buckets) in
            gain j k r.1 + budget t limit (get k r.0.buckets) ≤ budget t limit (get k l.buckets)
      unfolding admit
      admit-budget j k = elim (Option-cases (get j l.buckets)) [
        | inl e ↦ elim (Bool-cases (leb l.max_buckets (length l.buckets))) [
          | inl full ↦ rw (e, full) (ground arith)
          | inr free ↦
              rw (e, free)
                (count_request-budget j k (current l now blank) limit (current-blank l)
                  (same_entry j k none e))
        ]
        | inr (b, e) ↦ rw e (
            count_request-budget j k (current l now b) (budget t limit (some b))
              (current-budget l b v) (same_entry j k (some b) e))
      ]

    allow-budget :
        (l : RateLimiter) (v : IsFor limit interval l) (j k : String)
        → 0 < limit
        → gain j k (allow l j now).1 + budget t limit (get k (allow l j now).0.buckets)
          ≤ budget t limit (get k l.buckets)
    unfolding allow
    allow-budget l v j k h =
        let s = admit-budget (cleanup_if_due l now) (cleanup_if_due-IsFor l v now) j k in
        let e : (l.limit == 0) ≡ false = ground (arith, v.limit_kept) in
        rw e (omega (arith, s, cleanup_if_due-budget l v k))

  granted-budget :
      (k : String) (l : RateLimiter) (cs : List (String × ℕ))
      → 0 < limit
      → IsFor limit interval l
      → Within t interval cs
      → granted k l cs ≤ budget t limit (get k l.buckets)
  unfolding granted
  granted-budget k l [] h v w = omega arith
  granted-budget k l ((j, now) ∷ cs) h v w = omega (
    arith,
    allow-budget now w.0 w.1 l v j k h,
    granted-budget k (allow l j now).0 cs h (allow-IsFor l j now v) w.2,
  )

-- Whatever requests came before, of all requests whose times lie in a span as long as the
-- limiter's interval, in any order and for any keys, at most twice the limit are allowed for one
-- key, when the limit is positive and the span does not begin at the zero time.
pub granted-le :
    (limit interval max_buckets bucket_ttl : ℕ) (k : String) (t : ℕ) (before cs : List (String × ℕ))
    → 0 < limit
    → 0 < t
    → Within t interval cs
    → granted k (run (new_bounded_rate_limiter limit interval max_buckets bucket_ttl) before) cs
      ≤ 2 * limit
granted-le limit interval max_buckets bucket_ttl k t before cs h z w =
    let v =
      run-IsFor _ before (new_bounded_rate_limiter-IsFor limit interval max_buckets bucket_ttl) in
    le_trans (granted-budget t interval limit z k _ cs h v w) (budget-le t limit _)
