-- ===== src/Pairing/Gate/Limits.antt =====
-- The gate of go-bridge/pairing_hardening.go stays bounded, whatever is asked of it.
use mathlib.Core.Path.{subst}
use mathlib.Core.Option.{some-injective}
use cccode_macbridge.Base.{
  Option, length-keep-le, ℕ, ◌≤◌, ◌≡◌, refl, String, Bool, true, false, none, some, List, [], ◌∷◌,
  arith, inl, inr, leb, length, length-append, Bool-cases, Option-cases, lt_of_leb,
}
use cccode_macbridge.Base.Dict.{
  length-put, Dict, get, put, remove, IsMap, put-IsMap, remove-IsMap, length-remove-le, size_put,
  Every, empty-Every, put-Every, remove-Every,
}
use cccode_macbridge.Pairing.Bucket.{SlidingBucket, is_fresh, fresh, allow}
use cccode_macbridge.Pairing.Gate.{
  Gate, new_gate, Call, acquires, releases, fails, resets, sweep, sweep_stale, source_ip_limit,
  source_ip_window, per_pairing_fail_limit, per_pairing_fail_window, global_concurrent_claims,
  max_pairing_buckets, new_source_bucket, new_fail_bucket, take_slot, acquire_from, acquire,
  release, count_failure, record_failure_in, record_pairing_failure, reset_pairing_failures, step,
  run,
}
use cccode_macbridge.Pairing.Gate.Sweep.{swept, get-sweep, sweep-IsMap, length-sweep-le}

-- A bucket of this window and limit, with no more stamps than the limit.
pub record IsFull (window limit : ℕ) (b : SlidingBucket) : Type 0 where
  pub window_kept : b.window ≡ window
  pub limit_kept : b.limit ≡ limit
  pub few : length b.counts ≤ limit

-- A table with one bucket for a key, at most 4096 of them, and each within its limit.
pub record IsTable (window limit : ℕ) (d : Dict SlidingBucket) : Type 0 where
  pub is_map : IsMap d
  pub roomy : length d ≤ max_pairing_buckets
  pub buckets : Every (λ _ b. IsFull window limit b) d

pub record IsBounded (g : Gate) : Type 0 where
  pub sources : IsTable source_ip_window source_ip_limit g.source_buckets
  pub failures : IsTable per_pairing_fail_window per_pairing_fail_limit g.pair_fails
  pub active : g.active_claims ≤ global_concurrent_claims

module _ {window limit : ℕ} where
  pub allow-IsFull :
      (now : ℕ) (b : SlidingBucket) → IsFull window limit b → IsFull window limit (allow b now).0
  unfolding allow
  allow-IsFull now b v = elim (Bool-cases (leb b.limit (length (fresh b now)))) [
    | inl full ↦ rw full (record {
      window_kept = v.window_kept;
      limit_kept = v.limit_kept;
      few = omega (arith, length-keep-le (is_fresh now b.window) b.counts, v.few);
    })
    | inr room ↦ rw room (record {
      window_kept = v.window_kept;
      limit_kept = v.limit_kept;
      few =
          rw (length-append (fresh b now) (now ∷ []))
            (omega (arith, lt_of_leb b.limit (length (fresh b now)) room, v.limit_kept));
    })
  ]

  fresh-IsFull :
      (now : ℕ) (b : SlidingBucket)
      → IsFull window limit b
      → IsFull window limit (record b { counts = fresh b now })
  fresh-IsFull now b v = record {
    window_kept = v.window_kept;
    limit_kept = v.limit_kept;
    few = omega (arith, length-keep-le (is_fresh now b.window) b.counts, v.few);
  }

  swept-IsFull :
      (now : ℕ) (b c : SlidingBucket)
      → IsFull window limit b
      → swept now (some b) ≡ some c
      → IsFull window limit c
  swept-IsFull now b c v e = elim (Bool-cases (leb (length (fresh b now)) 0)) [
    | inl stale ↦ absurd (cc (rw stale at e))
    | inr live ↦
        subst (IsFull window limit)
          (some-injective (record b { counts = fresh b now }) c (rw live at e))
          (fresh-IsFull now b v)
  ]

  sweep-Every :
      (now : ℕ) (d : Dict SlidingBucket)
      → IsTable window limit d
      → Every (λ _ b. IsFull window limit b) (sweep now d)
  sweep-Every now d v j c e = elim (Option-cases (get j d)) [
    | inl missing ↦ absurd (cc (rw (get-sweep now j d v.is_map, missing) at e))
    | inr (b, found) ↦
        swept-IsFull now b c (v.buckets j b found) (rw (get-sweep now j d v.is_map, found) at e)
  ]

  pub sweep-IsTable :
      (now : ℕ) (d : Dict SlidingBucket)
      → IsTable window limit d
      → IsTable window limit (sweep now d)
  sweep-IsTable now d v = record {
    is_map = sweep-IsMap now d v.is_map;
    roomy = omega (arith, length-sweep-le now d, v.roomy);
    buckets = sweep-Every now d v;
  }

  put-IsTable :
      (k : String) (b : SlidingBucket) (d : Dict SlidingBucket)
      → size_put (get k d) (length d) ≤ max_pairing_buckets
      → IsFull window limit b
      → IsTable window limit d
      → IsTable window limit (put k b d)
  put-IsTable k b d h f v = record {
    is_map = put-IsMap k b d v.is_map;
    roomy = omega (arith, length-put k b d, h);
    buckets = put-Every _ k b d f v.buckets;
  }

  remove-IsTable :
      (k : String) (d : Dict SlidingBucket)
      → IsTable window limit d
      → IsTable window limit (remove k d)
  remove-IsTable k d v = record {
    is_map = remove-IsMap k d v.is_map;
    roomy = omega (arith, length-remove-le k d, v.roomy);
    buckets = remove-Every _ k d v.is_map v.buckets;
  }

take_slot-IsBounded :
    (g : Gate) (ip : String) (b : SlidingBucket) (ok : Bool) (remaining : ℕ)
    → size_put (get ip g.source_buckets) (length g.source_buckets) ≤ max_pairing_buckets
    → IsFull source_ip_window source_ip_limit b
    → IsBounded g
    → IsBounded (take_slot g ip (b, ok, remaining)).0
unfolding take_slot
take_slot-IsBounded g ip b false remaining h f v = record {
  sources = put-IsTable ip b g.source_buckets h f v.sources;
  failures = v.failures;
  active = v.active;
}
take_slot-IsBounded g ip b true remaining h f v =
    elim (Bool-cases (leb global_concurrent_claims g.active_claims)) [
      | inl busy ↦ rw busy (record {
        sources = put-IsTable ip b g.source_buckets h f v.sources;
        failures = v.failures;
        active = v.active;
      })
      | inr idle ↦ rw idle (record {
        sources = put-IsTable ip b g.source_buckets h f v.sources;
        failures = v.failures;
        active = omega (arith, lt_of_leb global_concurrent_claims g.active_claims idle);
      })
    ]

new-IsFull :
    (window limit : ℕ)
    → IsFull window limit (record { window = window; limit = limit; counts = [] })
new-IsFull window limit = record { window_kept = refl; limit_kept = refl; few = omega arith }

acquire_from-IsBounded :
    (g : Gate) (ip : String) (now : ℕ) (o : Option SlidingBucket)
    → get ip g.source_buckets ≡ o
    → IsBounded g
    → IsBounded (acquire_from g ip now o).0
unfolding acquire_from
acquire_from-IsBounded g ip now (some b) e v =
    take_slot-IsBounded g ip (allow b now).0 (allow b now).1 (allow b now).2 (rw e v.sources.roomy)
      (allow-IsFull now b (v.sources.buckets ip b e)) v
acquire_from-IsBounded g ip now none e v =
    elim (Bool-cases (leb max_pairing_buckets (length g.source_buckets))) [
      | inl full ↦ rw full v
      | inr room ↦ rw room (
          take_slot-IsBounded g ip (allow new_source_bucket now).0 (allow new_source_bucket now).1
            (allow new_source_bucket now).2
            (rw e (lt_of_leb max_pairing_buckets (length g.source_buckets) room))
            (allow-IsFull now new_source_bucket (new-IsFull source_ip_window source_ip_limit)) v)
    ]

count_failure-IsBounded :
    (g : Gate) (id : String) (b : SlidingBucket) (ok : Bool) (remaining : ℕ)
    → size_put (get id g.pair_fails) (length g.pair_fails) ≤ max_pairing_buckets
    → IsFull per_pairing_fail_window per_pairing_fail_limit b
    → IsBounded g
    → IsBounded (count_failure g id (b, ok, remaining)).0
unfolding count_failure
count_failure-IsBounded g id b ok remaining h f v = record {
  sources = v.sources;
  failures = put-IsTable id b g.pair_fails h f v.failures;
  active = v.active;
}

record_failure_in-IsBounded :
    (g : Gate) (id : String) (now : ℕ) (o : Option SlidingBucket)
    → get id g.pair_fails ≡ o
    → IsBounded g
    → IsBounded (record_failure_in g id now o).0
unfolding record_failure_in
record_failure_in-IsBounded g id now (some b) e v =
    count_failure-IsBounded g id (allow b now).0 (allow b now).1 (allow b now).2
      (rw e v.failures.roomy) (allow-IsFull now b (v.failures.buckets id b e)) v
record_failure_in-IsBounded g id now none e v =
    elim (Bool-cases (leb max_pairing_buckets (length g.pair_fails))) [
      | inl full ↦ rw full v
      | inr room ↦ rw room (
          count_failure-IsBounded g id (allow new_fail_bucket now).0 (allow new_fail_bucket now).1
            (allow new_fail_bucket now).2
            (rw e (lt_of_leb max_pairing_buckets (length g.pair_fails) room))
            (allow-IsFull now new_fail_bucket
              (new-IsFull per_pairing_fail_window per_pairing_fail_limit))
            v)
    ]

sweep_stale-IsBounded : (g : Gate) (now : ℕ) → IsBounded g → IsBounded (sweep_stale g now)
unfolding sweep_stale
sweep_stale-IsBounded g now v = record {
  sources = sweep-IsTable now g.source_buckets v.sources;
  failures = sweep-IsTable now g.pair_fails v.failures;
  active = v.active;
}

step-IsBounded : (g : Gate) (c : Call) → IsBounded g → IsBounded (step g c)
unfolding step acquire release record_pairing_failure reset_pairing_failures
step-IsBounded g (acquires ip now) v =
    acquire_from-IsBounded (sweep_stale g now) ip now (get ip (sweep_stale g now).source_buckets)
      refl (sweep_stale-IsBounded g now v)
step-IsBounded g releases v = record {
  sources = v.sources;
  failures = v.failures;
  active = omega (arith, v.active);
}
step-IsBounded g (fails id now) v =
    record_failure_in-IsBounded (sweep_stale g now) id now (get id (sweep_stale g now).pair_fails)
      refl (sweep_stale-IsBounded g now v)
step-IsBounded g (resets id) v = record {
  sources = v.sources;
  failures = remove-IsTable id g.pair_fails v.failures;
  active = v.active;
}

run_from-IsBounded : (g : Gate) (cs : List Call) → IsBounded g → IsBounded (run g cs)
unfolding run
run_from-IsBounded g [] v = v
run_from-IsBounded g (c ∷ cs) v = run_from-IsBounded (step g c) cs (step-IsBounded g c v)

empty-IsTable : (window limit : ℕ) → IsTable window limit []
empty-IsTable window limit = record { is_map = tt; roomy = omega arith; buckets = empty-Every _ }

-- After any sequence of calls on a new gate, in any order and at any times: each of the two tables
-- has one bucket for a key and at most 4096 buckets; a source's bucket holds at most 10 stamps and
-- a pairing's at most 5, with the windows they were made with; and at most 16 claims are active.
pub run_gate-IsBounded : (cs : List Call) → IsBounded (run new_gate cs)
run_gate-IsBounded cs = run_from-IsBounded new_gate cs (record {
  sources = empty-IsTable source_ip_window source_ip_limit;
  failures = empty-IsTable per_pairing_fail_window per_pairing_fail_limit;
  active = omega arith;
})
