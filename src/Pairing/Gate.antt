-- ===== src/Pairing/Gate.antt =====
-- `pairingAttemptGate` of go-bridge/pairing_hardening.go. The mutex makes each method one step; the
-- client's address, which `net.SplitHostPort` takes from the request, and the time are arguments.
-- `active_claims` cannot fall below 0 in the source either: `release` resets it.
pub mod Sweep
pub mod Limits
use cccode_macbridge.Base.{
  ℕ, ◌+◌, ◌-◌, ◌*◌, String, Bool, true, false, Option, none, some, List, [], ◌∷◌, leb,
  if◌then◌else◌, length,
}
use cccode_macbridge.Base.Dict.{Dict, get, put, remove}
use cccode_macbridge.Pairing.Bucket
use cccode_macbridge.Pairing.Bucket.{SlidingBucket, fresh}

-- `pairingAttemptConfig`; one second is 10^9.
abbrev pub source_ip_limit : ℕ
source_ip_limit = 10

abbrev pub source_ip_window : ℕ
source_ip_window = 60 * 1000000000

abbrev pub per_pairing_fail_limit : ℕ
per_pairing_fail_limit = 5

abbrev pub per_pairing_fail_window : ℕ
per_pairing_fail_window = 300 * 1000000000

abbrev pub global_concurrent_claims : ℕ
global_concurrent_claims = 16

abbrev pub max_pairing_buckets : ℕ
max_pairing_buckets = 4096

pub record Gate : Type 0 where
  pub source_buckets : Dict SlidingBucket
  pub pair_fails : Dict SlidingBucket
  pub active_claims : ℕ

abbrev pub new_gate : Gate
new_gate = record { source_buckets = []; pair_fails = []; active_claims = 0 }

pub data GateError : Type 0 where
  rate_limited : GateError

-- The closure of `sweepStale`, over one of the maps.
unfoldable pub sweep : ℕ → Dict SlidingBucket → Dict SlidingBucket
sweep now [] = []
sweep now ((k, b) ∷ d) =
    let rest = sweep now d in
    if leb (length (fresh b now)) 0 then rest else (k, record b { counts = fresh b now }) ∷ rest

unfoldable pub sweep_stale : Gate → ℕ → Gate
sweep_stale g now = record g {
  source_buckets = sweep now g.source_buckets;
  pair_fails = sweep now g.pair_fails;
}

abbrev pub new_source_bucket : SlidingBucket
new_source_bucket = record { window = source_ip_window; limit = source_ip_limit; counts = [] }

abbrev pub new_fail_bucket : SlidingBucket
new_fail_bucket = record {
  window = per_pairing_fail_window;
  limit = per_pairing_fail_limit;
  counts = [];
}

-- `acquire` once the source's bucket has answered.
unfoldable pub take_slot : Gate → String → SlidingBucket × Bool × ℕ → Gate × Option GateError
take_slot g ip (b, false, remaining) =
    (record g { source_buckets = put ip b g.source_buckets }, some rate_limited)
take_slot g ip (b, true, remaining) =
    if leb global_concurrent_claims g.active_claims
    then (record g { source_buckets = put ip b g.source_buckets }, some rate_limited)
    else (
      record g { source_buckets = put ip b g.source_buckets; active_claims = g.active_claims + 1 },
      none,
    )

-- `acquire` after the sweep, by what the source's bucket is.
unfoldable pub acquire_from : Gate → String → ℕ → Option SlidingBucket → Gate × Option GateError
unfolding take_slot
acquire_from g ip now (some b) = take_slot g ip (Bucket.allow b now)
acquire_from g ip now none =
    if leb max_pairing_buckets (length g.source_buckets)
    then (g, some rate_limited)
    else take_slot g ip (Bucket.allow new_source_bucket now)

unfoldable pub acquire : Gate → String → ℕ → Gate × Option GateError
unfolding acquire_from
acquire g ip now =
    let swept = sweep_stale g now in acquire_from swept ip now (get ip swept.source_buckets)

unfoldable pub release : Gate → Gate
release g = record g { active_claims = g.active_claims - 1 }

unfoldable pub count_failure : Gate → String → SlidingBucket × Bool × ℕ → Gate × Bool
count_failure g id (b, ok, remaining) =
    (record g { pair_fails = put id b g.pair_fails }, leb per_pairing_fail_limit (length b.counts))

unfoldable pub record_failure_in : Gate → String → ℕ → Option SlidingBucket → Gate × Bool
unfolding count_failure
record_failure_in g id now (some b) = count_failure g id (Bucket.allow b now)
record_failure_in g id now none =
    if leb max_pairing_buckets (length g.pair_fails)
    then (g, false)
    else count_failure g id (Bucket.allow new_fail_bucket now)

unfoldable pub record_pairing_failure : Gate → String → ℕ → Gate × Bool
unfolding record_failure_in
record_pairing_failure g id now =
    let swept = sweep_stale g now in record_failure_in swept id now (get id swept.pair_fails)

unfoldable pub reset_pairing_failures : Gate → String → Gate
reset_pairing_failures g id = record g { pair_fails = remove id g.pair_fails }

-- A call of a method, with its time.
pub data Call : Type 0 where
  acquires : String → ℕ → Call
  releases : Call
  fails : String → ℕ → Call
  resets : String → Call

unfoldable pub step : Gate → Call → Gate
unfolding acquire release record_pairing_failure reset_pairing_failures
step g (acquires ip now) = (acquire g ip now).0
step g releases = release g
step g (fails id now) = (record_pairing_failure g id now).0
step g (resets id) = reset_pairing_failures g id

unfoldable pub run : Gate → List Call → Gate
run g [] = g
run g (c ∷ cs) = run (step g c) cs
