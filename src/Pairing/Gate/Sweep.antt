-- ===== src/Pairing/Gate/Sweep.antt =====
-- `sweepStale` of go-bridge/pairing_hardening.go: stale stamps go, and buckets with no other.
use cccode_macbridge.Base.{
  ℕ, ◌≤◌, ◌≡◌, refl, String, Option, none, some, [], ◌∷◌, arith, leb, if◌then◌else◌, length, eq_iff,
}
use cccode_macbridge.Base.Dict.{Dict, get, IsMap}
use cccode_macbridge.Pairing.Bucket.{SlidingBucket, fresh}
use cccode_macbridge.Pairing.Gate.{sweep}

abbrev pub swept : ℕ → Option SlidingBucket → Option SlidingBucket
swept now none = none
swept now (some b) =
    if leb (length (fresh b now)) 0 then none else some (record b { counts = fresh b now })

pub get-sweep :
    (now : ℕ) (k : String) (d : Dict SlidingBucket)
    → IsMap d
    → get k (sweep now d) ≡ swept now (get k d)
unfolding sweep get
get-sweep now k [] m = refl
get-sweep now k ((j, b) ∷ d) m = ground (arith, eq_iff j k, get-sweep now k d m.1)

pub sweep-IsMap : (now : ℕ) (d : Dict SlidingBucket) → IsMap d → IsMap (sweep now d)
unfolding sweep
sweep-IsMap now [] m = tt
sweep-IsMap now ((j, b) ∷ d) m = ground (arith, get-sweep now j d m.1, sweep-IsMap now d m.1)

pub length-sweep-le : (now : ℕ) (d : Dict SlidingBucket) → length (sweep now d) ≤ length d
unfolding sweep
length-sweep-le now [] = omega arith
length-sweep-le now ((j, b) ∷ d) = ground (arith, length-sweep-le now d)
