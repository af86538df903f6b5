-- ===== src/Limiter/Tests.antt =====
-- Runs of relay-server/internal/relay/limiter.go, and its theorems at concrete inputs.
use cccode_macbridge.Base.{ℕ, ◌≤◌, ◌≡◌, refl, String, List, [], ◌∷◌, arith}
use cccode_macbridge.Base.Dict.{get, put, retain}
use cccode_macbridge.Limiter.{
  new_bounded_rate_limiter, new_rate_limiter, cleanup_locked, cleanup_if_due, count_request, admit,
  allow, run, granted,
}
use cccode_macbridge.Limiter.Bounds.{IsBounded, run-IsBounded}
use cccode_macbridge.Limiter.Windows.{granted-le}

abbrev burst : List (String × ℕ)
burst = ("a", 100) ∷ ("a", 101) ∷ ("b", 102) ∷ ("a", 103) ∷ ("a", 150) ∷ []

-- Two requests in each interval of 60: the third and fourth of `a` are denied.
granted-burst : granted "a" (new_rate_limiter 2 60) burst ≡ 2
unfolding granted allow admit count_request cleanup_if_due cleanup_locked get put retain
    new_rate_limiter
granted-burst = refl

-- A window that began before the span lets through twice the limit.
granted-twice :
    granted "a"
      (run (new_rate_limiter 2 60) (("a", 100) ∷ []))
      (("a", 150) ∷ ("a", 160) ∷ ("a", 161) ∷ [])
    ≡ 3
unfolding granted run allow admit count_request cleanup_if_due cleanup_locked get put retain
    new_rate_limiter
granted-twice = refl

run-IsBounded_example : IsBounded 2 4096 (run (new_bounded_rate_limiter 2 60 0 60) burst)
run-IsBounded_example = run-IsBounded 2 60 0 60 burst

granted-le_example :
    granted "a"
      (run (new_bounded_rate_limiter 2 60 8 60) (("a", 100) ∷ []))
      (("a", 150) ∷ ("b", 155) ∷ ("a", 160) ∷ [])
    ≤ 4
granted-le_example =
    granted-le 2 60 8 60 "a" 150 (("a", 100) ∷ []) (("a", 150) ∷ ("b", 155) ∷ ("a", 160) ∷ [])
      (omega arith) (omega arith) (omega arith)
