-- ===== src/Pairing/Tests.antt =====
-- Runs of the pairing code of go-bridge, and its theorems at concrete inputs.
use cccode_macbridge.Base.{◌≤◌, ◌≡◌, ◌≢◌, refl, some, List, [], ◌∷◌}
use cccode_macbridge.Pairing.Session
use cccode_macbridge.Pairing.Session.{
  PairingSession, new_pairing_session, is_expired, claim_in, claim, approve_with, approve_in,
  approve, complete_in, complete,
}
use cccode_macbridge.Pairing.Session.Lifecycle.{Outcome, IsSafe, step-Outcome, run-IsSafe}
use cccode_macbridge.Pairing.Session.Claims.{claims_granted, claimant, claimed_once}
use cccode_macbridge.Pairing.Gate
use cccode_macbridge.Pairing.Gate.{new_gate}
use cccode_macbridge.Pairing.Gate.Limits.{IsBounded, run_gate-IsBounded}

abbrev opened : PairingSession
opened = new_pairing_session "p" "123456" "b" "Mac" "http://mac" 100 1000

abbrev handshake : List Session.Call
handshake =
    Session.claims 1050 "phone" "Phone" "ios"
    ∷ Session.claims 1060 "thief" "Thief" "ios"
    ∷ Session.approves (some ("token", "hash")) "random"
    ∷ Session.completes
    ∷ []

step-Outcome_example : Outcome opened (Session.step opened (Session.claims 1050 "d" "n" "ios"))
step-Outcome_example = step-Outcome opened (Session.claims 1050 "d" "n" "ios")

run-IsSafe_example : IsSafe (Session.run opened handshake)
run-IsSafe_example = run-IsSafe "p" "123456" "b" "Mac" "http://mac" 100 1000 handshake

claimed_once_example :
    (claims_granted opened handshake ≤ 1)
    × (opened.state ≢ Session.created
        → (claims_granted opened handshake ≡ 0)
          × (claimant (Session.run opened handshake) ≡ claimant opened))
claimed_once_example = claimed_once opened handshake

abbrev attempts : List Gate.Call
attempts =
    Gate.acquires "1.2.3.4" 1000
    ∷ Gate.fails "p" 1001
    ∷ Gate.releases
    ∷ Gate.acquires "5.6.7.8" 2000
    ∷ Gate.resets "p"
    ∷ []

run_gate-IsBounded_example : IsBounded (Gate.run new_gate attempts)
run_gate-IsBounded_example = run_gate-IsBounded attempts

-- The second device is refused, and the token is gone once the session is completed.
run-handshake :
    (claims_granted opened handshake ≡ 1)
    × (claimant (Session.run opened handshake) ≡ ("phone", "Phone", "ios"))
    × ((Session.run opened handshake).device_token ≡ "")
    × ((Session.run opened handshake).device_id ≡ "phone")
unfolding claims_granted Session.run Session.step new_pairing_session claim claim_in is_expired
    approve approve_in approve_with complete complete_in
run-handshake = (refl, refl, refl, refl)
