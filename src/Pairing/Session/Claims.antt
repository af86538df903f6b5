-- ===== src/Pairing/Session/Claims.antt =====
-- A pairing session of go-bridge/pairing_session.go is claimed at most once.
use cccode_macbridge.Base.{
  sym, ℕ, ◌+◌, ◌≤◌, ◌≡◌, ◌≢◌, ◌∙◌, refl, String, Bool, true, false, Option, none, some, List, [],
  ◌∷◌, arith, inl, inr, Bool-cases,
}
use cccode_macbridge.Pairing.Session.{
  token_failed, pairing_expired, PairingState, PairingError, PairingSession, created, claimed,
  approved, is_expired, claim_in, claim, approve_in, approve, reject_in, reject, complete_in,
  complete, Call, claims, approves, rejects, completes, step, run,
}

-- How many calls of `Claim` succeed.
abbrev is_claim : Call → Bool
is_claim (claims now d n p) = true
is_claim c = false

abbrev success : Bool → Option PairingError → ℕ
success true none = 1
success b e = 0

unfoldable pub claims_granted : PairingSession → List Call → ℕ
claims_granted s [] = 0
claims_granted s (c ∷ cs) = success (is_claim c) (step s c).1 + claims_granted (step s c).0 cs

abbrev open_claims : PairingState → ℕ
open_claims created = 1
open_claims st = 0

open_claims_small : (st : PairingState) → open_claims st ≤ 1
open_claims_small created = omega arith
open_claims_small st = omega arith

open_claims_none : (st : PairingState) → st ≢ created → open_claims st ≡ 0
open_claims_none created h = absurd (h refl)
open_claims_none st h = refl

-- The device that claimed a session.
abbrev pub Claimant : Type 0
Claimant = String × String × String

abbrev pub claimant : PairingSession → Claimant
claimant s = (s.claiming_device_id, s.claiming_device_name, s.claiming_platform)

-- What a call may do to the claim of a session in the state `st`.
abbrev Keeps : PairingState → PairingSession → Bool → PairingSession × Option PairingError → Type 0
Keeps created s b r = success b r.1 + open_claims r.0.state ≤ 1
Keeps st s b r = (success b r.1 ≡ 0) × (r.0.state ≢ created) × (claimant r.0 ≡ claimant s)

not_created :
    (st : PairingState) (s : PairingSession) → s.state ≡ st → st ≢ created → s.state ≢ created
not_created st s e h q = h (sym e ∙ q)

unchanged-Keeps :
    (st : PairingState) (s : PairingSession) (b : Bool) (err : PairingError)
    → s.state ≡ st
    → Keeps st s b (s, some err)
unchanged-Keeps created s true err e = rw e (omega arith)
unchanged-Keeps created s false err e = rw e (omega arith)
unchanged-Keeps st s true err e = (refl, not_created st s e (λ q. cc), refl)
unchanged-Keeps st s false err e = (refl, not_created st s e (λ q. cc), refl)

claim_in-Keeps :
    (st : PairingState) (s : PairingSession) (d n p : String)
    → s.state ≡ st
    → Keeps st s true (claim_in st s d n p)
unfolding claim_in
claim_in-Keeps created s d n p e = omega arith
claim_in-Keeps claimed s d n p e = unchanged-Keeps claimed s true token_failed e
claim_in-Keeps st s d n p e = unchanged-Keeps st s true token_failed e

approve_in-Keeps :
    (st : PairingState) (s : PairingSession) (t : Option (String × String)) (r : String)
    → s.state ≡ st
    → Keeps st s false (approve_in st s t r)
unfolding approve_in
approve_in-Keeps claimed s none r e = unchanged-Keeps claimed s false token_failed e
approve_in-Keeps claimed s (some (plain, hash)) r e = (refl, (λ q. cc), refl)
approve_in-Keeps st s t r e = unchanged-Keeps st s false token_failed e

reject_in-Keeps :
    (st : PairingState) (s : PairingSession) → s.state ≡ st → Keeps st s false (reject_in st s)
unfolding reject_in
reject_in-Keeps claimed s e = (refl, (λ q. cc), refl)
reject_in-Keeps st s e = unchanged-Keeps st s false token_failed e

complete_in-Keeps :
    (st : PairingState) (s : PairingSession) → s.state ≡ st → Keeps st s false (complete_in st s)
unfolding complete_in
complete_in-Keeps approved s e = (refl, (λ q. cc), refl)
complete_in-Keeps st s e = unchanged-Keeps st s false token_failed e

claim-Keeps :
    (s : PairingSession) (now : ℕ) (d n p : String) → Keeps s.state s true (claim s now d n p)
unfolding claim
claim-Keeps s now d n p = elim (Bool-cases (is_expired s now)) [
  | inl e ↦ rw e (unchanged-Keeps s.state s true pairing_expired refl)
  | inr e ↦ rw e (claim_in-Keeps s.state s d n p refl)
]

step-Keeps : (s : PairingSession) (c : Call) → Keeps s.state s (is_claim c) (step s c)
unfolding step approve reject complete
step-Keeps s (claims now d n p) = claim-Keeps s now d n p
step-Keeps s (approves t r) = approve_in-Keeps s.state s t r refl
step-Keeps s rejects = reject_in-Keeps s.state s refl
step-Keeps s completes = complete_in-Keeps s.state s refl

Keeps-after :
    (st : PairingState) (s : PairingSession) (b : Bool) (r : PairingSession × Option PairingError)
    → st ≢ created
    → Keeps st s b r
    → (success b r.1 ≡ 0) × (r.0.state ≢ created) × (claimant r.0 ≡ claimant s)
Keeps-after created s b r h k = absurd (h refl)
Keeps-after st s b r h k = k

open_claims-step :
    (st : PairingState) (s : PairingSession) (b : Bool) (r : PairingSession × Option PairingError)
    → Keeps st s b r
    → success b r.1 + open_claims r.0.state ≤ open_claims st
open_claims-step created s b r k = k
open_claims-step st s b r k = omega (arith, k.0, open_claims_none r.0.state k.1)

claims_granted-le :
    (s : PairingSession) (cs : List Call) → claims_granted s cs ≤ open_claims s.state
unfolding claims_granted
claims_granted-le s [] = omega arith
claims_granted-le s (c ∷ cs) = omega (
  arith,
  open_claims-step s.state s (is_claim c) (step s c) (step-Keeps s c),
  claims_granted-le (step s c).0 cs,
)

claim_sticks :
    (s : PairingSession) (cs : List Call)
    → s.state ≢ created
    → (claims_granted s cs ≡ 0) × (claimant (run s cs) ≡ claimant s)
unfolding claims_granted run
claim_sticks s [] h = (refl, refl)
claim_sticks s (c ∷ cs) h =
    let (a, b, e) = Keeps-after s.state s (is_claim c) (step s c) h (step-Keeps s c) in
    let (n, f) = claim_sticks (step s c).0 cs b in (omega (arith, a, n), f ∙ e)

-- Over any history of calls at most one claim of a session succeeds, and once it has left the
-- created state no claim succeeds and the device, name and platform that claimed it stay.
pub claimed_once :
    (s : PairingSession) (cs : List Call)
    → (claims_granted s cs ≤ 1)
      × (s.state ≢ created → (claims_granted s cs ≡ 0) × (claimant (run s cs) ≡ claimant s))
claimed_once s cs =
    (omega (arith, claims_granted-le s cs, open_claims_small s.state), claim_sticks s cs)
