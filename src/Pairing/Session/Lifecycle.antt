-- ===== src/Pairing/Session/Lifecycle.antt =====
-- The life of a pairing session of go-bridge/pairing_session.go.
use cccode_macbridge.Base.Dict.{ne_of_not-eq}
use mathlib.Core.Path.{subst}
use cccode_macbridge.Base.{
  ℕ, ◌≡◌, ◌≢◌, inl, inr, refl, sym, String, Option, none, some, List, [], ◌∷◌, Bool-cases,
}
use cccode_macbridge.Pairing.Session.{
  PairingState, PairingError, PairingSession, created, claimed, approved, completed, rejected,
  expired, is_expired, claim_in, claim, approve_in, approve, reject_in, reject, complete_in,
  complete, Call, claims, approves, rejects, completes, step, run, new_pairing_session,
}

-- The transitions of the protocol.
pub data Move : PairingState → PairingState → Type 0 where
  to_claimed : Move created claimed
  to_approved : Move claimed approved
  to_rejected : Move claimed rejected
  to_completed : Move approved completed

-- A call either fails and changes nothing, or succeeds by one transition of the protocol.
pub data Outcome (s : PairingSession) (r : PairingSession × Option PairingError) : Type 0 where
  fails : (e : PairingError) → r ≡ (s, some e) → Outcome s r
  moves : r.1 ≡ none → Move s.state r.0.state → Outcome s r

-- A transition out of a state that is known by an equation.
moved :
    {from to : PairingState} (s : PairingSession) → s.state ≡ from → Move from to → Move s.state to
moved {to} s e m = subst (λ st. Move st to) (sym e) m

claim_in-Outcome :
    (st : PairingState) (s : PairingSession) (d n p : String)
    → s.state ≡ st
    → Outcome s (claim_in st s d n p)
unfolding claim_in
claim_in-Outcome created s d n p e = moves refl (moved s e to_claimed)
claim_in-Outcome claimed s d n p e = fails _ refl
claim_in-Outcome other s d n p e = fails _ refl

approve_in-Outcome :
    (st : PairingState) (s : PairingSession) (t : Option (String × String)) (r : String)
    → s.state ≡ st
    → Outcome s (approve_in st s t r)
unfolding approve_in
approve_in-Outcome claimed s none r e = fails _ refl
approve_in-Outcome claimed s (some (plain, hash)) r e = moves refl (moved s e to_approved)
approve_in-Outcome other s t r e = fails _ refl

reject_in-Outcome :
    (st : PairingState) (s : PairingSession) → s.state ≡ st → Outcome s (reject_in st s)
unfolding reject_in
reject_in-Outcome claimed s e = moves refl (moved s e to_rejected)
reject_in-Outcome other s e = fails _ refl

complete_in-Outcome :
    (st : PairingState) (s : PairingSession) → s.state ≡ st → Outcome s (complete_in st s)
unfolding complete_in
complete_in-Outcome approved s e = moves refl (moved s e to_completed)
complete_in-Outcome other s e = fails _ refl

claim-Outcome : (s : PairingSession) (now : ℕ) (d n p : String) → Outcome s (claim s now d n p)
unfolding claim
claim-Outcome s now d n p = elim (Bool-cases (is_expired s now)) [
  | inl e ↦ rw e (fails _ refl)
  | inr e ↦ rw e (claim_in-Outcome s.state s d n p refl)
]

-- Each of `Claim`, `Approve`, `Reject` and `Complete` either fails with an error and leaves the
-- whole session as it was, or succeeds and moves its state from created to claimed, from claimed
-- to approved or rejected, or from approved to completed.
pub step-Outcome : (s : PairingSession) (c : Call) → Outcome s (step s c)
unfolding step approve reject complete
step-Outcome s (claims now d n p) = claim-Outcome s now d n p
step-Outcome s (approves t r) = approve_in-Outcome s.state s t r refl
step-Outcome s rejects = reject_in-Outcome s.state s refl
step-Outcome s completes = complete_in-Outcome s.state s refl

-- What a session holds, by its state: the plain token only while approved, a device only once
-- claimed, and after the approval the claiming device's identifier, if it gave one.
abbrev Holds : PairingState → String → String → String → Type 0
Holds created token claiming device = (token ≡ "") × (claiming ≡ "") × (device ≡ "")
Holds claimed token claiming device = (token ≡ "") × (device ≡ "")
Holds approved token claiming device = claiming ≢ "" → device ≡ claiming
Holds completed token claiming device = (token ≡ "") × (claiming ≢ "" → device ≡ claiming)
Holds rejected token claiming device = (token ≡ "") × (device ≡ "")
Holds expired token claiming device = ⊥

abbrev pub IsSafe : PairingSession → Type 0
IsSafe s = Holds s.state s.device_token s.claiming_device_id s.device_id

abbrev Held : PairingState → PairingSession → Type 0
Held st s = Holds st s.device_token s.claiming_device_id s.device_id

claim_in-IsSafe :
    (st : PairingState) (s : PairingSession) (d n p : String)
    → s.state ≡ st
    → Held st s
    → IsSafe (claim_in st s d n p).0
unfolding claim_in
claim_in-IsSafe created s d n p e v = (v.0, v.2)
claim_in-IsSafe st s d n p e v = subst (λ x. Held x s) (sym e) v

approve_in-IsSafe :
    (st : PairingState) (s : PairingSession) (t : Option (String × String)) (r : String)
    → s.state ≡ st
    → Held st s
    → IsSafe (approve_in st s t r).0
unfolding approve_in
approve_in-IsSafe claimed s none r e v = subst (λ x. Held x s) (sym e) v
approve_in-IsSafe claimed s (some (plain, hash)) r e v =
    λ given. rw (ne_of_not-eq s.claiming_device_id "" given) refl
approve_in-IsSafe st s t r e v = subst (λ x. Held x s) (sym e) v

reject_in-IsSafe :
    (st : PairingState) (s : PairingSession) → s.state ≡ st → Held st s → IsSafe (reject_in st s).0
unfolding reject_in
reject_in-IsSafe claimed s e v = v
reject_in-IsSafe st s e v = subst (λ x. Held x s) (sym e) v

complete_in-IsSafe :
    (st : PairingState) (s : PairingSession)
    → s.state ≡ st
    → Held st s
    → IsSafe (complete_in st s).0
unfolding complete_in
complete_in-IsSafe approved s e v = (refl, v)
complete_in-IsSafe st s e v = subst (λ x. Held x s) (sym e) v

claim-IsSafe :
    (s : PairingSession) (now : ℕ) (d n p : String) → IsSafe s → IsSafe (claim s now d n p).0
unfolding claim
claim-IsSafe s now d n p v = elim (Bool-cases (is_expired s now)) [
  | inl e ↦ rw e v
  | inr e ↦ rw e (claim_in-IsSafe s.state s d n p refl v)
]

step-IsSafe : (s : PairingSession) (c : Call) → IsSafe s → IsSafe (step s c).0
unfolding step approve reject complete
step-IsSafe s (claims now d n p) v = claim-IsSafe s now d n p v
step-IsSafe s (approves t r) v = approve_in-IsSafe s.state s t r refl v
step-IsSafe s rejects v = reject_in-IsSafe s.state s refl v
step-IsSafe s completes v = complete_in-IsSafe s.state s refl v

run_from-IsSafe : (s : PairingSession) (cs : List Call) → IsSafe s → IsSafe (run s cs)
unfolding run
run_from-IsSafe s [] v = v
run_from-IsSafe s (c ∷ cs) v = run_from-IsSafe (step s c).0 cs (step-IsSafe s c v)

-- After any history of calls on a new session, it holds the plain token only while it is
-- approved, no device before the claim, no granted identifier before the approval, and from the
-- approval on the identifier that the claiming device gave, if it gave one.
pub run-IsSafe :
    (id code bridge name url : String) (ttl now : ℕ) (cs : List Call)
    → IsSafe (run (new_pairing_session id code bridge name url ttl now) cs)
unfolding new_pairing_session
run-IsSafe id code bridge name url ttl now cs = run_from-IsSafe _ cs (refl, refl, refl)
