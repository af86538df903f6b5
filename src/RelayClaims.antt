-- ===== src/RelayClaims.antt =====
-- The pairing claims of relay-server/internal/relay/store.go: the table pending_pairing_claims,
-- for one route. Every statement on it has the route's identifier in its WHERE clause, so a route's
-- rows are a map from claim identifiers, which are its key in the table. A transaction that fails
-- leaves the table as it was. Times are `Unix()` seconds; `expires_at` of a submitted claim is
-- now.Add(ttl).Unix(). Errors of the database itself are not modelled.
pub mod Rows
pub mod Moves
pub mod Consumed
mod Tests
use cccode_macbridge.Base.{
  ℕ, String, Bool, true, false, ◌&&◌, Option, none, some, List, [], ◌∷◌, ltb, if◌then◌else◌, str_eq,
}
use cccode_macbridge.Base.Dict.{Dict, get, put, retain}

pub data ClaimState : Type 0 where
  pending approved rejected consumed : ClaimState

-- A row; a hash or a sealed text is a BLOB.
pub record ClaimRow : Type 0 where
  pub capability_hash : String
  pub sealed_claim : String
  pub sealed_result : Option String
  pub state : ClaimState
  pub expires_at : ℕ
  pub consumed_at : Option ℕ

-- `route_active`: the route exists and is not revoked.
pub record RouteClaims : Type 0 where
  pub route_active : Bool
  pub claims : Dict ClaimRow

pub data ClaimError : Type 0 where
  claim_conflict invalid_state claim_not_found : ClaimError

abbrev pub is_unexpired : ℕ → ClaimRow → Bool
is_unexpired now c = ltb now c.expires_at

-- DELETE FROM pending_pairing_claims WHERE route_id = ? AND expires_at <= ?
abbrev pub expire_claims : ℕ → RouteClaims → RouteClaims
expire_claims now s = record s { claims = retain (is_unexpired now) s.claims }

-- `SubmitPairingClaim` after its DELETE; `before` is the table before it, to which a conflict rolls
-- back.
unfoldable pub submit_over :
    RouteClaims
    → RouteClaims
    → String
    → ClaimRow
    → Option ClaimRow
    → RouteClaims × Option ClaimError
submit_over before s claim_id c (some existing) =
    if str_eq existing.capability_hash c.capability_hash
      && str_eq existing.sealed_claim c.sealed_claim
    then (s, none)
    else (before, some claim_conflict)
submit_over before s claim_id c none =
    if s.route_active then (record s { claims = put claim_id c s.claims }, none) else (s, none)

abbrev pub new_claim : String → String → ℕ → ClaimRow
new_claim capability_hash sealed_claim expires_at = record {
  capability_hash = capability_hash;
  sealed_claim = sealed_claim;
  sealed_result = none;
  state = pending;
  expires_at = expires_at;
  consumed_at = none;
}

unfoldable pub submit_pairing_claim :
    RouteClaims → String → String → String → ℕ → ℕ → RouteClaims × Option ClaimError
unfolding submit_over
submit_pairing_claim s claim_id capability_hash sealed_claim now expires_at =
    submit_over s (expire_claims now s) claim_id (new_claim capability_hash sealed_claim expires_at)
      (get claim_id (expire_claims now s).claims)

unfoldable pub matches_capability : (String → String) → String → Option ClaimRow → Bool
matches_capability digest capability none = false
matches_capability digest capability (some c) = str_eq c.capability_hash (digest capability)

-- `digest` is `CredentialDigest`, by crypto/sha256. All four states are accepted.
unfoldable pub verify_pairing_capability : (String → String) → RouteClaims → String → String → Bool
unfolding matches_capability
verify_pairing_capability digest s claim_id capability =
    matches_capability digest capability (get claim_id s.claims)

abbrev pub is_consumed : ClaimState → Bool
is_consumed consumed = true
is_consumed state = false

-- `PairingClaim`.
pub record PairingClaim : Type 0 where
  pub claim_id : String
  pub claim_sealed : Option String
  pub result_sealed : Option String
  pub claim_state : ClaimState

unfoldable pub unconsumed : Dict ClaimRow → List PairingClaim
unconsumed [] = []
unconsumed ((id, c) ∷ d) =
    if is_consumed c.state
    then unconsumed d
    else (record {
      claim_id = id;
      claim_sealed = some c.sealed_claim;
      result_sealed = c.sealed_result;
      claim_state = c.state;
    }
        ∷ unconsumed d)

-- `PendingClaims`, with the claims in the order of the table and not of their identifiers.
unfoldable pub pending_claims : RouteClaims → ℕ → RouteClaims × List PairingClaim
unfolding unconsumed
pending_claims s now = (expire_claims now s, unconsumed (expire_claims now s).claims)

unfoldable pub new_state_of : String → Option ClaimState
new_state_of new_state =
    if str_eq new_state "approved"
    then some approved
    else (if str_eq new_state "rejected" then some rejected else none)

-- The UPDATE of `CompletePairingClaim`, on the row by its state.
unfoldable pub complete_row :
    ClaimState
    → RouteClaims
    → String
    → ClaimRow
    → ClaimState
    → String
    → RouteClaims × Option ClaimError
complete_row pending s claim_id c new_state sealed_result = (
  record s {
    claims =
        put claim_id (record c { sealed_result = some sealed_result; state = new_state }) s.claims;
  },
  none,
)
complete_row other s claim_id c new_state sealed_result = (s, some claim_not_found)

unfoldable pub complete_at :
    RouteClaims
    → String
    → Option ClaimState
    → String
    → Option ClaimRow
    → RouteClaims × Option ClaimError
unfolding complete_row
complete_at s claim_id none sealed_result o = (s, some invalid_state)
complete_at s claim_id (some new_state) sealed_result none = (s, some claim_not_found)
complete_at s claim_id (some new_state) sealed_result (some c) =
    complete_row c.state s claim_id c new_state sealed_result

unfoldable pub complete_pairing_claim :
    RouteClaims → String → String → String → RouteClaims × Option ClaimError
unfolding complete_at new_state_of
complete_pairing_claim s claim_id new_state sealed_result =
    complete_at s claim_id (new_state_of new_state) sealed_result (get claim_id s.claims)

unfoldable pub result_of : ClaimRow → String → ℕ → Option ℕ → Option PairingClaim
result_of c claim_id now (some _) = none
result_of c claim_id now none =
    if is_unexpired now c
    then some (record {
      claim_id = claim_id;
      claim_sealed = none;
      result_sealed = c.sealed_result;
      claim_state = c.state;
    })
    else none

unfoldable pub result_at : String → ℕ → Option ClaimRow → Option PairingClaim
unfolding result_of
result_at claim_id now none = none
result_at claim_id now (some c) = result_of c claim_id now c.consumed_at

-- `GetPairingResult`; sql.ErrNoRows is `none`.
unfoldable pub get_pairing_result : RouteClaims → String → ℕ → Option PairingClaim
unfolding result_at
get_pairing_result s claim_id now = result_at claim_id now (get claim_id s.claims)

-- The UPDATE of `ConsumePairingResult`, on the row by its state and consumed_at.
unfoldable pub consume_row :
    ClaimState → Option ℕ → RouteClaims → String → ClaimRow → ℕ → RouteClaims
consume_row approved none s claim_id c now = record s {
  claims = put claim_id (record c { consumed_at = some now; state = consumed }) s.claims;
}
consume_row rejected none s claim_id c now = record s {
  claims = put claim_id (record c { consumed_at = some now; state = consumed }) s.claims;
}
consume_row state consumed_at s claim_id c now = s

unfoldable pub consume_at : RouteClaims → String → ℕ → Option ClaimRow → RouteClaims
unfolding consume_row
consume_at s claim_id now none = s
consume_at s claim_id now (some c) = consume_row c.state c.consumed_at s claim_id c now

unfoldable pub consume_pairing_result : RouteClaims → String → ℕ → RouteClaims
unfolding consume_at
consume_pairing_result s claim_id now = consume_at s claim_id now (get claim_id s.claims)

-- A call of a method that changes the table.
pub data Call : Type 0 where
  submits : String → String → String → ℕ → ℕ → Call
  polls : ℕ → Call
  completes : String → String → String → Call
  consumes : String → ℕ → Call

unfoldable pub step : RouteClaims → Call → RouteClaims
unfolding submit_pairing_claim pending_claims complete_pairing_claim consume_pairing_result
step s (submits claim_id capability_hash sealed_claim now expires_at) =
    (submit_pairing_claim s claim_id capability_hash sealed_claim now expires_at).0
step s (polls now) = (pending_claims s now).0
step s (completes claim_id new_state sealed_result) =
    (complete_pairing_claim s claim_id new_state sealed_result).0
step s (consumes claim_id now) = consume_pairing_result s claim_id now

unfoldable pub run : RouteClaims → List Call → RouteClaims
unfolding step
run s [] = s
run s (c ∷ cs) = run (step s c) cs
