-- ===== src/RelayClaims/Rows.antt =====
-- The rows of relay-server/internal/relay/store.go's claims keep their key: one row for a claim.
use cccode_macbridge.Base.{ℕ, String, ◌&&◌, inl, inr, Option, none, some, str_eq, Bool-cases}
use cccode_macbridge.Base.Dict.{get, IsMap, put-IsMap, retain-IsMap}
use cccode_macbridge.RelayClaims.{
  ClaimState, pending, approved, rejected, ClaimRow, RouteClaims, new_claim, is_unexpired,
  expire_claims, submit_over, submit_pairing_claim, pending_claims, new_state_of, complete_row,
  complete_at, complete_pairing_claim, consume_row, consume_at, consume_pairing_result, Call,
  submits, polls, completes, consumes, step,
}

submit_over-IsMap :
    (before s : RouteClaims) (id : String) (x : ClaimRow) (o : Option ClaimRow)
    → IsMap before.claims
    → IsMap s.claims
    → IsMap (submit_over before s id x o).0.claims
unfolding submit_over
submit_over-IsMap before s id x (some existing) b m =
    elim (Bool-cases (
      str_eq existing.capability_hash x.capability_hash
      && str_eq existing.sealed_claim x.sealed_claim)) [
        | inl same ↦ rw same m
        | inr other ↦ rw other b
      ]
submit_over-IsMap before s id x none b m = elim (Bool-cases s.route_active) [
  | inl active ↦ rw active (put-IsMap id x s.claims m)
  | inr gone ↦ rw gone m
]

complete_at-IsMap :
    (s : RouteClaims) (id : String) (new_state : Option ClaimState) (result : String)
    (o : Option ClaimRow)
    → IsMap s.claims
    → IsMap (complete_at s id new_state result o).0.claims
unfolding complete_at complete_row
complete_at-IsMap s id none result o m = m
complete_at-IsMap s id (some st) result none m = m
complete_at-IsMap s id (some st) result (some x) m = row x.state
  where
    row : (q : ClaimState) → IsMap (complete_row q s id x st result).0.claims
    row pending = put-IsMap id _ s.claims m
    row other = m

consume_row-IsMap :
    (st : ClaimState) (at : Option ℕ) (s : RouteClaims) (id : String) (x : ClaimRow) (now : ℕ)
    → IsMap s.claims
    → IsMap (consume_row st at s id x now).claims
unfolding consume_row
consume_row-IsMap approved none s id x now m = put-IsMap id _ s.claims m
consume_row-IsMap rejected none s id x now m = put-IsMap id _ s.claims m
consume_row-IsMap st at s id x now m = m

pub consume_at-IsMap :
    (s : RouteClaims) (id : String) (now : ℕ) (o : Option ClaimRow)
    → IsMap s.claims
    → IsMap (consume_at s id now o).claims
unfolding consume_at
consume_at-IsMap s id now none m = m
consume_at-IsMap s id now (some x) m = consume_row-IsMap x.state x.consumed_at s id x now m

pub step-IsMap : (s : RouteClaims) (call : Call) → IsMap s.claims → IsMap (step s call).claims
unfolding step submit_pairing_claim pending_claims complete_pairing_claim consume_pairing_result
step-IsMap s (submits id hash sealed now expires_at) m =
    submit_over-IsMap s (expire_claims now s) id (new_claim hash sealed expires_at)
      (get id (expire_claims now s).claims) m (retain-IsMap (is_unexpired now) s.claims m)
step-IsMap s (polls now) m = retain-IsMap (is_unexpired now) s.claims m
step-IsMap s (completes id new_state result) m =
    complete_at-IsMap s id (new_state_of new_state) result (get id s.claims) m
step-IsMap s (consumes id now) m = consume_at-IsMap s id now (get id s.claims) m
