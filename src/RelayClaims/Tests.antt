-- ===== src/RelayClaims/Tests.antt =====
-- Runs of relay-server/internal/relay/store.go's pairing claims, and theorems at concrete inputs.
use cccode_macbridge.Base.{◌≡◌, refl, true, inl, none, some, List, [], ◌∷◌}
use cccode_macbridge.Base.Dict.{get, put, retain}
use cccode_macbridge.RelayClaims.{
  approved, ClaimRow, RouteClaims, new_claim, submit_over, submit_pairing_claim, new_state_of,
  complete_row, complete_at, complete_pairing_claim, consume_pairing_result, get_pairing_result,
  Call, submits, polls, completes, consumes, step, run,
}
use cccode_macbridge.RelayClaims.Moves.{Kept, settled_stays}
use cccode_macbridge.RelayClaims.Consumed.{consumed_once}

abbrev approved_row : ClaimRow
approved_row = record (new_claim "hash" "sealed" 100) {
  sealed_result = some "result";
  state = approved;
}

abbrev settled : RouteClaims
settled = record { route_active = true; claims = ("c", approved_row) ∷ [] }

abbrev new_route : RouteClaims
new_route = record { route_active = true; claims = [] }

abbrev later : List Call
later = submits "c" "other" "sealed" 50 150 ∷ completes "c" "rejected" "no" ∷ polls 60 ∷ []

-- A claim that is submitted and approved is the row above.
run-settled :
    run new_route (submits "c" "hash" "sealed" 10 100 ∷ completes "c" "approved" "result" ∷ [])
    ≡ settled
unfolding run step submit_pairing_claim submit_over new_state_of complete_row complete_at
    complete_pairing_claim get put retain
run-settled = refl

settled_stays_example : Kept "c" approved_row (run settled (consumes "c" 40 ∷ later))
unfolding get
settled_stays_example =
    settled_stays "c" approved_row settled (consumes "c" 40 ∷ later) (refl, tt)
      (tt, (refl, (tt, (refl, tt)))) (λ e. cc e) refl

consumed_once_example :
    get_pairing_result (run (consume_pairing_result settled "c" 40) later) "c" 70 ≡ none
unfolding get
consumed_once_example =
    consumed_once "c" approved_row settled 40 later 70 (refl, tt) refl (inl refl)
      (refl, (tt, (refl, tt)))
