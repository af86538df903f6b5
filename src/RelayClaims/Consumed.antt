-- ===== src/RelayClaims/Consumed.antt =====
-- A result of a pairing claim of relay-server/internal/relay/store.go is given out until consumed.
use cccode_macbridge.Base.{
  ℕ, ◌≡◌, ◌≢◌, refl, sym, ap, ◌∙◌, String, inl, inr, ◌⊎◌, Option, none, some, List,
}
use cccode_macbridge.Base.Dict.{get, IsMap, get-put_self}
use cccode_macbridge.RelayClaims.{
  ClaimState, pending, approved, rejected, consumed, ClaimRow, RouteClaims, result_of, result_at,
  get_pairing_result, consume_row, consume_at, consume_pairing_result, Call, run,
}
use cccode_macbridge.RelayClaims.Rows.{consume_at-IsMap}
use cccode_macbridge.RelayClaims.Moves.{
  as_consumed, Follows, AllBefore, AllBefore-same, settled_stays,
}

-- A row that has been consumed.
abbrev HasConsumed : ClaimRow → Type 0
HasConsumed c = (n : ℕ) × (c.consumed_at ≡ some n)

Follows-HasConsumed : (c d : ClaimRow) → HasConsumed c → Follows c d → HasConsumed d
Follows-HasConsumed c d (n, h) (inl p) = (n, ap (λ x. x.consumed_at) p ∙ h)
Follows-HasConsumed c d (n, h) (inr (_, (k, p))) = (k, ap (λ x. x.consumed_at) p)

result_at_consumed :
    (j : String) (now : ℕ) (c : ClaimRow) → HasConsumed c → result_at j now (some c) ≡ none
unfolding result_at result_of
result_at_consumed j now c (n, h) = rw h refl

-- The row after `ConsumePairingResult` of a settled claim.
record IsSpent (j : String) (c : ClaimRow) (s : RouteClaims) : Type 0 where
  row : ClaimRow
  there : get j s.claims ≡ some row
  spent : HasConsumed row
  settled : row.state ≢ pending
  expiry : row.expires_at ≡ c.expires_at

consume_row-IsSpent :
    (j : String) (c : ClaimRow) (s : RouteClaims) (now : ℕ) (st : ClaimState) (at : Option ℕ)
    → c.state ≡ st
    → c.consumed_at ≡ at
    → (st ≡ approved) ⊎ (st ≡ rejected)
    → get j s.claims ≡ some c
    → IsSpent j c (consume_row st at s j c now)
unfolding consume_row
consume_row-IsSpent j c s now approved none p q h e = record {
  row = as_consumed now c;
  there = get-put_self j (as_consumed now c) s.claims;
  spent = (now, refl);
  settled = λ x. cc x;
  expiry = refl;
}
consume_row-IsSpent j c s now rejected none p q h e = record {
  row = as_consumed now c;
  there = get-put_self j (as_consumed now c) s.claims;
  spent = (now, refl);
  settled = λ x. cc x;
  expiry = refl;
}
consume_row-IsSpent j c s now approved (some n) p q h e = record {
  row = c;
  there = e;
  spent = (n, q);
  settled = λ x. cc (sym p ∙ x);
  expiry = refl;
}
consume_row-IsSpent j c s now rejected (some n) p q h e = record {
  row = c;
  there = e;
  spent = (n, q);
  settled = λ x. cc (sym p ∙ x);
  expiry = refl;
}
consume_row-IsSpent j c s now pending at p q (inl h) e = absurd (cc h)
consume_row-IsSpent j c s now pending at p q (inr h) e = absurd (cc h)
consume_row-IsSpent j c s now consumed at p q (inl h) e = absurd (cc h)
consume_row-IsSpent j c s now consumed at p q (inr h) e = absurd (cc h)

consume_pairing_result-IsSpent :
    (j : String) (c : ClaimRow) (s : RouteClaims) (now : ℕ)
    → (c.state ≡ approved) ⊎ (c.state ≡ rejected)
    → get j s.claims ≡ some c
    → IsSpent j c (consume_pairing_result s j now)
unfolding consume_pairing_result consume_at
consume_pairing_result-IsSpent j c s now h e =
    rw e (consume_row-IsSpent j c s now c.state c.consumed_at refl refl h e)

-- In a table with one row for a claim: once the result of an approved or rejected claim has been
-- consumed, `GetPairingResult` finds nothing for it at any time, after any history of calls whose
-- submissions and polls come before the claim expires.
pub consumed_once :
    (j : String) (c : ClaimRow) (s : RouteClaims) (at : ℕ) (cs : List Call) (now : ℕ)
    → IsMap s.claims
    → get j s.claims ≡ some c
    → (c.state ≡ approved) ⊎ (c.state ≡ rejected)
    → AllBefore j c cs
    → get_pairing_result (run (consume_pairing_result s j at) cs) j now ≡ none
unfolding get_pairing_result consume_pairing_result
consumed_once j c s at cs now m e h a =
    let v = consume_pairing_result-IsSpent j c s at h e in
    let (d, found, follows) =
      settled_stays j v.row (consume_pairing_result s j at) cs
        (consume_at-IsMap s j at (get j s.claims) m) (AllBefore-same j c v.row cs v.expiry a)
        v.settled v.there in
    ap (result_at j now) found
    ∙ result_at_consumed j now d (Follows-HasConsumed v.row d v.spent follows)
