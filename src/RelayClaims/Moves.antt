-- ===== src/RelayClaims/Moves.antt =====
-- A settled pairing claim of relay-server/internal/relay/store.go keeps its result.
use mathlib.Core.Option.{some-injective}
use cccode_macbridge.Base.{
  ℕ, ◌≡◌, ◌≢◌, refl, sym, ap, ◌∙◌, String, true, ◌&&◌, inl, inr, ◌⊎◌, Option, none, some, List, [],
  ◌∷◌, str_eq, eq_iff, Bool-cases,
}
use cccode_macbridge.Base.Dict.{Dict, get, put, IsMap, get-put, get-put_ne, get-retain}
use cccode_macbridge.RelayClaims.{
  ClaimState, pending, approved, rejected, consumed, ClaimRow, RouteClaims, new_claim, is_unexpired,
  expire_claims, submit_over, submit_pairing_claim, pending_claims, new_state_of, complete_row,
  complete_at, complete_pairing_claim, consume_row, consume_at, consume_pairing_result, Call,
  submits, polls, completes, consumes, step, run,
}
use cccode_macbridge.RelayClaims.Rows.{step-IsMap}

abbrev pub as_consumed : ℕ → ClaimRow → ClaimRow
as_consumed n c = record c { consumed_at = some n; state = consumed }

-- The row after: the same, or the same but consumed, if it was not yet.
abbrev pub Follows : ClaimRow → ClaimRow → Type 0
Follows c d = (d ≡ c) ⊎ ((c.state ≢ consumed) × ((n : ℕ) × (d ≡ as_consumed n c)))

-- The row of a claim that was `c` is one that follows it.
abbrev pub Kept : String → ClaimRow → RouteClaims → Type 0
Kept j c s = (d : ClaimRow) × (get j s.claims ≡ some d) × Follows c d

pub Follows-trans : (a b c : ClaimRow) → Follows a b → Follows b c → Follows a c
Follows-trans a b c (inl p) (inl q) = inl (q ∙ p)
Follows-trans a b c (inl p) (inr (h, (n, q))) =
    inr (λ e. h (ap (λ x. x.state) p ∙ e), (n, q ∙ ap (as_consumed n) p))
Follows-trans a b c (inr (h, (n, p))) (inl q) = inr (h, (n, q ∙ p))
Follows-trans a b c (inr (h, (n, p))) (inr (k, _)) = absurd (k (ap (λ x. x.state) p))

Follows-expires : (c d : ClaimRow) → Follows c d → d.expires_at ≡ c.expires_at
Follows-expires c d (inl p) = ap (λ x. x.expires_at) p
Follows-expires c d (inr (h, (n, p))) = ap (λ x. x.expires_at) p

consumed-ne-pending : consumed ≢ pending
consumed-ne-pending e = cc e

Follows-settled : (c d : ClaimRow) → Follows c d → c.state ≢ pending → d.state ≢ pending
Follows-settled c d (inl p) h e = h (sym (ap (λ x. x.state) p) ∙ e)
Follows-settled c d (inr (_, (n, p))) h e = consumed-ne-pending (sym (ap (λ x. x.state) p) ∙ e)

module _ (j : String) (c : ClaimRow) where
  get-expire_claims :
      (now : ℕ) (s : RouteClaims)
      → IsMap s.claims
      → is_unexpired now c ≡ true
      → get j s.claims ≡ some c
      → get j (expire_claims now s).claims ≡ some c
  get-expire_claims now s m live e = rw (get-retain (is_unexpired now) j s.claims m, e, live) refl

  -- A write at another identifier, or at one that had no row.
  get-put_kept :
      (id : String) (x : ClaimRow) (d : Dict ClaimRow)
      → get j d ≡ some c
      → (str_eq id j ≡ true → get j d ≢ some c)
      → get j (put id x d) ≡ some c
  get-put_kept id x d e h = elim (Bool-cases (str_eq id j)) [
    | inl same ↦ absurd (h same e)
    | inr other ↦ get-put_ne id j x d other ∙ e
  ]

  submit_over-keeps :
      (before s : RouteClaims) (id : String) (x : ClaimRow) (o : Option ClaimRow)
      → get id s.claims ≡ o
      → get j before.claims ≡ some c
      → get j s.claims ≡ some c
      → get j (submit_over before s id x o).0.claims ≡ some c
  unfolding submit_over
  submit_over-keeps before s id x (some existing) found e f =
      elim (Bool-cases (
        str_eq existing.capability_hash x.capability_hash
        && str_eq existing.sealed_claim x.sealed_claim)) [
          | inl same ↦ rw same f
          | inr other ↦ rw other e
        ]
  submit_over-keeps before s id x none found e f = elim (Bool-cases s.route_active) [
    | inl active ↦
        rw active (get-put_kept id x s.claims f (λ same _. cc (found, f, (eq_iff id j).0 same)))
    | inr gone ↦ rw gone f
  ]

  complete_row-keeps :
      (st : ClaimState) (s : RouteClaims) (id : String) (x : ClaimRow) (new_state : ClaimState)
      (result : String)
      → x.state ≡ st
      → get id s.claims ≡ some x
      → c.state ≢ pending
      → get j s.claims ≡ some c
      → get j (complete_row st s id x new_state result).0.claims ≡ some c
  unfolding complete_row
  complete_row-keeps pending s id x new_state result p found h e =
      get-put_kept id _ s.claims e (λ same _. h (
        ap (λ y. y.state)
          (sym
            (some-injective x c (sym found ∙ ap (λ k. get k s.claims) ((eq_iff id j).0 same) ∙ e)))
        ∙ p))
  complete_row-keeps other s id x new_state result p found h e = e

  complete_at-keeps :
      (s : RouteClaims) (id : String) (new_state : Option ClaimState) (result : String)
      (o : Option ClaimRow)
      → get id s.claims ≡ o
      → c.state ≢ pending
      → get j s.claims ≡ some c
      → get j (complete_at s id new_state result o).0.claims ≡ some c
  unfolding complete_at
  complete_at-keeps s id none result o found h e = e
  complete_at-keeps s id (some st) result none found h e = e
  complete_at-keeps s id (some st) result (some x) found h e =
      complete_row-keeps x.state s id x st result refl found h e

  -- The row is written as consumed.
  put_consumed-Kept :
      (s : RouteClaims) (id : String) (x : ClaimRow) (now : ℕ)
      → x.state ≢ consumed
      → get id s.claims ≡ some x
      → get j s.claims ≡ some c
      → Kept j c (record s { claims = put id (as_consumed now x) s.claims })
  put_consumed-Kept s id x now h found e = elim (Bool-cases (str_eq id j)) [
    | inl same ↦
        let p =
          some-injective x c (sym found ∙ ap (λ k. get k s.claims) ((eq_iff id j).0 same) ∙ e) in
        (
          as_consumed now x,
          rw (get-put id j (as_consumed now x) s.claims, same) refl,
          inr (λ q. h (ap (λ y. y.state) p ∙ q), (now, ap (as_consumed now) p)),
        )
    | inr other ↦ (c, get-put_ne id j _ s.claims other ∙ e, inl refl)
  ]

  consume_row-Kept :
      (st : ClaimState) (at : Option ℕ) (s : RouteClaims) (id : String) (x : ClaimRow) (now : ℕ)
      → x.state ≡ st
      → get id s.claims ≡ some x
      → get j s.claims ≡ some c
      → Kept j c (consume_row st at s id x now)
  unfolding consume_row
  consume_row-Kept approved none s id x now p found e =
      put_consumed-Kept s id x now (λ q. cc (sym p ∙ q)) found e
  consume_row-Kept rejected none s id x now p found e =
      put_consumed-Kept s id x now (λ q. cc (sym p ∙ q)) found e
  consume_row-Kept st at s id x now p found e = (c, e, inl refl)

  consume_at-Kept :
      (s : RouteClaims) (id : String) (now : ℕ) (o : Option ClaimRow)
      → get id s.claims ≡ o
      → get j s.claims ≡ some c
      → Kept j c (consume_at s id now o)
  unfolding consume_at
  consume_at-Kept s id now none found e = (c, e, inl refl)
  consume_at-Kept s id now (some x) found e =
      consume_row-Kept x.state x.consumed_at s id x now refl found e

  -- Whether a call comes before the claim expires.
  abbrev pub IsBefore : Call → Type 0
  IsBefore (submits id hash sealed now expires_at) = is_unexpired now c ≡ true
  IsBefore (polls now) = is_unexpired now c ≡ true
  IsBefore call = Unit

  step-Kept :
      (s : RouteClaims) (call : Call)
      → IsMap s.claims
      → IsBefore call
      → c.state ≢ pending
      → get j s.claims ≡ some c
      → Kept j c (step s call)
  unfolding step submit_pairing_claim pending_claims complete_pairing_claim consume_pairing_result
  step-Kept s (submits id hash sealed now expires_at) m live h e = (
    c,
    submit_over-keeps s (expire_claims now s) id (new_claim hash sealed expires_at)
        (get id (expire_claims now s).claims) refl e (get-expire_claims now s m live e),
    inl refl,
  )
  step-Kept s (polls now) m live h e = (c, get-expire_claims now s m live e, inl refl)
  step-Kept s (completes id new_state result) m live h e = (
    c,
    complete_at-keeps s id (new_state_of new_state) result (get id s.claims) refl h e,
    inl refl,
  )
  step-Kept s (consumes id now) m live h e = consume_at-Kept s id now (get id s.claims) refl e

abbrev pub AllBefore : String → ClaimRow → List Call → Type 0
AllBefore j c [] = Unit
AllBefore j c (call ∷ cs) = IsBefore j c call × AllBefore j c cs

-- Only the time of expiry matters to what comes before it.
pub AllBefore-same :
    (j : String) (c d : ClaimRow) (cs : List Call)
    → d.expires_at ≡ c.expires_at
    → AllBefore j c cs
    → AllBefore j d cs
AllBefore-same j c d [] p a = tt
AllBefore-same j c d (submits id hash sealed now expires_at ∷ cs) p a =
    (rw p a.0, AllBefore-same j c d cs p a.1)
AllBefore-same j c d (polls now ∷ cs) p a = (rw p a.0, AllBefore-same j c d cs p a.1)
AllBefore-same j c d (completes id new_state result ∷ cs) p a = (tt, AllBefore-same j c d cs p a.1)
AllBefore-same j c d (consumes id now ∷ cs) p a = (tt, AllBefore-same j c d cs p a.1)

-- In a table with one row for a claim: once a claim is no longer pending, then after any history of
-- calls, whose submissions and polls come before it expires, its row is there as it was, with its
-- result, or differs only in being consumed since.
pub settled_stays :
    (j : String) (c : ClaimRow) (s : RouteClaims) (cs : List Call)
    → IsMap s.claims
    → AllBefore j c cs
    → c.state ≢ pending
    → get j s.claims ≡ some c
    → Kept j c (run s cs)
unfolding run
settled_stays j c s [] m a h e = (c, e, inl refl)
settled_stays j c s (call ∷ cs) m a h e =
    let (d, there, follows) = step-Kept j c s call m a.0 h e in
    let (z, found, on) =
      settled_stays j d (step s call) cs (step-IsMap s call m)
        (AllBefore-same j c d cs (Follows-expires c d follows) a.1) (Follows-settled c d follows h)
        there in
    (z, found, Follows-trans c d z follows on)
