-- ===== src/Mailbox/Tests.antt =====
-- Runs of go-bridge/relay_mailbox.go, and its theorems at concrete inputs.
use Prim.Native.Char.{code}
use cccode_macbridge.Base.{
  ℕ, zero, suc, ◌+◌, ◌≡◌, refl, ap, true, not, none, some, List, [], ◌∷◌, ◌++◌, map, ◌↔◌, arith,
  ltb, length, keep, eq_iff,
}
use cccode_macbridge.Base.Dict.{get, put}
use cccode_macbridge.Mailbox.{
  MailboxEntry, MailboxService, Call, enqueues, acks, clears, new_mailbox_service,
  capacity_exceeded, mailbox_not_found, mailbox_key, mailbox_or_new, make_entry, exceeds, make_room,
  append_entry, enqueue, fetch_frames, fetch, ack_frames, ack_mailbox, ack, expire, to_frame, step,
  run, stats,
}
use cccode_macbridge.Mailbox.Accounting.{
  IsSound, IsSoundService, run_accounted, new-IsSoundService, run-IsSoundService,
}
use cccode_macbridge.Mailbox.Capacity.{pending_at, Dropped, enqueue_accepts, enqueue_oversize}
use cccode_macbridge.Mailbox.Delivery.{
  past, page_of, fetch_lem, last_cursor, fetch_resumes, fetch_next_cursor_skips,
}
use cccode_macbridge.Mailbox.Settled.{ack_lem, expire_lem}
use cccode_macbridge.Mailbox.Keys.{HasNoColon, step_isolated}

abbrev history : List Call
history =
    enqueues "rt_1" "dev" (1 ∷ []) none 10 11
    ∷ enqueues "rt_1" "dev" (2 ∷ 2 ∷ []) none 20 21
    ∷ enqueues "rt_1" "dev" (3 ∷ []) none 30 31
    ∷ acks "rt_1" "dev" 1
    ∷ []

busy : MailboxService
unfolding run step enqueue ack mailbox_or_new make_room exceeds append_entry make_entry mailbox_key
    get put ack_mailbox ack_frames
busy = run new_mailbox_service history

busy-IsSoundService : IsSoundService busy
unfolding busy
busy-IsSoundService =
    run-IsSoundService new_mailbox_service history (omega arith) new-IsSoundService

fetched : (fetch busy "rt_1" "dev" 0 1).frames ≡ record { cursor = 2; envelope = 2 ∷ 2 ∷ [] } ∷ []
unfolding busy fetch fetch_frames
fetched = refl

counted_bytes : (stats busy "rt_1" "dev").total_bytes ≡ 3
unfolding busy stats
counted_bytes = refl

more_due : (fetch busy "rt_1" "dev" 0 1).has_more ≡ true
unfolding busy fetch fetch_frames
more_due = refl

-- A long envelope, which no test computes.
zeros : ℕ → List ℕ
zeros zero = []
zeros (suc n) = 0 ∷ zeros n

length-zeros : (n : ℕ) → length (zeros n) ≡ n
unfolding zeros
length-zeros zero = refl
length-zeros (suc n) = ap suc (length-zeros n)

run_accounted_example :
    IsSound
      (run new_mailbox_service history).mailbox_seq
      (mailbox_or_new "rt_1" "dev" (get "rt_1:dev" (run new_mailbox_service history).mailboxes))
unfolding busy
run_accounted_example = run_accounted history "rt_1:dev" _ (omega arith) refl

busy_seq : busy.mailbox_seq ≡ 3
unfolding busy
busy_seq = refl

enqueue_accepts_example :
    (kept : List MailboxEntry) × ((enqueue busy "rt_1" "dev" (7 ∷ []) none 40 41).1 ≡ none)
    × (pending_at (enqueue busy "rt_1" "dev" (7 ∷ []) none 40 41).0 "rt_1" "dev"
        ≡ kept ++ (make_entry (busy.mailbox_seq + 1) (7 ∷ []) 40 41 none ∷ []))
    × Dropped 1 (pending_at busy "rt_1" "dev") kept
enqueue_accepts_example =
    enqueue_accepts busy "rt_1" "dev" (7 ∷ []) none 40 41 busy-IsSoundService
      (omega (arith, busy_seq)) (omega arith)

enqueue_oversize_example :
    ((enqueue busy "rt_1" "dev" (zeros 52428801) none 40 41).1 ≡ some capacity_exceeded)
    × (pending_at (enqueue busy "rt_1" "dev" (zeros 52428801) none 40 41).0 "rt_1" "dev" ≡ [])
enqueue_oversize_example =
    enqueue_oversize busy "rt_1" "dev" (zeros 52428801) none 40 41 busy-IsSoundService
      (omega (arith, length-zeros 52428801))

fetch_lem_example : fetch busy "rt_1" "dev" 0 1 ≡ page_of 1 (past 0 (pending_at busy "rt_1" "dev"))
fetch_lem_example = fetch_lem busy "rt_1" "dev" 0 1

fetch_resumes_example :
    (fetch busy "rt_1" "dev" 0 1).frames
      ++ map to_frame
          (past (last_cursor 0 (fetch busy "rt_1" "dev" 0 1).frames) (pending_at busy "rt_1" "dev"))
    ≡ map to_frame (past 0 (pending_at busy "rt_1" "dev"))
fetch_resumes_example = fetch_resumes busy busy-IsSoundService "rt_1" "dev" 0 1

fetch_next_cursor_skips_example :
    (skipped : MailboxEntry) × (skipped.cursor ≡ (fetch busy "rt_1" "dev" 0 1).next_cursor)
    × (map to_frame (past 0 (pending_at busy "rt_1" "dev"))
        ≡ (fetch busy "rt_1" "dev" 0 1).frames
          ++ (to_frame skipped
              ∷ map to_frame
                  (past (fetch busy "rt_1" "dev" 0 1).next_cursor (pending_at busy "rt_1" "dev"))))
fetch_next_cursor_skips_example =
    fetch_next_cursor_skips busy busy-IsSoundService "rt_1" "dev" 0 1 more_due

ack_lem_example :
    (pending_at (ack busy "rt_1" "dev" 2).0 "rt_1" "dev" ≡ past 2 (pending_at busy "rt_1" "dev"))
    × (((ack busy "rt_1" "dev" 2).1 ≡ some mailbox_not_found)
        ↔ (get (mailbox_key "rt_1" "dev") busy.mailboxes ≡ none))
ack_lem_example = ack_lem busy "rt_1" "dev" 2

expire_lem_example :
    (pending_at (expire busy "rt_1" "dev" 86400000000022).0 "rt_1" "dev"
      ≡ keep (λ f. not (ltb f.expires_at 86400000000022)) (pending_at busy "rt_1" "dev"))
    × ((expire busy "rt_1" "dev" 86400000000022).1
          + length (pending_at (expire busy "rt_1" "dev" 86400000000022).0 "rt_1" "dev")
        ≡ length (pending_at busy "rt_1" "dev"))
expire_lem_example = expire_lem busy "rt_1" "dev" 86400000000022

rt_1-HasNoColon : HasNoColon "rt_1"
rt_1-HasNoColon = (
  λ e. omega (arith, ap code e),
  (
    λ e. omega (arith, ap code e),
    (λ e. omega (arith, ap code e), (λ e. omega (arith, ap code e), tt)),
  ),
)

step_isolated_example :
    pending_at (step busy (clears "rt_1" "other")) "rt_1" "dev" ≡ pending_at busy "rt_1" "dev"
step_isolated_example =
    step_isolated busy (clears "rt_1" "other") "rt_1" "dev" busy-IsSoundService.is_map
      rt_1-HasNoColon rt_1-HasNoColon (λ e. ground (arith, e.1, eq_iff "other" "dev"))
