-- ===== src/RelayFrames/History.antt =====
-- Histories of calls on a device's mailbox of relay-server/internal/relay/store.go.
use cccode_macbridge.Base.{
  ℕ, ◌+◌, ◌≤◌, ◌≡◌, refl, true, false, inl, inr, List, [], ◌∷◌, arith, ltb, leb, length, Bool-cases,
}
use cccode_macbridge.RelayFrames.{
  FrameRow, RouteDevice, is_waiting, is_active, append_frame, fetch_frames, ack_rows, ack_frames,
  expire_frames, register_device, revoke_device, new_route_device, Call, appends, fetches, acks,
  expires, registers, revokes, step, run,
}
use cccode_macbridge.RelayFrames.Rows.{Ascends, Ascends-keep}
use cccode_macbridge.RelayFrames.Append.{IsAppended, append_frame_lem}

abbrev HasOrder : RouteDevice → Type 0
HasOrder d = Ascends 0 d.frames d.next_cursor

append_frame_large :
    (d : RouteDevice) (envelope : List ℕ) (now expires_at max_bytes : ℕ)
    → ltb max_bytes (length envelope) ≡ true
    → (append_frame d envelope now expires_at max_bytes).0 ≡ d
unfolding append_frame
append_frame_large d envelope now expires_at max_bytes h = rw h refl

append_frame_inactive :
    (d : RouteDevice) (envelope : List ℕ) (now expires_at max_bytes : ℕ)
    → ltb max_bytes (length envelope) ≡ false
    → is_active d ≡ false
    → (append_frame d envelope now expires_at max_bytes).0 ≡ d
unfolding append_frame
append_frame_inactive d envelope now expires_at max_bytes h g = rw (h, g) refl

le_of_ltb : (a b : ℕ) → ltb a b ≡ false → b ≤ a
le_of_ltb a b h = ground arith

append_frame-HasOrder :
    (d : RouteDevice) (envelope : List ℕ) (now expires_at max_bytes : ℕ)
    → HasOrder d
    → HasOrder (append_frame d envelope now expires_at max_bytes).0
append_frame-HasOrder d envelope now expires_at max_bytes a =
    elim (Bool-cases (ltb max_bytes (length envelope))) [
      | inl large ↦ rw (append_frame_large d envelope now expires_at max_bytes large) a
      | inr small ↦ elim (Bool-cases (is_active d)) [
        | inr gone ↦ rw (append_frame_inactive d envelope now expires_at max_bytes small gone) a
        | inl active ↦
            let v =
              append_frame_lem d envelope now expires_at max_bytes a active
                (le_of_ltb max_bytes (length envelope) small) in
            rw v.result v.ascends
      ]
    ]

Ascends-ack_rows :
    (through low high : ℕ) (fs : List FrameRow)
    → Ascends low fs high
    → Ascends low (ack_rows through fs) high
unfolding ack_rows
Ascends-ack_rows through low high [] a = a
Ascends-ack_rows through low high (f ∷ fs) a = elim (Bool-cases (leb f.cursor through)) [
  | inl settled ↦ rw settled (a.0, Ascends-ack_rows through (f.cursor + 1) high fs a.1)
  | inr other ↦ rw other (a.0, Ascends-ack_rows through (f.cursor + 1) high fs a.1)
]

step-HasOrder : (d : RouteDevice) (c : Call) → HasOrder d → HasOrder (step d c)
unfolding step fetch_frames ack_frames expire_frames register_device revoke_device
step-HasOrder d (appends envelope now expires_at max_bytes) a =
    append_frame-HasOrder d envelope now expires_at max_bytes a
step-HasOrder d (fetches after limit now) a =
    Ascends-keep (λ f. ltb now f.expires_at) 0 d.next_cursor d.frames a
step-HasOrder d (acks through) a = Ascends-ack_rows through 0 d.next_cursor d.frames a
step-HasOrder d (expires now) a = Ascends-keep (is_waiting now) 0 d.next_cursor d.frames a
step-HasOrder d registers a = elim (Bool-cases d.route_active) [
  | inl active ↦ rw active a
  | inr gone ↦ rw gone a
]
step-HasOrder d revokes a = elim (Bool-cases d.device_active) [
  | inl active ↦ rw active (omega arith)
  | inr gone ↦ rw gone a
]

run-HasOrder : (d : RouteDevice) (cs : List Call) → HasOrder d → HasOrder (run d cs)
unfolding run
run-HasOrder d [] a = a
run-HasOrder d (c ∷ cs) a = run-HasOrder (step d c) cs (step-HasOrder d c a)

-- After any history of calls on a new device that leaves it active, a frame no larger than the
-- mailbox is appended: of the frames that wait, unexpired and not acknowledged, the oldest are
-- dropped, no more than needed; the new frame follows the others and has the next cursor, all fit
-- the mailbox, and their cursors ascend below the new next cursor.
pub append_frame_after :
    (cs : List Call) (envelope : List ℕ) (now expires_at max_bytes : ℕ)
    → is_active (run new_route_device cs) ≡ true
    → length envelope ≤ max_bytes
    → IsAppended (run new_route_device cs) envelope now expires_at max_bytes
append_frame_after cs envelope now expires_at max_bytes active small =
    append_frame_lem (run new_route_device cs) envelope now expires_at max_bytes
      (run-HasOrder new_route_device cs (omega arith)) active small
