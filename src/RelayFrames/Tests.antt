-- ===== src/RelayFrames/Tests.antt =====
-- Runs of relay-server/internal/relay/store.go's frames, and its theorems at concrete inputs.
use cccode_macbridge.Base.{◌≡◌, refl, inl, List, [], ◌∷◌, arith}
use cccode_macbridge.RelayFrames.{
  new_route_device, evict, count_evicted, keep_row, insert_row, inserted, insert_after,
  append_frame, ack_rows, ack_frames, register_device, Call, appends, acks, registers, step, run,
}
use cccode_macbridge.RelayFrames.Append.{IsAppended}
use cccode_macbridge.RelayFrames.History.{append_frame_after}

abbrev history : List Call
history =
    registers
    ∷ appends (1 ∷ 2 ∷ []) 10 100 5
    ∷ appends (3 ∷ 4 ∷ []) 11 100 5
    ∷ appends (5 ∷ []) 12 100 5
    ∷ acks 1
    ∷ []

-- The acknowledged frame goes first, and then one of the other two.
append_frame-evicts :
    (append_frame (run new_route_device history) (6 ∷ 7 ∷ 8 ∷ 9 ∷ []) 13 100 5).1 ≡ inl (4, 1)
unfolding run step append_frame insert_after inserted insert_row evict count_evicted keep_row
    ack_rows ack_frames register_device
append_frame-evicts = refl

append_frame_after_example : IsAppended (run new_route_device history) (6 ∷ 7 ∷ 8 ∷ 9 ∷ []) 13 100 5
unfolding run step append_frame insert_after inserted insert_row evict count_evicted keep_row
    ack_rows ack_frames register_device
append_frame_after_example =
    append_frame_after history (6 ∷ 7 ∷ 8 ∷ 9 ∷ []) 13 100 5 refl (omega arith)
