-- ===== src/RelayFrames/Append.antt =====
-- `AppendFrame` of relay-server/internal/relay/store.go never fails for a frame that is small enough.
use mathlib.Core.Path.{subst}
use cccode_macbridge.Base.{
  ℕ, ◌+◌, ◌≤◌, ◌≡◌, refl, true, false, inl, some, List, [], ◌∷◌, ◌++◌, arith, ltb, length, total,
  total-append,
}
use cccode_macbridge.RelayFrames.{
  FrameRow, RouteDevice, is_waiting, is_active, waiting, new_row, evict, insert_row, inserted,
  insert_after, append_frame,
}
use cccode_macbridge.RelayFrames.Rows.{
  Ascends, Ascends-keep, Ascends-suffix, Ascends-append, insert_row_last, keep-Pending,
  keep_unacked, Needed, evict_lem,
}

-- What `AppendFrame` does to the frames of the device.
pub record IsAppended (d : RouteDevice) (envelope : List ℕ) (now expires_at max_bytes : ℕ)
    : Type 0 where
  pub dropped : List FrameRow
  pub kept : List FrameRow
  pub split : waiting now d ≡ dropped ++ kept
  pub needed : Needed (length envelope) max_bytes dropped kept
  pub result : append_frame d envelope now expires_at max_bytes ≡ (
    record d {
      frames = kept ++ (new_row d.next_cursor envelope expires_at ∷ []);
      next_cursor = d.next_cursor + 1;
    },
    inl (d.next_cursor, length dropped),
  )
  pub fits :
      total (λ f. f.size) (kept ++ (new_row d.next_cursor envelope expires_at ∷ [])) ≤ max_bytes
  pub ascends :
      Ascends 0 (kept ++ (new_row d.next_cursor envelope expires_at ∷ [])) (d.next_cursor + 1)

module _ (d : RouteDevice) (envelope : List ℕ) (now expires_at max_bytes : ℕ) where
  append_frame_from :
      (kept : List FrameRow) (n : ℕ)
      → ltb max_bytes (length envelope) ≡ false
      → is_active d ≡ true
      → evict (length envelope) max_bytes (waiting now d) (total (λ f. f.size) (waiting now d))
        ≡ some (kept, n)
      → insert_row (new_row d.next_cursor envelope expires_at) kept
        ≡ some (kept ++ (new_row d.next_cursor envelope expires_at ∷ []))
      → append_frame d envelope now expires_at max_bytes ≡ (
        record d {
          frames = kept ++ (new_row d.next_cursor envelope expires_at ∷ []);
          next_cursor = d.next_cursor + 1;
        },
        inl (d.next_cursor, n),
      )
  unfolding append_frame insert_after inserted
  append_frame_from kept n small active evicted placed =
      rw (small, active, keep_unacked (waiting now d) (keep-Pending now d.frames), evicted, placed)
        refl

  pub append_frame_lem :
      Ascends 0 d.frames d.next_cursor
      → is_active d ≡ true
      → length envelope ≤ max_bytes
      → IsAppended d envelope now expires_at max_bytes
  append_frame_lem a active small =
      let v =
        evict_lem (length envelope) max_bytes (waiting now d) small (keep-Pending now d.frames) in
      let up = Ascends-suffix 0 d.next_cursor v.dropped v.kept (
        subst (λ fs. Ascends 0 fs d.next_cursor) v.split
          (Ascends-keep (is_waiting now) 0 d.next_cursor d.frames a)) in
      record {
        dropped = v.dropped;
        kept = v.kept;
        split = v.split;
        needed = v.needed;
        result =
            append_frame_from v.kept (length v.dropped) (ground arith) active v.result
              (insert_row_last 0 (new_row d.next_cursor envelope expires_at) v.kept up);
        fits =
            rw
              (total-append (λ (f : FrameRow). f.size) v.kept
                (new_row d.next_cursor envelope expires_at ∷ []))
              (omega (arith, v.fits));
        ascends = Ascends-append 0 (new_row d.next_cursor envelope expires_at) v.kept up;
      }
