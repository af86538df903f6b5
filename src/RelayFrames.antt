-- ===== src/RelayFrames.antt =====
-- The mailbox of one device in relay-server/internal/relay/store.go: its row of route_devices and
-- its rows of mailbox_frames, which every statement selects by route and device. The rows are held
-- in the order of their key, the cursor. A transaction that fails leaves them as they were. Times
-- are `Unix()` seconds. Errors of the database itself are not modelled.
pub mod Rows
pub mod Append
pub mod History
mod Tests
use cccode_macbridge.Base.{
  ℕ, ◌+◌, ◌-◌, String, Bool, true, false, not, ◌&&◌, ◌||◌, Option, none, some, List, [], ◌∷◌, ◌++◌,
  ◌⊎◌, inl, inr, ltb, leb, ◌==◌, if◌then◌else◌, length, take, keep, total,
}

-- `acked`: acked_at is not NULL. `size` is envelope_size.
pub record FrameRow : Type 0 where
  pub cursor : ℕ
  pub envelope : List ℕ
  pub size : ℕ
  pub expires_at : ℕ
  pub acked : Bool

-- `route_active` and `device_active`: the row exists and its revoked_at is NULL.
pub record RouteDevice : Type 0 where
  pub route_active : Bool
  pub device_active : Bool
  pub next_cursor : ℕ
  pub frames : List FrameRow

pub data FrameError : Type 0 where
  frame_too_large inactive_destination evict_failed cursor_taken device_not_found : FrameError

-- DELETE ... AND (expires_at <= ? OR acked_at IS NOT NULL)
abbrev pub is_waiting : ℕ → FrameRow → Bool
is_waiting now f = ltb now f.expires_at && not f.acked

-- The loop of `AppendFrame`: while the frame of this size does not fit, the first row without an
-- acknowledgement goes. Gives the rows and how many went, or nothing where no row is left.
unfoldable pub count_evicted : ℕ → Option (List FrameRow × ℕ) → Option (List FrameRow × ℕ)
count_evicted n none = none
count_evicted n (some (rows, evicted)) = some (rows, evicted + n)

unfoldable pub keep_row : FrameRow → Option (List FrameRow × ℕ) → Option (List FrameRow × ℕ)
keep_row f none = none
keep_row f (some (rows, evicted)) = some (f ∷ rows, evicted)

unfoldable pub evict : ℕ → ℕ → List FrameRow → ℕ → Option (List FrameRow × ℕ)
unfolding count_evicted keep_row
evict size max_bytes [] current = if leb (current + size) max_bytes then some ([], 0) else none
evict size max_bytes (f ∷ fs) current =
    let after_keeping = evict size max_bytes fs current in
    let after_dropping = evict size max_bytes fs (current - f.size) in
    if leb (current + size) max_bytes
    then some (f ∷ fs, 0)
    else (if f.acked then keep_row f after_keeping else count_evicted 1 after_dropping)

-- INSERT INTO mailbox_frames, which fails where the key is taken.
unfoldable pub insert_row : FrameRow → List FrameRow → Option (List FrameRow)
insert_row f [] = some (f ∷ [])
insert_row f (g ∷ gs) =
    let rest = insert_row f gs in
    if g.cursor == f.cursor
    then none
    else (if ltb f.cursor g.cursor
        then some (f ∷ g ∷ gs)
        else elim rest [ none ↦ none | some rows ↦ some (g ∷ rows) ])

abbrev pub new_row : ℕ → List ℕ → ℕ → FrameRow
new_row cursor envelope expires_at = record {
  cursor = cursor;
  envelope = envelope;
  size = length envelope;
  expires_at = expires_at;
  acked = false;
}

-- The end of `AppendFrame`, by what the insertion gives.
unfoldable pub inserted :
    RouteDevice → ℕ → Option (List FrameRow) → RouteDevice × ((ℕ × ℕ) ⊎ FrameError)
inserted d evicted none = (d, inr cursor_taken)
inserted d evicted (some rows) =
    (record d { frames = rows; next_cursor = d.next_cursor + 1 }, inl (d.next_cursor, evicted))

unfoldable pub insert_after :
    RouteDevice → List ℕ → ℕ → Option (List FrameRow × ℕ) → RouteDevice × ((ℕ × ℕ) ⊎ FrameError)
unfolding inserted insert_row
insert_after d envelope expires_at none = (d, inr evict_failed)
insert_after d envelope expires_at (some (rows, evicted)) =
    inserted d evicted (insert_row (new_row d.next_cursor envelope expires_at) rows)

abbrev pub is_active : RouteDevice → Bool
is_active d = d.device_active && d.route_active

-- The rows that the DELETE of `AppendFrame` leaves, all without an acknowledgement.
abbrev pub waiting : ℕ → RouteDevice → List FrameRow
waiting now d = keep (is_waiting now) d.frames

-- The result is the new frame's cursor and the number of evicted ones. SUM(envelope_size) is over
-- the rows without an acknowledgement.
unfoldable pub append_frame :
    RouteDevice → List ℕ → ℕ → ℕ → ℕ → RouteDevice × ((ℕ × ℕ) ⊎ FrameError)
unfolding insert_after evict
append_frame d envelope now expires_at max_bytes =
    if ltb max_bytes (length envelope)
    then (d, inr frame_too_large)
    else (if is_active d
        then insert_after d envelope expires_at (
            evict (length envelope) max_bytes (waiting now d)
              (total (λ f. f.size) (keep (λ f. not f.acked) (waiting now d))))
        else (d, inr inactive_destination))

-- A limit below 0 is 0 here.
abbrev pub page_limit : ℕ → ℕ
page_limit limit = if leb limit 0 || ltb 200 limit then 100 else limit

abbrev pub is_after : ℕ → ℕ → FrameRow → Bool
is_after after now f = ltb after f.cursor && not f.acked && ltb now f.expires_at

unfoldable pub fetch_frames : RouteDevice → ℕ → ℕ → ℕ → RouteDevice × List FrameRow
fetch_frames d after limit now =
    let left = keep (λ f. ltb now f.expires_at) d.frames in
    (record d { frames = left }, take (page_limit limit) (keep (is_after after now) left))

unfoldable pub ack_rows : ℕ → List FrameRow → List FrameRow
ack_rows through [] = []
ack_rows through (f ∷ fs) =
    (if leb f.cursor through then record f { acked = true } else f) ∷ ack_rows through fs

unfoldable pub ack_frames : RouteDevice → ℕ → RouteDevice
unfolding ack_rows
ack_frames d through = record d { frames = ack_rows through d.frames }

unfoldable pub expire_frames : RouteDevice → ℕ → RouteDevice
expire_frames d now = record d { frames = keep (is_waiting now) d.frames }

-- A new row has cursor 1 as its next; an old one keeps its next cursor and its frames.
unfoldable pub register_device : RouteDevice → RouteDevice × Option FrameError
register_device d =
    if d.route_active then (record d { device_active = true }, none) else (d, some device_not_found)

unfoldable pub revoke_device : RouteDevice → RouteDevice × Option FrameError
revoke_device d =
    if d.device_active
    then (record d { device_active = false; frames = [] }, none)
    else (d, some device_not_found)

-- A call of a method that changes the rows.
pub data Call : Type 0 where
  appends : List ℕ → ℕ → ℕ → ℕ → Call
  fetches : ℕ → ℕ → ℕ → Call
  acks expires : ℕ → Call
  registers revokes : Call

unfoldable pub step : RouteDevice → Call → RouteDevice
unfolding append_frame fetch_frames ack_frames expire_frames register_device revoke_device
step d (appends envelope now expires_at max_bytes) =
    (append_frame d envelope now expires_at max_bytes).0
step d (fetches after limit now) = (fetch_frames d after limit now).0
step d (acks through) = ack_frames d through
step d (expires now) = expire_frames d now
step d registers = (register_device d).0
step d revokes = (revoke_device d).0

unfoldable pub run : RouteDevice → List Call → RouteDevice
unfolding step
run d [] = d
run d (c ∷ cs) = run (step d c) cs

-- A device of an active route that has not been registered yet.
abbrev pub new_route_device : RouteDevice
new_route_device = record {
  route_active = true;
  device_active = false;
  next_cursor = 1;
  frames = [];
}
