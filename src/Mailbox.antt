-- ===== src/Mailbox.antt =====
-- go-bridge/relay_mailbox.go: the ciphertext mailbox service of the relay. The mutex makes each
-- method one step; `time.Now()` is an argument; byte counts are unbounded, and Mailbox/Accounting
-- shows that they stay within the 50 MB limit and never fall below zero. `hub` is never used by
-- the methods, and log lines are left out.
pub mod Frames
pub mod Accounting
pub mod Capacity
pub mod Delivery
pub mod Settled
pub mod Keys
mod Tests
use Prim.Native.String.{◌++◌ as str_append}
use cccode_macbridge.Base.{
  ℕ, ◌+◌, ◌*◌, ◌-◌, String, Bool, true, false, not, ◌&&◌, ◌||◌, Option, none, some, List, [], ◌∷◌,
  ◌++◌, ltb, leb, ◌==◌, if◌then◌else◌, inc64, length,
}
use cccode_macbridge.Base.Dict.{Dict, get, put, remove}

-- `defaultMailboxTTL`, in nanoseconds.
abbrev pub default_mailbox_ttl : ℕ
default_mailbox_ttl = 24 * 3600 * 1000000000

abbrev pub max_mailbox_bytes_per_dev : ℕ
max_mailbox_bytes_per_dev = 50 * 1024 * 1024

pub record EpochMetadata : Type 0 where
  pub epoch_index : Option ℕ
  pub prekey_id : String
  pub key_epoch_id : String
  pub counter : ℕ

pub record MailboxEntry : Type 0 where
  pub cursor : ℕ
  pub envelope : List ℕ
  pub inserted_at : ℕ
  pub expires_at : ℕ
  pub acked : Bool
  pub size : ℕ
  pub epoch_index : Option ℕ
  pub prekey_id : String
  pub key_epoch_id : String
  pub counter : ℕ

pub record DeviceMailbox : Type 0 where
  pub route_id : String
  pub device_id : String
  pub frames : List MailboxEntry
  pub total_bytes : ℕ

pub record MailboxService : Type 0 where
  pub mailboxes : Dict DeviceMailbox
  pub mailbox_seq : ℕ

pub record MailboxFrameEntry : Type 0 where
  pub cursor : ℕ
  pub envelope : List ℕ

pub record MailboxFetchResponse : Type 0 where
  pub frames : List MailboxFrameEntry
  pub has_more : Bool
  pub next_cursor : ℕ

pub record MailboxStats : Type 0 where
  pub total_frames : ℕ
  pub pending_frames : ℕ
  pub total_bytes : ℕ
  pub ok : Bool

pub data MailboxError : Type 0 where
  capacity_exceeded mailbox_not_found : MailboxError

abbrev pub new_mailbox_service : MailboxService
new_mailbox_service = record { mailboxes = []; mailbox_seq = 0 }

unfoldable pub mailbox_key : String → String → String
mailbox_key route_id device_id = str_append route_id (str_append ":" device_id)

-- The loop of `evictOldestUnacked`, with the bytes evicted so far: the frames and the final count.
unfoldable pub evict_frames : ℕ → ℕ → List MailboxEntry → List MailboxEntry × ℕ
evict_frames needed evicted [] = ([], evicted)
evict_frames needed evicted (f ∷ fs) = elim f.acked [
  | true ↦ let rest = evict_frames needed evicted fs in (f ∷ rest.0, rest.1)
  | false ↦
      let dropped : MailboxEntry = record f { acked = true } in
      elim (leb needed (evicted + f.size)) [
        | true ↦ (dropped ∷ fs, evicted + f.size)
        | false ↦ let rest = evict_frames needed (evicted + f.size) fs in (dropped ∷ rest.0, rest.1)
      ]
]

unfoldable pub evict_oldest_unacked : DeviceMailbox → ℕ → DeviceMailbox
evict_oldest_unacked mb needed =
    let (frames, evicted) = evict_frames needed 0 mb.frames in
    record mb { frames = frames; total_bytes = mb.total_bytes - evicted }

-- The mailbox at the key, created if there is none.
unfoldable pub mailbox_or_new : String → String → Option DeviceMailbox → DeviceMailbox
mailbox_or_new route_id device_id none = record {
  route_id = route_id;
  device_id = device_id;
  frames = [];
  total_bytes = 0;
}
mailbox_or_new route_id device_id (some mb) = mb

unfoldable pub make_entry : ℕ → List ℕ → ℕ → ℕ → Option EpochMetadata → MailboxEntry
make_entry cursor envelope inserted_at now none = record {
  cursor = cursor;
  envelope = envelope;
  inserted_at = inserted_at;
  expires_at = now + default_mailbox_ttl;
  acked = false;
  size = length envelope;
  epoch_index = none;
  prekey_id = "";
  key_epoch_id = "";
  counter = 0;
}
make_entry cursor envelope inserted_at now (some meta) = record {
  cursor = cursor;
  envelope = envelope;
  inserted_at = inserted_at;
  expires_at = now + default_mailbox_ttl;
  acked = false;
  size = length envelope;
  epoch_index = meta.epoch_index;
  prekey_id = meta.prekey_id;
  key_epoch_id = meta.key_epoch_id;
  counter = meta.counter;
}

unfoldable pub exceeds : DeviceMailbox → ℕ → Bool
exceeds mb frame_size = ltb max_mailbox_bytes_per_dev (mb.total_bytes + frame_size)

-- The capacity check before an insertion.
unfoldable pub make_room : DeviceMailbox → ℕ → DeviceMailbox
unfolding exceeds
make_room mb frame_size = if exceeds mb frame_size then evict_oldest_unacked mb frame_size else mb

unfoldable pub append_entry : DeviceMailbox → MailboxEntry → DeviceMailbox
append_entry mb entry = record mb {
  frames = mb.frames ++ (entry ∷ []);
  total_bytes = mb.total_bytes + entry.size;
}

-- `Enqueue`; the two times are those of its two calls of `time.Now()`.
unfoldable pub enqueue :
    MailboxService
    → String
    → String
    → List ℕ
    → Option EpochMetadata
    → ℕ
    → ℕ
    → MailboxService × Option MailboxError
enqueue ms route_id device_id envelope meta inserted_at now =
    let key = mailbox_key route_id device_id in
    let mb =
      make_room (mailbox_or_new route_id device_id (get key ms.mailboxes)) (length envelope) in
    if exceeds mb (length envelope)
    then (record ms { mailboxes = put key mb ms.mailboxes }, some capacity_exceeded)
    else (
      record {
        mailboxes =
            put key
              (append_entry mb (make_entry (inc64 ms.mailbox_seq) envelope inserted_at now meta))
              ms.mailboxes;
        mailbox_seq = inc64 ms.mailbox_seq;
      },
      none,
    )

abbrev pub to_frame : MailboxEntry → MailboxFrameEntry
to_frame f = record { cursor = f.cursor; envelope = f.envelope }

-- The loop of `Fetch` with its `continue` and `break`; `frames` is the page so far.
unfoldable pub fetch_frames :
    ℕ → ℕ → List MailboxFrameEntry → List MailboxEntry → MailboxFetchResponse
fetch_frames after limit frames [] = record { frames = frames; has_more = false; next_cursor = 0 }
fetch_frames after limit frames (f ∷ fs) = elim (f.acked || leb f.cursor after) [
  | true ↦ fetch_frames after limit frames fs
  | false ↦ elim (leb limit (length frames)) [
    | true ↦ record { frames = frames; has_more = true; next_cursor = f.cursor }
    | false ↦ fetch_frames after limit (frames ++ (to_frame f ∷ [])) fs
  ]
]

-- A limit of 0 stands for every `limit <= 0`.
abbrev pub page_limit : ℕ → ℕ
page_limit limit = if limit == 0 then 100 else limit

-- The rest of `Fetch` after the lookup.
unfoldable pub fetch_from : Option DeviceMailbox → ℕ → ℕ → MailboxFetchResponse
fetch_from none after limit = record { frames = []; has_more = false; next_cursor = 0 }
fetch_from (some mb) after limit = fetch_frames after (page_limit limit) [] mb.frames

unfoldable pub fetch : MailboxService → String → String → ℕ → ℕ → MailboxFetchResponse
unfolding fetch_from
fetch ms route_id device_id after limit =
    fetch_from (get (mailbox_key route_id device_id) ms.mailboxes) after limit

-- The loop of `Ack`: the frames and the bytes acknowledged.
unfoldable pub ack_frames : ℕ → List MailboxEntry → List MailboxEntry × ℕ
ack_frames cursor [] = ([], 0)
ack_frames cursor (f ∷ fs) =
    let rest = ack_frames cursor fs in
    if leb f.cursor cursor && not f.acked
    then (record f { acked = true } ∷ rest.0, f.size + rest.1)
    else (f ∷ rest.0, rest.1)

unfoldable pub ack_mailbox : DeviceMailbox → ℕ → DeviceMailbox
ack_mailbox mb cursor =
    let (frames, acked) = ack_frames cursor mb.frames in
    record mb { frames = frames; total_bytes = mb.total_bytes - acked }

-- The rest of `Ack` after the lookup.
unfoldable pub ack_at :
    MailboxService → String → ℕ → Option DeviceMailbox → MailboxService × Option MailboxError
ack_at ms key cursor none = (ms, some mailbox_not_found)
ack_at ms key cursor (some mb) =
    (record ms { mailboxes = put key (ack_mailbox mb cursor) ms.mailboxes }, none)

unfoldable pub ack : MailboxService → String → String → ℕ → MailboxService × Option MailboxError
unfolding ack_at
ack ms route_id device_id cursor =
    let key = mailbox_key route_id device_id in ack_at ms key cursor (get key ms.mailboxes)

abbrev pub is_dropped : ℕ → MailboxEntry → Bool
is_dropped now f = ltb f.expires_at now && not f.acked

-- The loop of `Expire`: the frames that remain, the bytes and the number of those that expired.
unfoldable pub expire_frames : ℕ → List MailboxEntry → List MailboxEntry × ℕ × ℕ
expire_frames now [] = ([], 0, 0)
expire_frames now (f ∷ fs) =
    let rest = expire_frames now fs in
    if is_dropped now f then (rest.0, f.size + rest.1, 1 + rest.2) else (f ∷ rest.0, rest.1, rest.2)

unfoldable pub expire_mailbox : DeviceMailbox → ℕ → DeviceMailbox
expire_mailbox mb now =
    let (frames, bytes, count) = expire_frames now mb.frames in
    record mb { frames = frames; total_bytes = mb.total_bytes - bytes }

-- The rest of `Expire` after the lookup.
unfoldable pub expire_at : MailboxService → String → ℕ → Option DeviceMailbox → MailboxService × ℕ
expire_at ms key now none = (ms, 0)
expire_at ms key now (some mb) = (
  record ms { mailboxes = put key (expire_mailbox mb now) ms.mailboxes },
  (expire_frames now mb.frames).2,
)

unfoldable pub expire : MailboxService → String → String → ℕ → MailboxService × ℕ
unfolding expire_at
expire ms route_id device_id now =
    let key = mailbox_key route_id device_id in expire_at ms key now (get key ms.mailboxes)

unfoldable pub clear_for_device : MailboxService → String → String → MailboxService
clear_for_device ms route_id device_id = record ms {
  mailboxes = remove (mailbox_key route_id device_id) ms.mailboxes;
}

-- The count of `Stats`.
unfoldable pub count_pending : List MailboxEntry → ℕ
count_pending [] = 0
count_pending (f ∷ fs) = let n = count_pending fs in if f.acked then n else n + 1

unfoldable pub stats_of : Option DeviceMailbox → MailboxStats
unfolding count_pending
stats_of none = record { total_frames = 0; pending_frames = 0; total_bytes = 0; ok = false }
stats_of (some mb) = record {
  total_frames = length mb.frames;
  pending_frames = count_pending mb.frames;
  total_bytes = mb.total_bytes;
  ok = true;
}

unfoldable pub stats : MailboxService → String → String → MailboxStats
unfolding stats_of
stats ms route_id device_id = stats_of (get (mailbox_key route_id device_id) ms.mailboxes)

-- A call of a method that changes the service, with its times.
pub data Call : Type 0 where
  enqueues : String → String → List ℕ → Option EpochMetadata → ℕ → ℕ → Call
  acks : String → String → ℕ → Call
  expires : String → String → ℕ → Call
  clears : String → String → Call

unfoldable pub step : MailboxService → Call → MailboxService
step ms (enqueues route_id device_id envelope meta inserted_at now) =
    (enqueue ms route_id device_id envelope meta inserted_at now).0
step ms (acks route_id device_id cursor) = (ack ms route_id device_id cursor).0
step ms (expires route_id device_id now) = (expire ms route_id device_id now).0
step ms (clears route_id device_id) = clear_for_device ms route_id device_id

unfoldable pub run : MailboxService → List Call → MailboxService
run ms [] = ms
run ms (c ∷ cs) = run (step ms c) cs
