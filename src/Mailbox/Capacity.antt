-- ===== src/Mailbox/Capacity.antt =====
-- What `Enqueue` of go-bridge/relay_mailbox.go makes of the pending frames.
use cccode_macbridge.Base.{
  ℕ, ◌+◌, ◌^◌, ◌≤◌, ◌<◌, ◌≡◌, ◌⊎◌, ◌∙◌, refl, ap, total-append, String, true, false, Option, none,
  some, List, [], ◌∷◌, ◌++◌, inl, inr, arith, length, keep-append, inc64, Bool-cases,
  append-cons-ne-nil,
}
use cccode_macbridge.Base.Dict.{get, put, get-put_self}
use cccode_macbridge.Mailbox.{
  MailboxEntry, DeviceMailbox, MailboxService, EpochMetadata, capacity_exceeded,
  max_mailbox_bytes_per_dev, mailbox_key, evict_frames, evict_oldest_unacked, mailbox_or_new,
  make_entry, exceeds, make_room, append_entry, enqueue,
}
use cccode_macbridge.Mailbox.Frames.{
  pending, bytes, bytes-evict, evict_enough, evicted, evicted-append-pending, evict_minimal,
}
use cccode_macbridge.Mailbox.Accounting.{IsSound, IsSoundService, mailbox_or_new-IsSound}

abbrev pub pending_in : Option DeviceMailbox → List MailboxEntry
pending_in none = []
pending_in (some mb) = pending mb.frames

-- The frames that wait for a device.
abbrev pub pending_at : MailboxService → String → String → List MailboxEntry
pending_at ms r d = pending_in (get (mailbox_key r d) ms.mailboxes)

pub pending-mailbox_or_new :
    (r d : String) (o : Option DeviceMailbox) → pending (mailbox_or_new r d o).frames ≡ pending_in o
unfolding mailbox_or_new
pending-mailbox_or_new r d none = refl
pending-mailbox_or_new r d (some mb) = refl

pub pending_at-put :
    (ms : MailboxService) (r d : String) (mb : DeviceMailbox)
    → pending_in (get (mailbox_key r d) (put (mailbox_key r d) mb ms.mailboxes)) ≡ pending mb.frames
pending_at-put ms r d mb = rw (get-put_self (mailbox_key r d) mb ms.mailboxes)

pending-append :
    (mb : DeviceMailbox) (c t now : ℕ) (envelope : List ℕ) (meta : Option EpochMetadata)
    → pending (append_entry mb (make_entry c envelope t now meta)).frames
      ≡ pending mb.frames ++ (make_entry c envelope t now meta ∷ [])
unfolding append_entry make_entry
pending-append mb c t now envelope none = rw (keep-append _ mb.frames)
pending-append mb c t now envelope (some meta) = rw (keep-append _ mb.frames)

-- What an insertion of `size` bytes drops: a shortest prefix that frees `size` bytes, or all.
pub record Dropped (size : ℕ) (before after : List MailboxEntry) : Type 0 where
  pub dropped : List MailboxEntry
  pub prefix : before ≡ dropped ++ after
  pub frees :
      (after ≡ []) ⊎ (size ≤ bytes dropped) ⊎ (bytes before + size ≤ max_mailbox_bytes_per_dev)
  pub none_if_fits : bytes before + size ≤ max_mailbox_bytes_per_dev → dropped ≡ []
  pub shortest :
      (front : List MailboxEntry) (last : MailboxEntry)
      → dropped ≡ front ++ (last ∷ [])
      → bytes front < size

evicted_frees :
    (size : ℕ) (fs : List MailboxEntry)
    → (pending (evict_frames size 0 fs).0 ≡ [])
      ⊎ (size ≤ bytes (evicted size 0 fs))
      ⊎ (bytes (pending fs) + size ≤ max_mailbox_bytes_per_dev)
evicted_frees size fs = elim (evict_enough size 0 fs) [
  | inr all ↦ inl all
  | inl enough ↦ inr (
      inl (
        omega (
          arith,
          enough,
          bytes-evict size 0 fs,
          ap bytes (evicted-append-pending size 0 fs),
          total-append (λ (f : MailboxEntry). f.size) (evicted size 0 fs)
              (pending (evict_frames size 0 fs).0),
        )))
]

module _ (seq size : ℕ) (mb : DeviceMailbox) (s : IsSound seq mb) where
  pending-make_room : Dropped size (pending mb.frames) (pending (make_room mb size).frames)
  unfolding make_room exceeds evict_oldest_unacked
  pending-make_room = elim (Bool-cases (exceeds mb size)) [
    | inl e ↦ record {
      dropped = evicted size 0 mb.frames;
      prefix = rw e (evicted-append-pending size 0 mb.frames);
      frees = rw e (evicted_frees size mb.frames);
      none_if_fits = λ h. absurd (ground (arith, s.accounted));
      shortest = λ front last p.
          omega (arith, evict_minimal size 0 mb.frames front last (ground (arith, s.within)) p);
    }
    | inr e ↦ record {
      dropped = [];
      prefix = rw e refl;
      frees = inr (inr (ground (arith, s.accounted, e)));
      none_if_fits = λ h. refl;
      shortest = λ front last p. absurd (append-cons-ne-nil front last (ground arith));
    }
  ]

  room_if_fits : size ≤ max_mailbox_bytes_per_dev → exceeds (make_room mb size) size ≡ false
  unfolding make_room exceeds evict_oldest_unacked
  room_if_fits h =
      ground
        (arith, bytes-evict size 0 mb.frames, evict_enough size 0 mb.frames, s.accounted, s.within)

  no_room_if_oversize :
      max_mailbox_bytes_per_dev < size
      → (exceeds (make_room mb size) size ≡ true) × (pending (make_room mb size).frames ≡ [])
  unfolding make_room exceeds evict_oldest_unacked
  no_room_if_oversize h =
      ground
        (arith, bytes-evict size 0 mb.frames, evict_enough size 0 mb.frames, s.accounted, s.within)

module _ (ms : MailboxService) (r d : String) (envelope : List ℕ) (meta : Option EpochMetadata)
    (t now : ℕ) (s : IsSoundService ms) where
  abbrev found : DeviceMailbox
  found = mailbox_or_new r d (get (mailbox_key r d) ms.mailboxes)

  found-IsSound : IsSound ms.mailbox_seq found
  found-IsSound = mailbox_or_new-IsSound r d ms.mailbox_seq _ (s.sound (mailbox_key r d))

  -- In a sound service whose counter has not reached 2^64 - 1, an envelope of at most 50 MB is
  -- accepted: the frame waits last, under the next cursor, and of the frames that waited before
  -- only a prefix is dropped: none when the envelope fits beside them, and otherwise a shortest one
  -- that frees the envelope's length, or all of them.
  pub enqueue_accepts :
      ms.mailbox_seq + 1 < 2 ^ 64
      → length envelope ≤ max_mailbox_bytes_per_dev
      → let after = enqueue ms r d envelope meta t now in
        (kept : List MailboxEntry) × (after.1 ≡ none)
        × (pending_at after.0 r d
            ≡ kept ++ (make_entry (ms.mailbox_seq + 1) envelope t now meta ∷ []))
        × Dropped (length envelope) (pending_at ms r d) kept
  unfolding enqueue
  enqueue_accepts h fits =
      let next : inc64 ms.mailbox_seq ≡ ms.mailbox_seq + 1 = omega arith in
      let room = room_if_fits ms.mailbox_seq (length envelope) found found-IsSound fits in
      (
        pending (make_room found (length envelope)).frames,
        rw room,
        rw (room, next)
            (pending_at-put ms r d _ ∙ pending-append _ (ms.mailbox_seq + 1) t now envelope meta),
        rw (← pending-mailbox_or_new r d (get (mailbox_key r d) ms.mailboxes))
            (pending-make_room ms.mailbox_seq (length envelope) found found-IsSound),
      )

  -- In a sound service an envelope above 50 MB is refused, and yet every frame that waited for
  -- the device is dropped.
  pub enqueue_oversize :
      max_mailbox_bytes_per_dev < length envelope
      → let after = enqueue ms r d envelope meta t now in
        (after.1 ≡ some capacity_exceeded) × (pending_at after.0 r d ≡ [])
  unfolding enqueue
  enqueue_oversize h =
      let (full, empty) =
        no_room_if_oversize ms.mailbox_seq (length envelope) found found-IsSound h in
      (rw full, rw full (pending_at-put ms r d _ ∙ empty))
