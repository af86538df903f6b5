-- ===== src/Mailbox/Accounting.antt =====
-- The byte count and the cursors of every mailbox of go-bridge/relay_mailbox.go stay right.
use cccode_macbridge.Base.{
  ℕ, ◌+◌, ◌^◌, ◌≤◌, ◌<◌, ◌≡◌, refl, String, false, Option, none, some, List, [], ◌∷◌, inl, inr,
  arith, length, total-append, keep-append, inc64, Option-cases, Bool-cases,
}
use cccode_macbridge.Base.Dict.{
  get, put, IsMap, put-IsMap, remove-IsMap, Every, empty-Every, put-Every, remove-Every,
}
use cccode_macbridge.Mailbox.{
  DeviceMailbox, MailboxService, EpochMetadata, Call, enqueues, acks, expires, clears,
  max_mailbox_bytes_per_dev, mailbox_key, evict_oldest_unacked, mailbox_or_new, make_entry, exceeds,
  make_room, append_entry, enqueue, ack_mailbox, ack, expire_mailbox, expire, clear_for_device,
  step, run, new_mailbox_service,
}
use cccode_macbridge.Mailbox.Frames.{
  pending, bytes, cursors, Increasing, Increasing-mono, Increasing-append, Measured,
  Measured-append, cursors-append, cursors-ack, ack-Measured, bytes-ack, expire-Increasing,
  expire-Measured, bytes-expire, cursors-evict, evict-Measured, bytes-evict,
}

-- A mailbox whose cursors ascend up to the service's counter, and whose byte count is that of its
-- pending envelopes, within the capacity.
pub record IsSound (seq : ℕ) (mb : DeviceMailbox) : Type 0 where
  pub ordered : Increasing 0 seq (cursors mb.frames)
  pub measured : Measured mb.frames
  pub accounted : mb.total_bytes ≡ bytes (pending mb.frames)
  pub within : mb.total_bytes ≤ max_mailbox_bytes_per_dev

pub IsSound-mono :
    (seq seq' : ℕ) (mb : DeviceMailbox) → seq ≤ seq' → IsSound seq mb → IsSound seq' mb
IsSound-mono seq seq' mb h s = record {
  ordered = Increasing-mono 0 seq seq' (cursors mb.frames) h s.ordered;
  measured = s.measured;
  accounted = s.accounted;
  within = s.within;
}

pub mailbox_or_new-IsSound :
    (route_id device_id : String) (seq : ℕ) (o : Option DeviceMailbox)
    → ((mb : DeviceMailbox) → o ≡ some mb → IsSound seq mb)
    → IsSound seq (mailbox_or_new route_id device_id o)
unfolding mailbox_or_new
mailbox_or_new-IsSound route_id device_id seq none h = record {
  ordered = omega arith;
  measured = tt;
  accounted = refl;
  within = omega arith;
}
mailbox_or_new-IsSound route_id device_id seq (some mb) h = h mb refl

pub evict_oldest_unacked-IsSound :
    (seq needed : ℕ) (mb : DeviceMailbox)
    → IsSound seq mb
    → IsSound seq (evict_oldest_unacked mb needed)
unfolding evict_oldest_unacked
evict_oldest_unacked-IsSound seq needed mb s = record {
  ordered = rw (cursors-evict needed 0 mb.frames) s.ordered;
  measured = evict-Measured needed 0 mb.frames s.measured;
  accounted = omega (arith, bytes-evict needed 0 mb.frames, s.accounted);
  within = omega (arith, s.within);
}

pub make_room-IsSound :
    (seq size : ℕ) (mb : DeviceMailbox) → IsSound seq mb → IsSound seq (make_room mb size)
unfolding make_room
make_room-IsSound seq size mb s = elim (Bool-cases (exceeds mb size)) [
  | inl e ↦ rw e (evict_oldest_unacked-IsSound seq size mb s)
  | inr e ↦ rw e s
]

pub append_entry-IsSound :
    (seq : ℕ) (mb : DeviceMailbox) (envelope : List ℕ) (t now : ℕ) (meta : Option EpochMetadata)
    → exceeds mb (length envelope) ≡ false
    → IsSound seq mb
    → IsSound (seq + 1) (append_entry mb (make_entry (seq + 1) envelope t now meta))
unfolding append_entry exceeds make_entry
append_entry-IsSound seq mb envelope t now none h s = record {
  ordered =
      rw (cursors-append mb.frames)
        (Increasing-append 0 seq (seq + 1) (cursors mb.frames) (omega arith) s.ordered);
  measured = Measured-append mb.frames _ s.measured (refl, tt);
  accounted =
      rw (keep-append _ mb.frames, total-append _ (pending mb.frames)) (omega (arith, s.accounted));
  within = ground arith;
}
append_entry-IsSound seq mb envelope t now (some meta) h s = record {
  ordered =
      rw (cursors-append mb.frames)
        (Increasing-append 0 seq (seq + 1) (cursors mb.frames) (omega arith) s.ordered);
  measured = Measured-append mb.frames _ s.measured (refl, tt);
  accounted =
      rw (keep-append _ mb.frames, total-append _ (pending mb.frames)) (omega (arith, s.accounted));
  within = ground arith;
}

pub ack_mailbox-IsSound :
    (seq c : ℕ) (mb : DeviceMailbox) → IsSound seq mb → IsSound seq (ack_mailbox mb c)
unfolding ack_mailbox
ack_mailbox-IsSound seq c mb s = record {
  ordered = rw (cursors-ack c mb.frames) s.ordered;
  measured = ack-Measured c mb.frames s.measured;
  accounted = omega (arith, bytes-ack c mb.frames, s.accounted);
  within = omega (arith, s.within);
}

pub expire_mailbox-IsSound :
    (seq now : ℕ) (mb : DeviceMailbox) → IsSound seq mb → IsSound seq (expire_mailbox mb now)
unfolding expire_mailbox
expire_mailbox-IsSound seq now mb s = record {
  ordered = expire-Increasing now 0 seq mb.frames s.ordered;
  measured = expire-Measured now mb.frames s.measured;
  accounted = omega (arith, bytes-expire now mb.frames, s.accounted);
  within = omega (arith, s.within);
}

-- The whole service: one mailbox for each key, and each of them sound.
pub record IsSoundService (ms : MailboxService) : Type 0 where
  pub is_map : IsMap ms.mailboxes
  pub sound : Every (λ _ mb. IsSound ms.mailbox_seq mb) ms.mailboxes

put-IsSoundService :
    (ms : MailboxService) (seq : ℕ) (k : String) (mb : DeviceMailbox)
    → ms.mailbox_seq ≤ seq
    → IsSound seq mb
    → IsSoundService ms
    → IsSoundService (record { mailboxes = put k mb ms.mailboxes; mailbox_seq = seq })
put-IsSoundService ms seq k mb h new s = record {
  is_map = put-IsMap k mb ms.mailboxes s.is_map;
  sound =
      put-Every (λ _ b. IsSound seq b) k mb ms.mailboxes new
        (λ j b e. IsSound-mono ms.mailbox_seq seq b h (s.sound j b e));
}

module _ (ms : MailboxService) (s : IsSoundService ms) where
  enqueue-IsSoundService :
      (r d : String) (envelope : List ℕ) (meta : Option EpochMetadata) (t now : ℕ)
      → ms.mailbox_seq + 1 < 2 ^ 64
      → IsSoundService (enqueue ms r d envelope meta t now).0
  unfolding enqueue
  enqueue-IsSoundService r d envelope meta t now h =
      elim (Bool-cases (exceeds roomy (length envelope))) [
        | inl e ↦
            rw e (put-IsSoundService ms ms.mailbox_seq (mailbox_key r d) roomy (omega arith) fits s)
        | inr e ↦
            let next : inc64 ms.mailbox_seq ≡ ms.mailbox_seq + 1 = omega arith in
            rw (e, next)
              (put-IsSoundService ms (ms.mailbox_seq + 1) (mailbox_key r d) _ (omega arith)
                (append_entry-IsSound ms.mailbox_seq roomy envelope t now meta e fits) s)
      ]
    where
      roomy : DeviceMailbox
      roomy = make_room (mailbox_or_new r d (get (mailbox_key r d) ms.mailboxes)) (length envelope)

      fits : IsSound ms.mailbox_seq roomy
      fits =
          make_room-IsSound ms.mailbox_seq (length envelope) _
            (mailbox_or_new-IsSound r d ms.mailbox_seq _ (s.sound (mailbox_key r d)))

  ack-IsSoundService : (r d : String) (c : ℕ) → IsSoundService (ack ms r d c).0
  unfolding ack
  ack-IsSoundService r d c = elim (Option-cases (get (mailbox_key r d) ms.mailboxes)) [
    | inl e ↦ rw e s
    | inr (mb, e) ↦ rw e (
        put-IsSoundService ms ms.mailbox_seq (mailbox_key r d) _ (omega arith)
          (ack_mailbox-IsSound ms.mailbox_seq c mb (s.sound (mailbox_key r d) mb e)) s)
  ]

  expire-IsSoundService : (r d : String) (now : ℕ) → IsSoundService (expire ms r d now).0
  unfolding expire
  expire-IsSoundService r d now = elim (Option-cases (get (mailbox_key r d) ms.mailboxes)) [
    | inl e ↦ rw e s
    | inr (mb, e) ↦ rw e (
        put-IsSoundService ms ms.mailbox_seq (mailbox_key r d) _ (omega arith)
          (expire_mailbox-IsSound ms.mailbox_seq now mb (s.sound (mailbox_key r d) mb e)) s)
  ]

  clear-IsSoundService : (r d : String) → IsSoundService (clear_for_device ms r d)
  unfolding clear_for_device
  clear-IsSoundService r d = record {
    is_map = remove-IsMap (mailbox_key r d) ms.mailboxes s.is_map;
    sound = remove-Every _ (mailbox_key r d) ms.mailboxes s.is_map s.sound;
  }

  pub step-IsSoundService : (c : Call) → ms.mailbox_seq + 1 < 2 ^ 64 → IsSoundService (step ms c)
  unfolding step
  step-IsSoundService (enqueues r d envelope meta t now) h =
      enqueue-IsSoundService r d envelope meta t now h
  step-IsSoundService (acks r d c) h = ack-IsSoundService r d c
  step-IsSoundService (expires r d now) h = expire-IsSoundService r d now
  step-IsSoundService (clears r d) h = clear-IsSoundService r d

mailbox_seq-step : (ms : MailboxService) (c : Call) → (step ms c).mailbox_seq ≤ ms.mailbox_seq + 1
unfolding step enqueue ack expire clear_for_device
mailbox_seq-step ms (enqueues r d envelope meta t now) = ground arith
mailbox_seq-step ms (acks r d c) = ground arith
mailbox_seq-step ms (expires r d now) = ground arith
mailbox_seq-step ms (clears r d) = ground arith

pub run-IsSoundService :
    (ms : MailboxService) (cs : List Call)
    → ms.mailbox_seq + length cs < 2 ^ 64
    → IsSoundService ms
    → IsSoundService (run ms cs)
unfolding run
run-IsSoundService ms [] h s = s
run-IsSoundService ms (c ∷ cs) h s =
    run-IsSoundService (step ms c) cs (omega (arith, mailbox_seq-step ms c))
      (step-IsSoundService ms s c (omega arith))

pub new-IsSoundService : IsSoundService new_mailbox_service
new-IsSoundService = record { is_map = tt; sound = empty-Every _ }

-- After any history of fewer than 2^64 calls on a new service, in every mailbox the cursors
-- ascend strictly and end at most at the service's counter, the byte count is the sum of the
-- lengths of the envelopes not yet acknowledged, and it is at most the capacity of 50 MB.
pub run_accounted :
    (cs : List Call) (k : String) (mb : DeviceMailbox)
    → length cs < 2 ^ 64
    → get k (run new_mailbox_service cs).mailboxes ≡ some mb
    → IsSound (run new_mailbox_service cs).mailbox_seq mb
run_accounted cs k mb h e =
    (run-IsSoundService new_mailbox_service cs (omega arith) new-IsSoundService).sound k mb e
