-- ===== src/Mailbox/Settled.antt =====
-- What `Ack` and `Expire` of go-bridge/relay_mailbox.go settle.
use cccode_macbridge.Base.{
  ℕ, ◌+◌, ◌≡◌, refl, String, not, ◌↔◌, none, some, inl, inr, ltb, length, keep, Option-cases,
}
use cccode_macbridge.Base.Dict.{get, get-put_self}
use cccode_macbridge.Mailbox.{
  MailboxService, mailbox_not_found, mailbox_key, ack_mailbox, ack, expire_mailbox, expire,
}
use cccode_macbridge.Mailbox.Frames.{pending-ack, pending-expire, count-expire}
use cccode_macbridge.Mailbox.Capacity.{pending_at}
use cccode_macbridge.Mailbox.Delivery.{past}

module _ (ms : MailboxService) (r d : String) where
  -- `Ack` fails only where the device has no mailbox; otherwise it removes exactly the frames at
  -- and below the cursor from those that wait for the device, so that none is delivered again.
  pub ack_lem :
      (c : ℕ)
      → (pending_at (ack ms r d c).0 r d ≡ past c (pending_at ms r d))
        × (((ack ms r d c).1 ≡ some mailbox_not_found)
            ↔ (get (mailbox_key r d) ms.mailboxes ≡ none))
  unfolding ack ack_mailbox
  ack_lem c = elim (Option-cases (get (mailbox_key r d) ms.mailboxes)) [
    | inl e ↦ rw e (rw e refl, (λ _. refl, λ _. refl))
    | inr (mb, e) ↦ rw e (
      rw (get-put_self (mailbox_key r d) (ack_mailbox mb c) ms.mailboxes) (pending-ack c mb.frames),
      (λ q. cc, λ q. cc),
    )
  ]

  -- `Expire` removes exactly the frames past their time from those that wait for the device, and
  -- returns how many it removed.
  pub expire_lem :
      (now : ℕ)
      → (pending_at (expire ms r d now).0 r d
          ≡ keep (λ f. not (ltb f.expires_at now)) (pending_at ms r d))
        × ((expire ms r d now).1 + length (pending_at (expire ms r d now).0 r d)
            ≡ length (pending_at ms r d))
  unfolding expire expire_mailbox
  expire_lem now = elim (Option-cases (get (mailbox_key r d) ms.mailboxes)) [
    | inl e ↦ rw e (rw e refl, rw e refl)
    | inr (mb, e) ↦ rw e (
        rw (get-put_self (mailbox_key r d) (expire_mailbox mb now) ms.mailboxes)
          (pending-expire now mb.frames, count-expire now mb.frames))
  ]
