-- ===== src/Mailbox/Keys.antt =====
-- `mailboxKey` of go-bridge/relay_mailbox.go joins two identifiers by a colon.
use Prim.Native.Char.{Char}
use text.Mathlib.TextLemmas.{nil-append, cons-append, head-eq_of_cons-eq, tail-eq_of_cons-eq}
use mathlib.Core.Path.{ap₂}
use cccode_macbridge.Base.{
  ℕ, List, Option, length, length, ◌≡◌, ◌≢◌, ◌∙◌, sym, refl, ap, inl, inr, String, false, str_eq,
  Bool-cases, Option-cases,
}
use cccode_macbridge.Base.Dict.{get, IsMap, get-put_ne, get-remove, ne_of_not-eq}
use cccode_macbridge.Mailbox.{
  EpochMetadata, DeviceMailbox, make_room, mailbox_or_new, MailboxService, Call, enqueues, acks,
  expires, clears, mailbox_key, enqueue, ack, expire, clear_for_device, exceeds, step,
}
use cccode_macbridge.Mailbox.Capacity.{pending_in, pending_at}

abbrev pub colon : Char
colon = ":"

-- No character of the text is a colon, as in the generated identifiers of routes.
abbrev pub HasNoColon : String → Type 0
HasNoColon String.[] = Unit
HasNoColon (String.◌∷◌ c s) = (c ≢ colon) × HasNoColon s

mailbox_key-nil : (d : String) → mailbox_key String.[] d ≡ String.◌∷◌ colon d
unfolding mailbox_key
mailbox_key-nil d =
    rw nil-append (cons-append colon String.[] d ∙ ap (String.◌∷◌ colon) (nil-append d))

mailbox_key-cons :
    (c : Char) (r d : String) → mailbox_key (String.◌∷◌ c r) d ≡ String.◌∷◌ c (mailbox_key r d)
unfolding mailbox_key
mailbox_key-cons c r d = simp cons-append

-- Two identifiers of routes with no colon never share a mailbox, nor do two devices of a route.
mailbox_key_inj :
    (r r' d d' : String)
    → HasNoColon r
    → HasNoColon r'
    → mailbox_key r d ≡ mailbox_key r' d'
    → (r ≡ r') × (d ≡ d')
mailbox_key_inj String.[] String.[] d d' h h' e =
    (refl, tail-eq_of_cons-eq (rw (mailbox_key-nil d, mailbox_key-nil d') at e))
mailbox_key_inj String.[] (String.◌∷◌ c r') d d' h h' e =
    absurd (h'.0 (sym (head-eq_of_cons-eq (rw (mailbox_key-nil d, mailbox_key-cons c r' d') at e))))
mailbox_key_inj (String.◌∷◌ c r) String.[] d d' h h' e =
    absurd (h.0 (head-eq_of_cons-eq (rw (mailbox_key-nil d', mailbox_key-cons c r d) at e)))
mailbox_key_inj (String.◌∷◌ c r) (String.◌∷◌ c' r') d d' h h' e =
    let e' : String.◌∷◌ c (mailbox_key r d) ≡ String.◌∷◌ c' (mailbox_key r' d') =
      sym (mailbox_key-cons c r d) ∙ e ∙ mailbox_key-cons c' r' d' in
    let (p, q) = mailbox_key_inj r r' d d' h.1 h'.1 (tail-eq_of_cons-eq e') in
    (ap₂ String.◌∷◌ (head-eq_of_cons-eq e') p, q)

-- The device that a call is for.
abbrev pub target : Call → String × String
target (enqueues r d envelope meta t now) = (r, d)
target (acks r d c) = (r, d)
target (expires r d now) = (r, d)
target (clears r d) = (r, d)

module _ (ms : MailboxService) (r d k : String) (h : str_eq (mailbox_key r d) k ≡ false) where
  get-enqueue :
      (envelope : List ℕ) (meta : Option EpochMetadata) (t now : ℕ)
      → get k (enqueue ms r d envelope meta t now).0.mailboxes ≡ get k ms.mailboxes
  unfolding enqueue
  get-enqueue envelope meta t now = elim (Bool-cases (exceeds roomy (length envelope))) [
    | inl e ↦ rw e (get-put_ne (mailbox_key r d) k _ ms.mailboxes h)
    | inr e ↦ rw e (get-put_ne (mailbox_key r d) k _ ms.mailboxes h)
  ]
    where
      roomy : DeviceMailbox
      roomy = make_room (mailbox_or_new r d (get (mailbox_key r d) ms.mailboxes)) (length envelope)

  get-ack : (c : ℕ) → get k (ack ms r d c).0.mailboxes ≡ get k ms.mailboxes
  unfolding ack
  get-ack c = elim (Option-cases (get (mailbox_key r d) ms.mailboxes)) [
    | inl e ↦ rw e refl
    | inr (mb, e) ↦ rw e (get-put_ne (mailbox_key r d) k _ ms.mailboxes h)
  ]

  get-expire : (now : ℕ) → get k (expire ms r d now).0.mailboxes ≡ get k ms.mailboxes
  unfolding expire
  get-expire now = elim (Option-cases (get (mailbox_key r d) ms.mailboxes)) [
    | inl e ↦ rw e refl
    | inr (mb, e) ↦ rw e (get-put_ne (mailbox_key r d) k _ ms.mailboxes h)
  ]

get-step :
    (ms : MailboxService) (c : Call) (k : String)
    → IsMap ms.mailboxes
    → str_eq (mailbox_key (target c).0 (target c).1) k ≡ false
    → get k (step ms c).mailboxes ≡ get k ms.mailboxes
unfolding step clear_for_device
get-step ms (enqueues r d envelope meta t now) k m h = get-enqueue ms r d k h envelope meta t now
get-step ms (acks r d c) k m h = get-ack ms r d k h c
get-step ms (expires r d now) k m h = get-expire ms r d k h now
get-step ms (clears r d) k m h = rw (get-remove (mailbox_key r d) k ms.mailboxes m, h) refl

-- A call for one device leaves the frames that wait for any other device of any other route, or
-- of the same route, as they were, when no identifier of a route has a colon.
pub step_isolated :
    (ms : MailboxService) (c : Call) (r d : String)
    → IsMap ms.mailboxes
    → HasNoColon (target c).0
    → HasNoColon r
    → ¬ (((target c).0 ≡ r) × ((target c).1 ≡ d))
    → pending_at (step ms c) r d ≡ pending_at ms r d
step_isolated ms c r d m h h' other = ap pending_in (
    get-step ms c (mailbox_key r d) m
      (ne_of_not-eq _ _ (λ e. other (mailbox_key_inj (target c).0 r (target c).1 d h h' e))))
