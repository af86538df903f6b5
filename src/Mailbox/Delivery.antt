-- ===== src/Mailbox/Delivery.antt =====
-- What `Fetch`, `Ack` and `Expire` of go-bridge/relay_mailbox.go promise a device.
use cccode_macbridge.Mailbox.Accounting.{IsSound, IsSoundService}
use mathlib.Core.Path.{subst}
use mathlib.Core.List.{map-append, append-nil, append_assoc}
use cccode_macbridge.Base.{
  lt_of_leb, take-nil, drop-nil, ℕ, zero, suc, ◌+◌, ◌≤◌, ◌<◌, ◌≡◌, ◌∙◌, sym, ap, refl, String, Bool,
  true, false, not, Option, none, some, List, [], ◌∷◌, ◌++◌, map, inl, inr, arith, leb, length,
  length-append, keep, take, drop, take-append-drop, Bool-cases,
}
use cccode_macbridge.Base.Dict.{get}
use cccode_macbridge.Mailbox.{
  DeviceMailbox, fetch_from, MailboxEntry, MailboxFrameEntry, MailboxFetchResponse, MailboxService,
  mailbox_key, to_frame, page_limit, fetch_frames, fetch,
}
use cccode_macbridge.Mailbox.Frames.{pending, cursors, Increasing}
use cccode_macbridge.Mailbox.Capacity.{pending_in, pending_at}

-- The frames past a cursor.
abbrev pub past : ℕ → List MailboxEntry → List MailboxEntry
past after = keep (λ f. not (leb f.cursor after))

abbrev pub head_cursor : List MailboxEntry → ℕ
head_cursor [] = 0
head_cursor (f ∷ fs) = f.cursor

abbrev pub is_cons : List MailboxEntry → Bool
is_cons [] = false
is_cons (f ∷ fs) = true

-- The page of the first `n` frames of a list.
abbrev pub page_of : ℕ → List MailboxEntry → MailboxFetchResponse
page_of n fs = record {
  frames = map to_frame (take n fs);
  has_more = is_cons (drop n fs);
  next_cursor = head_cursor (drop n fs);
}

fetch_frames_lem :
    (after limit n : ℕ) (acc : List MailboxFrameEntry) (fs : List MailboxEntry)
    → n + length acc ≡ limit
    → fetch_frames after limit acc fs ≡ (
        let due = past after (pending fs) in
        record {
          frames = acc ++ map to_frame (take n due);
          has_more = is_cons (drop n due);
          next_cursor = head_cursor (drop n due);
        })
unfolding fetch_frames
fetch_frames_lem after limit zero acc [] h = rw append-nil
fetch_frames_lem after limit (suc n) acc [] h = rw append-nil
fetch_frames_lem after limit zero acc (f ∷ fs) h =
    ground (arith, append-nil acc, fetch_frames_lem after limit zero acc fs)
fetch_frames_lem after limit (suc n) acc (f ∷ fs) h = ground (
  arith,
  append_assoc acc (to_frame f ∷ []) (map to_frame (take n (past after (pending fs)))),
  fetch_frames_lem after limit (suc n) acc fs,
  fetch_frames_lem after limit n (acc ++ (to_frame f ∷ [])) fs,
  length-append acc (to_frame f ∷ []),
)

-- `Fetch` returns the oldest frames past the cursor that are neither acknowledged nor evicted, as
-- many as the limit allows (100 if the limit is not positive), says whether more are due, and
-- names the cursor of the first that it left out.
pub fetch_lem :
    (ms : MailboxService) (r d : String) (after limit : ℕ)
    → fetch ms r d after limit ≡ page_of (page_limit limit) (past after (pending_at ms r d))
unfolding fetch
fetch_lem ms r d after limit = go (get (mailbox_key r d) ms.mailboxes)
  where
    go :
        (o : Option DeviceMailbox)
        → fetch_from o after limit ≡ page_of (page_limit limit) (past after (pending_in o))
    go none = rw (take-nil (page_limit limit), drop-nil (page_limit limit))
    go (some mb) =
        fetch_frames_lem after (page_limit limit) (page_limit limit) [] mb.frames (omega arith)

-- The cursor to fetch the next page with: that of the page's last frame.
abbrev pub last_cursor : ℕ → List MailboxFrameEntry → ℕ
last_cursor after [] = after
last_cursor after (f ∷ fs) = last_cursor f.cursor fs

-- Each cursor is above the one before it, the first above `lo`.
abbrev Ascending : ℕ → List MailboxEntry → Type 0
Ascending lo [] = Unit
Ascending lo (f ∷ fs) = (lo < f.cursor) × Ascending f.cursor fs

Ascending-lower :
    (lo lo' : ℕ) (fs : List MailboxEntry) → lo ≤ lo' → Ascending lo' fs → Ascending lo fs
Ascending-lower lo lo' [] h i = tt
Ascending-lower lo lo' (f ∷ fs) h i = (omega arith, i.1)

pending-Ascending :
    (lo hi : ℕ) (fs : List MailboxEntry) → Increasing lo hi (cursors fs) → Ascending lo (pending fs)
pending-Ascending lo hi [] i = tt
pending-Ascending lo hi (f ∷ fs) i =
    ground (arith, pending-Ascending f.cursor hi fs i.1, Ascending-lower lo f.cursor (pending fs))

past_all : (c lo : ℕ) (fs : List MailboxEntry) → c ≤ lo → Ascending lo fs → past c fs ≡ fs
past_all c lo [] h i = refl
past_all c lo (f ∷ fs) h i = ground (arith, past_all c f.cursor fs)

past-Ascending : (c lo : ℕ) (fs : List MailboxEntry) → Ascending lo fs → Ascending c (past c fs)
past-Ascending c lo [] i = tt
past-Ascending c lo (f ∷ fs) i = elim (Bool-cases (leb f.cursor c)) [
  | inl e ↦ rw e (past-Ascending c f.cursor fs i.1)
  | inr e ↦ rw e (
    lt_of_leb f.cursor c e,
    rw (past_all c f.cursor fs (omega (arith, lt_of_leb f.cursor c e)) i.1) i.1,
  )
]

past-past : (c c' : ℕ) (fs : List MailboxEntry) → c ≤ c' → past c' (past c fs) ≡ past c' fs
past-past c c' [] h = refl
past-past c c' (f ∷ fs) h = ground (arith, past-past c c' fs)

last_cursor-ge :
    (n c : ℕ) (fs : List MailboxEntry)
    → Ascending c fs
    → c ≤ last_cursor c (map to_frame (take n fs))
last_cursor-ge zero c fs i = omega arith
last_cursor-ge (suc n) c [] i = omega arith
last_cursor-ge (suc n) c (f ∷ fs) i = omega (arith, last_cursor-ge n f.cursor fs i.1)

past-last :
    (n c : ℕ) (fs : List MailboxEntry)
    → Ascending c fs
    → past (last_cursor c (map to_frame (take n fs))) fs ≡ drop n fs
past-last zero c fs i = past_all c c fs (omega arith) i
past-last (suc n) c [] i = refl
past-last (suc n) c (f ∷ fs) i =
    ground (arith, past-last n f.cursor fs i.1, last_cursor-ge n f.cursor fs i.1)

drop-above :
    (n c : ℕ) (f : MailboxEntry) (rest fs : List MailboxEntry)
    → Ascending c fs
    → drop n fs ≡ f ∷ rest
    → c < f.cursor
drop-above zero c f rest [] i e = cc
drop-above zero c f rest (g ∷ fs) i e =
    let head : g ≡ f = cc in omega (arith, i.0, ap (λ (x : MailboxEntry). x.cursor) head)
drop-above (suc n) c f rest [] i e = cc
drop-above (suc n) c f rest (g ∷ fs) i e = omega (arith, i.0, drop-above n g.cursor f rest fs i.1 e)

past-head :
    (n c : ℕ) (f : MailboxEntry) (rest fs : List MailboxEntry)
    → Ascending c fs
    → drop n fs ≡ f ∷ rest
    → past f.cursor fs ≡ rest
past-head zero c f rest [] i e = cc
past-head zero c f rest (g ∷ fs) i e =
    let head : g ≡ f = cc in
    subst (λ x. past x.cursor (g ∷ fs) ≡ rest) head
      (ground (arith, past_all g.cursor g.cursor fs (omega arith) i.1))
past-head (suc n) c f rest [] i e = cc
past-head (suc n) c f rest (g ∷ fs) i e =
    ground (arith, past-head n g.cursor f rest fs i.1 e, drop-above n g.cursor f rest fs i.1 e)

is_cons-drop :
    (fs : List MailboxEntry)
    → is_cons fs ≡ true
    → (f : MailboxEntry) × (rest : List MailboxEntry) × (fs ≡ f ∷ rest)
      × (head_cursor fs ≡ f.cursor)
is_cons-drop [] e = cc
is_cons-drop (f ∷ fs) e = (f, fs, refl, refl)

module _ (ms : MailboxService) (s : IsSoundService ms) (r d : String) (after limit : ℕ) where
  abbrev waiting : List MailboxEntry
  waiting = pending_at ms r d

  waiting-Ascending : Ascending 0 waiting
  waiting-Ascending = go (get (mailbox_key r d) ms.mailboxes) (s.sound (mailbox_key r d))
    where
      go :
          (o : Option DeviceMailbox)
          → ((mb : DeviceMailbox) → o ≡ some mb → IsSound ms.mailbox_seq mb)
          → Ascending 0 (pending_in o)
      go none h = tt
      go (some mb) h = pending-Ascending 0 ms.mailbox_seq mb.frames (h mb refl).ordered

  abbrev due : List MailboxEntry
  due = past after waiting

  due-Ascending : Ascending after due
  due-Ascending = past-Ascending after 0 waiting waiting-Ascending

  -- In a sound service a device that fetches its next page past the cursor of the last frame it
  -- was given loses nothing and gets nothing twice: the page and the frames past that cursor are
  -- exactly the frames that were due.
  pub fetch_resumes :
      let page = fetch ms r d after limit in
      page.frames ++ map to_frame (past (last_cursor after page.frames) waiting) ≡ map to_frame due
  fetch_resumes = rw (fetch_lem ms r d after limit) (
      rw (← past-past after _ waiting (last_cursor-ge n after due due-Ascending)) (
        rw (past-last n after due due-Ascending) (
          sym (map-append to_frame (take n due) (drop n due))
          ∙ ap (map to_frame) (take-append-drop n due))))
    where
      n : ℕ
      n = page_limit limit

  past-skipped :
      (n : ℕ) (f : MailboxEntry) (rest : List MailboxEntry)
      → drop n due ≡ f ∷ rest
      → map to_frame due
        ≡ map to_frame (take n due) ++ (to_frame f ∷ map to_frame (past f.cursor waiting))
  past-skipped n f rest e =
      let above = drop-above n after f rest due due-Ascending e in
      let tail : past f.cursor waiting ≡ rest =
        sym (past-past after f.cursor waiting (omega (arith, above)))
        ∙ past-head n after f rest due due-Ascending e in
      ap (map to_frame) (sym (take-append-drop n due) ∙ ap (◌++◌ (take n due)) e)
      ∙ map-append to_frame (take n due) (f ∷ rest)
      ∙ ap (λ fs. map to_frame (take n due) ++ (to_frame f ∷ map to_frame fs)) (sym tail)

  -- In a sound service, when a page says that more frames are due, a device that fetched past
  -- the `nextCursor` of the page would never be given the frame which that cursor names: the
  -- frames due are the page, that one frame, and those past `nextCursor`.
  pub fetch_next_cursor_skips :
      (fetch ms r d after limit).has_more ≡ true
      → let page = fetch ms r d after limit in
        (skipped : MailboxEntry) × (skipped.cursor ≡ page.next_cursor)
        × (map to_frame due
            ≡ page.frames ++ (to_frame skipped ∷ map to_frame (past page.next_cursor waiting)))
  fetch_next_cursor_skips more =
      let (f, rest, e, c) = is_cons-drop (drop n due) (rw (fetch_lem ms r d after limit) at more) in
      (
        f,
        rw (fetch_lem ms r d after limit) (sym c),
        rw (fetch_lem ms r d after limit, c) (past-skipped n f rest e),
      )
    where
      n : ℕ
      n = page_limit limit
