-- ===== src/Mailbox/Frames.antt =====
-- The loops over a mailbox's frames in go-bridge/relay_mailbox.go, one at a time.
use cccode_macbridge.Base.{
  lt_of_leb, append-cons-ne-nil, true, false, ℕ, ◌+◌, ◌≤◌, ◌<◌, ◌≡◌, refl, ap, not, List, [], ◌∷◌,
  ◌++◌, map, ◌⊎◌, inl, inr, Bool-cases, true, false, arith, leb, ltb, length, keep, total,
}
use cccode_macbridge.Mailbox.{MailboxEntry, evict_frames, ack_frames, expire_frames, count_pending}

-- The frames not yet acknowledged or evicted, oldest first.
abbrev pub pending : List MailboxEntry → List MailboxEntry
pending = keep (λ f. not f.acked)

abbrev pub bytes : List MailboxEntry → ℕ
bytes = total (λ f. f.size)

abbrev pub cursors : List MailboxEntry → List ℕ
cursors = map (λ f. f.cursor)

-- Each number is above the one before it, the first above `lo` and the last at most `hi`.
abbrev pub Increasing : ℕ → ℕ → List ℕ → Type 0
Increasing lo hi [] = lo ≤ hi
Increasing lo hi (n ∷ ns) = (lo < n) × Increasing n hi ns

pub Increasing-mono :
    (lo hi hi' : ℕ) (ns : List ℕ) → hi ≤ hi' → Increasing lo hi ns → Increasing lo hi' ns
Increasing-mono lo hi hi' [] h i = omega arith
Increasing-mono lo hi hi' (n ∷ ns) h i = (i.0, Increasing-mono n hi hi' ns h i.1)

pub Increasing-append :
    (lo hi n : ℕ) (ns : List ℕ) → hi < n → Increasing lo hi ns → Increasing lo n (ns ++ (n ∷ []))
Increasing-append lo hi n [] h i = (omega arith, omega arith)
Increasing-append lo hi n (m ∷ ns) h i = (i.0, Increasing-append m hi n ns h i.1)

pub Increasing-lower :
    (lo' lo hi : ℕ) (ns : List ℕ) → lo' ≤ lo → Increasing lo hi ns → Increasing lo' hi ns
Increasing-lower lo' lo hi [] h i = omega arith
Increasing-lower lo' lo hi (n ∷ ns) h i = (omega arith, i.1)

pub Increasing-bounds : (lo hi : ℕ) (ns : List ℕ) → Increasing lo hi ns → lo ≤ hi
Increasing-bounds lo hi [] i = i
Increasing-bounds lo hi (n ∷ ns) i = omega (arith, Increasing-bounds n hi ns i.1)

-- Each size is the length of the envelope.
abbrev pub Measured : List MailboxEntry → Type 0
Measured [] = Unit
Measured (f ∷ fs) = (f.size ≡ length f.envelope) × Measured fs

pub Measured-append : (fs gs : List MailboxEntry) → Measured fs → Measured gs → Measured (fs ++ gs)
Measured-append [] gs m n = n
Measured-append (f ∷ fs) gs m n = (m.0, Measured-append fs gs m.1 n)

pub cursors-append : (fs gs : List MailboxEntry) → cursors (fs ++ gs) ≡ cursors fs ++ cursors gs
cursors-append [] gs = refl
cursors-append (f ∷ fs) gs = ap (◌∷◌ f.cursor) (cursors-append fs gs)

pub count_pending_lem : (fs : List MailboxEntry) → count_pending fs ≡ length (pending fs)
unfolding count_pending
count_pending_lem [] = refl
count_pending_lem (f ∷ fs) = ground (arith, count_pending_lem fs)

-- Acknowledging.

module _ (c : ℕ) where
  pub cursors-ack : (fs : List MailboxEntry) → cursors (ack_frames c fs).0 ≡ cursors fs
  unfolding ack_frames
  cursors-ack [] = refl
  cursors-ack (f ∷ fs) = ground (arith, cursors-ack fs)

  pub ack-Measured : (fs : List MailboxEntry) → Measured fs → Measured (ack_frames c fs).0
  unfolding ack_frames
  ack-Measured [] m = tt
  ack-Measured (f ∷ fs) m = ground (arith, ack-Measured fs m.1)

  pub bytes-ack :
      (fs : List MailboxEntry)
      → bytes (pending (ack_frames c fs).0) + (ack_frames c fs).1 ≡ bytes (pending fs)
  unfolding ack_frames
  bytes-ack [] = refl
  bytes-ack (f ∷ fs) = ground (arith, bytes-ack fs)

  pub pending-ack :
      (fs : List MailboxEntry)
      → pending (ack_frames c fs).0 ≡ keep (λ f. not (leb f.cursor c)) (pending fs)
  unfolding ack_frames
  pending-ack [] = refl
  pending-ack (f ∷ fs) = ground (arith, pending-ack fs)

-- Expiring.

module _ (now : ℕ) where
  pub expire-Increasing :
      (lo hi : ℕ) (fs : List MailboxEntry)
      → Increasing lo hi (cursors fs)
      → Increasing lo hi (cursors (expire_frames now fs).0)
  unfolding expire_frames
  expire-Increasing lo hi [] i = i
  expire-Increasing lo hi (f ∷ fs) i = ground (
    arith,
    expire-Increasing f.cursor hi fs i.1,
    Increasing-lower lo f.cursor hi (cursors (expire_frames now fs).0),
  )

  pub expire-Measured : (fs : List MailboxEntry) → Measured fs → Measured (expire_frames now fs).0
  unfolding expire_frames
  expire-Measured [] m = tt
  expire-Measured (f ∷ fs) m = ground (arith, expire-Measured fs m.1)

  pub bytes-expire :
      (fs : List MailboxEntry)
      → bytes (pending (expire_frames now fs).0) + (expire_frames now fs).1 ≡ bytes (pending fs)
  unfolding expire_frames
  bytes-expire [] = refl
  bytes-expire (f ∷ fs) = ground (arith, bytes-expire fs)

  pub pending-expire :
      (fs : List MailboxEntry)
      → pending (expire_frames now fs).0 ≡ keep (λ f. not (ltb f.expires_at now)) (pending fs)
  unfolding expire_frames
  pending-expire [] = refl
  pending-expire (f ∷ fs) = ground (arith, pending-expire fs)

  pub count-expire :
      (fs : List MailboxEntry)
      → (expire_frames now fs).2 + length (pending (expire_frames now fs).0) ≡ length (pending fs)
  unfolding expire_frames
  count-expire [] = refl
  count-expire (f ∷ fs) = ground (arith, count-expire fs)

-- Evicting.

module _ (needed : ℕ) where
  pub cursors-evict :
      (e : ℕ) (fs : List MailboxEntry) → cursors (evict_frames needed e fs).0 ≡ cursors fs
  unfolding evict_frames
  cursors-evict e [] = refl
  cursors-evict e (f ∷ fs) = ground (arith, cursors-evict e fs, cursors-evict (e + f.size) fs)

  pub evict-Measured :
      (e : ℕ) (fs : List MailboxEntry) → Measured fs → Measured (evict_frames needed e fs).0
  unfolding evict_frames
  evict-Measured e [] m = tt
  evict-Measured e (f ∷ fs) m =
      ground (arith, evict-Measured e fs m.1, evict-Measured (e + f.size) fs m.1)

  pub bytes-evict :
      (e : ℕ) (fs : List MailboxEntry)
      → bytes (pending (evict_frames needed e fs).0) + (evict_frames needed e fs).1
        ≡ bytes (pending fs) + e
  unfolding evict_frames
  bytes-evict e [] = refl
  bytes-evict e (f ∷ fs) = ground (arith, bytes-evict e fs, bytes-evict (e + f.size) fs)

  -- The eviction stops as soon as it has the bytes that it needs, or drops everything.
  pub evict_enough :
      (e : ℕ) (fs : List MailboxEntry)
      → (needed ≤ (evict_frames needed e fs).1) ⊎ (pending (evict_frames needed e fs).0 ≡ [])
  unfolding evict_frames
  evict_enough e [] = inr refl
  evict_enough e (f ∷ fs) = ground (arith, evict_enough e fs, evict_enough (e + f.size) fs)

  -- What the eviction drops, in order.
  pub evicted : ℕ → List MailboxEntry → List MailboxEntry
  evicted e [] = []
  evicted e (f ∷ fs) = elim f.acked [
    | true ↦ evicted e fs
    | false ↦ f ∷ elim (leb needed (e + f.size)) [ true ↦ [] | false ↦ evicted (e + f.size) fs ]
  ]

  pub evicted-append-pending :
      (e : ℕ) (fs : List MailboxEntry)
      → pending fs ≡ evicted e fs ++ pending (evict_frames needed e fs).0
  unfolding evict_frames evicted
  evicted-append-pending e [] = refl
  evicted-append-pending e (f ∷ fs) =
      ground (arith, evicted-append-pending e fs, evicted-append-pending (e + f.size) fs)

  -- Without its last frame the eviction would not have had the bytes.
  pub evict_minimal :
      (e : ℕ) (fs front : List MailboxEntry) (last : MailboxEntry)
      → e < needed
      → evicted e fs ≡ front ++ (last ∷ [])
      → e + bytes front < needed
  unfolding evicted
  evict_minimal e [] [] last h p = cc
  evict_minimal e [] (g ∷ front) last h p = cc
  evict_minimal e (f ∷ fs) [] last h p = omega arith
  evict_minimal e (f ∷ fs) (g ∷ front) last h p = elim (Bool-cases f.acked) [
    | inl a ↦ evict_minimal e fs (g ∷ front) last h (rw a at p)
    | inr a ↦ elim (Bool-cases (leb needed (e + f.size))) [
      | inl b ↦ absurd (append-cons-ne-nil front last (ground arith))
      | inr b ↦
          let tail : evicted (e + f.size) fs ≡ front ++ (last ∷ []) = ground arith in
          let ih = evict_minimal (e + f.size) fs front last (omega (arith, lt_of_leb _ _ b)) tail in
          let head : f ≡ g = ground arith in
          omega (arith, ih, ap (λ (x : MailboxEntry). x.size) head)
    ]
  ]
