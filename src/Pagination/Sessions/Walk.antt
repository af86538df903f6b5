-- ===== src/Pagination/Sessions/Walk.antt =====
-- Asking for the pages of a session list shows every session once (go-bridge/pagination.go).
use mathlib.Core.Path.{subst}
use mathlib.Core.List.{append_assoc}
use cccode_macbridge.Base.{
  ℕ, zero, suc, ◌<◌, ◌≡◌, refl, sym, ap, ◌∙◌, inl, inr, String, Bool, true, false, ◌&&◌, ◌||◌, some,
  List, [], ◌∷◌, ◌++◌, arith, ltb, ◌==◌, length, take, keep, length-append, Bool-cases,
}
use cccode_macbridge.Base.Dict.{ne_of_not-eq}
use cccode_macbridge.Base.Codec.{Codec, IsCodec}
use cccode_macbridge.Pagination.Sessions.{
  Session, ListCursor, list_cursor_version, cursor_of, millis_of, id_of, last_of, encoded_text,
  encode_list_cursor, check_version, decode_bytes, decode_list_cursor, is_after_cursor,
  sessions_after, from_cursor, next_of, cut, paginate_session_list, walk_sessions,
}

later_not : (m : ℕ) (a : Bool) → a ≡ false → (ltb m m || ((m == m) && a)) ≡ false
later_not m a e = ground (arith, e)

later_asym :
    (m n : ℕ) (a b : Bool)
    → (a ≡ true → b ≡ false)
    → (ltb n m || ((n == m) && a)) ≡ true
    → (ltb m n || ((m == n) && b)) ≡ false
later_asym m n a b f h = elim (Bool-cases a) [
  | inl e ↦ let g : b ≡ false = f e in ground (arith, g, h)
  | inr e ↦ ground (arith, e, h)
]

fits_of : (m n : ℕ) → (ltb 0 m && ltb m n) ≡ true → m < n
fits_of m n h = ground (arith, h)

last_cases :
    (n : ℕ) (ss : List Session)
    → 0 < n
    → n < length ss
    → (zs : List Session) × (s : Session) × (rest : List Session) × (take n ss ≡ zs ++ (s ∷ []))
      × (ss ≡ zs ++ (s ∷ rest))
      × (last_of (take n ss) ≡ some s)
unfolding last_of
last_cases zero ss h l = absurd (omega arith)
last_cases (suc n) [] h l = absurd (omega arith)
last_cases (suc zero) (s ∷ ss) h l = ([], s, ss, refl, refl, refl)
last_cases (suc (suc n)) (s ∷ []) h l = absurd (omega arith)
last_cases (suc (suc n)) (s ∷ t ∷ ts) h l =
    let (zs, u, rest, page, all, last) = last_cases (suc n) (t ∷ ts) (omega arith) (omega arith) in
    (s ∷ zs, u, rest, ap (λ xs. s ∷ xs) page, ap (λ xs. s ∷ xs) all, last)

module _ {Bytes : Type 0} (codec : Codec Bytes ListCursor) (greater : String → String → Bool) where
  abbrev AllAfter : Session → List Session → Type 0
  AllAfter s [] = Unit
  AllAfter s (t ∷ ts) = (is_after_cursor codec greater (cursor_of s) t ≡ true) × AllAfter s ts

  -- Newer sessions first, and of equal times the lesser identifier first, each once.
  abbrev pub IsSorted : List Session → Type 0
  IsSorted [] = Unit
  IsSorted (s ∷ ss) = AllAfter s ss × IsSorted ss

  keep_all :
      (s : Session) (ss : List Session)
      → AllAfter s ss
      → keep (is_after_cursor codec greater (cursor_of s)) ss ≡ ss
  keep_all s [] a = refl
  keep_all s (t ∷ ts) a = rw a.0 (ap (λ xs. t ∷ xs) (keep_all s ts a.1))

  AllAfter-append :
      (x : Session) (xs : List Session) (s : Session) (ys : List Session)
      → AllAfter x (xs ++ (s ∷ ys))
      → is_after_cursor codec greater (cursor_of x) s ≡ true
  AllAfter-append x [] s ys a = a.0
  AllAfter-append x (y ∷ xs) s ys a = AllAfter-append x xs s ys a.1

  module _ (asymmetric : (a b : String) → greater a b ≡ true → greater b a ≡ false) where
    irreflexive : (a : String) → greater a a ≡ false
    irreflexive a = elim (Bool-cases (greater a a)) [ inl e ↦ asymmetric a a e | inr e ↦ e ]

    not_itself : (s : Session) → is_after_cursor codec greater (cursor_of s) s ≡ false
    not_itself s = later_not (millis_of s) (greater (id_of s) (id_of s)) (irreflexive (id_of s))

    not_before :
        (s t : Session)
        → is_after_cursor codec greater (cursor_of s) t ≡ true
        → is_after_cursor codec greater (cursor_of t) s ≡ false
    not_before s t h =
        later_asym (millis_of s) (millis_of t) (greater (id_of t) (id_of s))
          (greater (id_of s) (id_of t)) (asymmetric (id_of t) (id_of s)) h

    keep_after :
        (xs : List Session) (s : Session) (ys : List Session)
        → IsSorted (xs ++ (s ∷ ys))
        → keep (is_after_cursor codec greater (cursor_of s)) (xs ++ (s ∷ ys)) ≡ ys
    keep_after [] s ys o = rw (not_itself s) (keep_all s ys o.0)
    keep_after (x ∷ xs) s ys o =
        rw (not_before x s (AllAfter-append x xs s ys o.0)) (keep_after xs s ys o.1)

    module _ (laws : IsCodec codec) (sessions : List Session) (sorted : IsSorted sessions)
        (limit : ℕ) (positive : 0 < limit) where
      -- The cursor of a session brings the list behind it.
      after_next :
          (xs : List Session) (s : Session) (ys : List Session)
          → sessions ≡ xs ++ (s ∷ ys)
          → (next : String) × (next_of codec greater (some s) ≡ some next)
            × (from_cursor codec greater next sessions ≡ ys)
      unfolding next_of encode_list_cursor encoded_text from_cursor decode_list_cursor decode_bytes
          check_version sessions_after
      after_next xs s ys e =
          let c : ListCursor = record (cursor_of s) { version = list_cursor_version } in
          (
            codec.to_text (laws.bytes c),
            rw (laws.marshals c) refl,
            rw
                (
                  ne_of_not-eq (codec.to_text (laws.bytes c)) "" (laws.is_text c),
                  laws.decodes (laws.bytes c),
                  laws.reads c,
                )
                (ap (keep (is_after_cursor codec greater (cursor_of s))) e
                  ∙ keep_after xs s ys (subst IsSorted e sorted)),
          )

      page_of :
          (ys : List Session) (cursor_str : String)
          → from_cursor codec greater cursor_str sessions ≡ ys
          → paginate_session_list codec greater sessions cursor_str limit
            ≡ cut codec greater ys limit
      unfolding paginate_session_list
      page_of ys cursor_str f = ap (λ zs. cut codec greater zs limit) f

      walk_rest :
          (fuel : ℕ) (xs ys : List Session) (cursor_str : String) (shown : List Session)
          → sessions ≡ xs ++ ys
          → from_cursor codec greater cursor_str sessions ≡ ys
          → length ys < fuel
          → walk_sessions codec greater sessions limit fuel cursor_str shown ≡ some (shown ++ ys)
      unfolding walk_sessions cut
      walk_rest zero xs ys cursor_str shown e f h = absurd (omega arith)
      walk_rest (suc fuel) xs ys cursor_str shown e f h =
          elim (Bool-cases (ltb 0 limit && ltb limit (length ys))) [
            | inr all ↦
                rw (walk_sessions, page_of ys cursor_str f, all, page_of ys cursor_str f, all) refl
            | inl more ↦
                let (zs, s, rest, page, whole, last) =
                  last_cases limit ys positive (fits_of limit (length ys) more) in
                let split : sessions ≡ (xs ++ zs) ++ (s ∷ rest) =
                  e ∙ ap (λ us. xs ++ us) whole ∙ sym (append_assoc xs zs (s ∷ rest)) in
                let (next, is_next, behind) = after_next (xs ++ zs) s rest split in
                let shorter : length rest < fuel =
                  omega (arith, ap (length {A = Session}) whole, length-append zs (s ∷ rest)) in
                rw
                  (
                    walk_sessions,
                    page_of ys cursor_str f,
                    more,
                    last,
                    is_next,
                    page_of ys cursor_str f,
                    more,
                    page,
                  )
                  (walk_rest fuel ((xs ++ zs) ++ (s ∷ [])) rest next (shown ++ (zs ++ (s ∷ [])))
                      (split ∙ sym (append_assoc (xs ++ zs) (s ∷ []) rest)) behind shorter
                    ∙ ap some (
                        append_assoc shown (zs ++ (s ∷ [])) rest
                        ∙ ap (λ us. shown ++ us) (append_assoc zs (s ∷ []) rest ∙ sym whole)))
          ]

      -- A client that begins without a cursor and asks on with the next cursor of each page, with a
      -- positive limit, is done after as many pages as there are sessions and one more at the
      -- latest, and has been shown every session once, in the order of the list; when the list is
      -- sorted, Go's order on texts is asymmetric, and a cursor that is encoded is decoded.
      pub walk_sessions_lem :
          walk_sessions codec greater sessions limit (suc (length sessions)) "" [] ≡ some sessions
      unfolding from_cursor
      walk_sessions_lem =
          walk_rest (suc (length sessions)) [] sessions "" [] refl refl (omega arith)
