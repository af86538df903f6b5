-- ===== src/Pagination/Sessions.antt =====
-- paginateSessionList and the list cursor of go-bridge/pagination.go. JSON and base64 are arguments,
-- and so is Go's order on texts.
pub mod Walk
use cccode_macbridge.Base.{
  ℕ, zero, suc, String, Bool, true, false, not, ◌&&◌, ◌||◌, Option, none, some, List, [], ◌∷◌, ◌++◌,
  ltb, ◌==◌, if◌then◌else◌, str_eq, length, take, keep,
}
use cccode_macbridge.Base.Codec.{Codec}

-- A row of the list: its time and its identifier, where they are an int64 and a string.
pub record Session : Type 0 where
  pub updated_at_millis : Option ℕ
  pub id : Option String

abbrev pub millis_of : Session → ℕ
millis_of s = elim s.updated_at_millis [ none ↦ 0 | some ts ↦ ts ]

abbrev pub id_of : Session → String
id_of s = elim s.id [ none ↦ "" | some id ↦ id ]

pub record ListCursor : Type 0 where
  pub version : ℕ
  pub updated_at_millis : ℕ
  pub session_id : String

abbrev pub list_cursor_version : ℕ
list_cursor_version = 1

abbrev pub cursor_of : Session → ListCursor
cursor_of s = record { version = 0; updated_at_millis = millis_of s; session_id = id_of s }

-- `result`, without the next cursor where there is none.
pub record SessionPage : Type 0 where
  pub sessions : List Session
  pub has_more : Bool
  pub next_cursor : Option String

unfoldable pub last_of : List Session → Option Session
last_of [] = none
last_of (s ∷ []) = some s
last_of (s ∷ t ∷ ts) = last_of (t ∷ ts)

module _ {Bytes : Type 0} (codec : Codec Bytes ListCursor) (greater : String → String → Bool) where
  unfoldable pub encoded_text : Option Bytes → Option String
  encoded_text none = none
  encoded_text (some bytes) = some (codec.to_text bytes)

  unfoldable pub encode_list_cursor : ListCursor → Option String
  unfolding encoded_text
  encode_list_cursor c = encoded_text (codec.marshal (record c { version = list_cursor_version }))

  unfoldable pub check_version : Option ListCursor → Option ListCursor
  check_version none = none
  check_version (some c) = if not (c.version == list_cursor_version) then none else some c

  unfoldable pub decode_bytes : Option Bytes → Option ListCursor
  unfolding check_version
  decode_bytes none = none
  decode_bytes (some bytes) = check_version (codec.unmarshal bytes)

  unfoldable pub decode_list_cursor : String → Option ListCursor
  unfolding decode_bytes
  decode_list_cursor s = decode_bytes (codec.of_text s)

  abbrev pub is_after_cursor : ListCursor → Session → Bool
  is_after_cursor c s =
      ltb (millis_of s) c.updated_at_millis
      || ((millis_of s == c.updated_at_millis) && greater (id_of s) c.session_id)

  unfoldable pub sessions_after : Option ListCursor → List Session → List Session
  sessions_after none sessions = sessions
  sessions_after (some c) sessions = keep (is_after_cursor c) sessions

  unfoldable pub from_cursor : String → List Session → List Session
  unfolding sessions_after decode_list_cursor
  from_cursor cursor_str sessions =
      if str_eq cursor_str ""
      then sessions
      else (sessions_after (decode_list_cursor cursor_str) sessions)

  unfoldable pub next_of : Option Session → Option String
  unfolding encode_list_cursor
  next_of none = none
  next_of (some s) = encode_list_cursor (cursor_of s)

  unfoldable pub cut : List Session → ℕ → SessionPage
  unfolding next_of last_of
  cut sessions limit =
      if ltb 0 limit && ltb limit (length sessions)
      then record {
        sessions = take limit sessions;
        has_more = true;
        next_cursor = next_of (last_of (take limit sessions));
      }
      else record { sessions = sessions; has_more = false; next_cursor = none }

  unfoldable pub paginate_session_list : List Session → String → ℕ → SessionPage
  unfolding cut from_cursor
  paginate_session_list sessions cursor_str limit = cut (from_cursor cursor_str sessions) limit

  -- A client that asks on with the next cursor, while it gets one: how the handler is used, no part
  -- of pagination.go.
  module _ (sessions : List Session) (limit : ℕ) where
    unfoldable pub walk_sessions : ℕ → String → List Session → Option (List Session)
    unfolding paginate_session_list
    walk_sessions zero cursor_str shown = none
    walk_sessions (suc fuel) cursor_str shown =
        elim (paginate_session_list sessions cursor_str limit).next_cursor [
          | none ↦ some (shown ++ (paginate_session_list sessions cursor_str limit).sessions)
          | some next ↦
              walk_sessions fuel next
                (shown ++ (paginate_session_list sessions cursor_str limit).sessions)
        ]
