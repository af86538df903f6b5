-- ===== src/Pagination/Tests.antt =====
-- Runs of go-bridge/pagination.go, and its theorems at concrete inputs.
use Prim.Native.String
use cccode_macbridge.Base.{
  sym, ◌↔◌, map, keep, ◌+◌, ℕ, ◌/◌, ◌≤◌, ◌<◌, ◌≡◌, refl, ap, ◌∙◌, ◌⊎◌, String, Bool, true, false,
  ◌&&◌, Option, none, some, List, [], ◌∷◌, arith, ltb, ◌==◌, length, drop, total,
}
use cccode_macbridge.Base.Codec.{Codec, IsCodec}
use cccode_macbridge.Base.Codec.Unary.{
  write_text, write_number, read_number, read_number-write, write_number-full,
}
use cccode_macbridge.Transcript.{LogicalMessageSpan, ByteRange}
use cccode_macbridge.Transcript.Lineage.{PageIndex, is_cursor_stale, is_in}
use cccode_macbridge.Transcript.Lineage.Chain.{differ_of}
use cccode_macbridge.Transcript.Cursor.{encode_message_cursor, encoded}
use cccode_macbridge.Transcript.Cursor.Unary.{codec, codec-IsCodec}
use cccode_macbridge.Transcript.Pages.{page_spans, page_limit}
use cccode_macbridge.Transcript.Replay.Inside.{is_inside}
use cccode_macbridge.Pagination.Serve.{MessagePage, served, serve_paginated_messages}
use cccode_macbridge.Pagination.Serve.Cursors.{Shows}
use cccode_macbridge.Base.{◌-◌}
use cccode_macbridge.Pagination.Serve.Follows.{Asks, serve_paginated_messages_lem}
use cccode_macbridge.Pagination.Trim.{
  max_page_response_bytes, drop_oldest, compact_over, trim_wire_to_budget,
}
use cccode_macbridge.Pagination.Trim.Budget.{AllOver, Compacted, trim_wire_to_budget_lem}
use cccode_macbridge.Pagination.Compact.{
  missing, other, typed, Message, compact_duplicate_message_fields, compact_parts, compact_text,
  compact_steps, texts_of, steps_of,
}
use cccode_macbridge.Pagination.Compact.Collected.{Collected, HasText, HasStep}
use cccode_macbridge.Pagination.Compact.Restore.{
  IsCompactOf, parts_in, compact_duplicate_message_fields_lem,
}
use cccode_macbridge.Pagination.Sessions.{Session, ListCursor, walk_sessions}
use cccode_macbridge.Pagination.Sessions.Walk.{walk_sessions_lem}

-- A message is the length of its text; half of it is a copy.
abbrev sizes : List ℕ → ℕ
sizes wire = total (λ n. n) wire

abbrev halve : ℕ → ℕ
halve n = n / 2

abbrev large : List ℕ
large = 300000 ∷ 200000 ∷ 100000 ∷ 50000 ∷ []

trim_wire_to_budget-large : trim_wire_to_budget sizes halve large ≡ 100000 ∷ 50000 ∷ 25000 ∷ []
unfolding trim_wire_to_budget compact_over drop_oldest
trim_wire_to_budget-large = refl

trim_wire_to_budget_lem_example :
    (small : List ℕ) × (number : ℕ) × Compacted sizes halve large small
    × (trim_wire_to_budget sizes halve large ≡ drop number small)
    × ((length large ≡ 0) ⊎ (number < length large))
    × ((length (trim_wire_to_budget sizes halve large) ≤ 1)
        ⊎ (sizes (trim_wire_to_budget sizes halve large) ≤ max_page_response_bytes))
    × AllOver sizes halve number small
trim_wire_to_budget_lem_example = trim_wire_to_budget_lem sizes halve large

-- Steps that are numbers.
abbrev same_steps : List ℕ → List ℕ → Bool
same_steps [] [] = true
same_steps [] (y ∷ ys) = false
same_steps (x ∷ xs) [] = false
same_steps (x ∷ xs) (y ∷ ys) = (x == y) && same_steps xs ys

both : (a b : Bool) → (a && b) ≡ true → (a ≡ true) × (b ≡ true)
both a b h = ground (arith, h)

equal_of : (x y : ℕ) → (x == y) ≡ true → x ≡ y
equal_of x y h = ground (arith, h)

same_steps_sound : (xs ys : List ℕ) → same_steps xs ys ≡ true → xs ≡ ys
same_steps_sound [] [] h = refl
same_steps_sound [] (y ∷ ys) h = cc
same_steps_sound (x ∷ xs) [] h = cc
same_steps_sound (x ∷ xs) (y ∷ ys) h =
    let (e, f) = both (x == y) (same_steps xs ys) h in
    ap (λ z. z ∷ xs) (equal_of x y e) ∙ ap (λ zs. y ∷ zs) (same_steps_sound xs ys f)

abbrev twice : Message ℕ
twice = record {
  content = typed "ab";
  thinking = other;
  steps = typed (7 ∷ []);
  parts = typed (
      some (record { type = typed "text"; content = typed "ab"; step = none })
      ∷ none
      ∷ some (record { type = typed "tool"; content = missing; step = some 7 })
      ∷ []);
}

compact-twice :
    compact_duplicate_message_fields same_steps twice
    ≡ record twice { content = missing; steps = missing }
unfolding compact_duplicate_message_fields compact_parts compact_text compact_steps texts_of
    steps_of
compact-twice = refl

same_steps-reflexive : (xs : List ℕ) → same_steps xs xs ≡ true
same_steps-reflexive [] = refl
same_steps-reflexive (x ∷ xs) =
    let e : (x == x) ≡ true = ground arith in rw e (same_steps-reflexive xs)

same_steps-exact : (xs ys : List ℕ) → (same_steps xs ys ≡ true) ↔ (xs ≡ ys)
same_steps-exact xs ys =
    (same_steps_sound xs ys, λ e. ap (same_steps xs) (sym e) ∙ same_steps-reflexive xs)

compact_duplicate_message_fields_lem_example :
    (texts : List String) × (reasoning : List String) × (steps : List ℕ) × Collected
      (HasText "text")
      (parts_in twice.parts)
      texts
    × Collected (HasText "reasoning") (parts_in twice.parts) reasoning
    × Collected HasStep (parts_in twice.parts) steps
    × IsCompactOf same_steps same_steps-exact twice
        (compact_duplicate_message_fields same_steps twice)
        texts
        reasoning
        steps
compact_duplicate_message_fields_lem_example =
    compact_duplicate_message_fields_lem same_steps same_steps-exact twice

abbrev read_rest : ℕ → Option (ℕ × String) → Option ListCursor
read_rest version none = none
read_rest version (some (millis, id)) =
    some (record { version = version; updated_at_millis = millis; session_id = id })

abbrev read_cursor : Option (ℕ × String) → Option ListCursor
read_cursor none = none
read_cursor (some (version, s)) = read_rest version (read_number s)

abbrev list_codec : Codec String ListCursor
list_codec = record {
  marshal = λ c. some (write_number c.version (write_number c.updated_at_millis c.session_id));
  to_text = λ s. s;
  of_text = λ s. some s;
  unmarshal = λ s. read_cursor (read_number s);
}

abbrev list_codec-IsCodec : IsCodec list_codec
list_codec-IsCodec = record {
  bytes = λ c. write_number c.version (write_number c.updated_at_millis c.session_id);
  marshals = λ c. refl;
  reads = λ c.
      ap read_cursor (read_number-write c.version (write_number c.updated_at_millis c.session_id))
      ∙ ap (read_rest c.version) (read_number-write c.updated_at_millis c.session_id);
  decodes = λ s. refl;
  is_text = λ c. write_number-full c.version (write_number c.updated_at_millis c.session_id);
}

-- Texts by their length.
abbrev longer : String → String → Bool
longer a b = ltb (String.len b) (String.len a)

longer-asymmetric : (a b : String) → longer a b ≡ true → longer b a ≡ false
longer-asymmetric a b h = ground (arith, h)

abbrev session_of : ℕ → String → Session
session_of ts id = record { updated_at_millis = some ts; id = some id }

abbrev rows : List Session
rows = session_of 9 "a" ∷ session_of 5 "a" ∷ session_of 5 "bb" ∷ session_of 2 "a" ∷ []

walk_sessions_lem_example : walk_sessions list_codec longer rows 2 5 "" [] ≡ some rows
walk_sessions_lem_example =
    walk_sessions_lem list_codec longer longer-asymmetric list_codec-IsCodec rows
      ((refl, (refl, (refl, tt))), ((refl, (refl, tt)), ((refl, tt), (tt, tt)))) 2 (omega arith)

abbrev span_at : ℕ → ℕ → ℕ → LogicalMessageSpan
span_at ordinal start end = record {
  ordinal = ordinal;
  stable_id = "";
  replay_start = start;
  end_offset = end;
  open_tool_uses = 0;
}

abbrev three : List LogicalMessageSpan
three = span_at 0 0 10 ∷ span_at 1 10 25 ∷ span_at 2 20 30 ∷ []

abbrev index : PageIndex
index = record {
  version = 1;
  backend = "codex";
  extractor_revision = "codex-v2";
  file_path = "p";
  fingerprint = record { size_bytes = 30; mod_time_unix_nano = 1 };
  anchor = record { algo = ""; window = 0 };
  parse_offset = 30;
  prefix_generation = "g";
  generation_lineage =
      record { id = "g"; parent_id = ""; indexed_through = 30; anchor_hex = "" } ∷ [];
  spans = three;
  file_device = 0;
  file_inode = 0;
}

abbrev ordinal_of : LogicalMessageSpan → ℕ
ordinal_of s = s.ordinal

abbrev reader : ByteRange → Option (List ℕ)
reader r = some (map ordinal_of (keep (is_inside r) three))

abbrev on_wire : LogicalMessageSpan → ℕ → ℕ
on_wire s n = n + 100000

-- The cursor of the third message: the page is the two before it, and fits.
abbrev asked : String
asked = "1,11,1,sg"

Asks-third : Asks codec codec-IsCodec reader on_wire sizes halve "s" index ordinal_of asked (some 2)
unfolding encode_message_cursor encoded write_number write_text is_cursor_stale is_in
Asks-third = (
  record { version = 0; session_id = "s"; ordinal = 2; generation = "g" },
  refl,
  refl,
  refl,
  refl,
)

serve_paginated_messages_lem_example :
    (page : List LogicalMessageSpan) × (page_spans three (some 2) (page_limit 5) ≡ some page)
    × (p : MessagePage ℕ) × (serve_paginated_messages codec
          (some reader)
          on_wire
          sizes
          halve
          "s"
          index
          asked
          5
        ≡ served p)
    × (p.messages ≡ trim_wire_to_budget sizes halve (map (λ s. on_wire s (ordinal_of s)) page))
    × Shows codec "s" index (drop (length page - length p.messages) page) p
serve_paginated_messages_lem_example =
    serve_paginated_messages_lem codec codec-IsCodec reader on_wire sizes halve "s" index ordinal_of
      (λ r c. refl) 3 20 30
      (
        refl,
        omega arith,
        omega arith,
        omega arith,
        (
          refl,
          omega arith,
          omega arith,
          omega arith,
          (refl, omega arith, omega arith, omega arith, (refl, omega arith)),
        ),
      )
      asked (some 2) 5 (differ_of "s" "" refl) Asks-third
