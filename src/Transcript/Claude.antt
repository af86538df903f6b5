-- ===== src/Transcript/Claude.antt =====
-- The Claude extractor of transcriptindex/extractor.go. A pointer to a span is its index in `spans`,
-- which only grows. What json.Unmarshal makes of a line is an argument.
pub mod Order
use Prim.Native.String.{◌++◌ as text_append}
use cccode_macbridge.Base.{
  ℕ, zero, suc, ◌+◌, ◌-◌, String, Bool, true, false, ◌&&◌, ◌||◌, Option, none, some, List, [], ◌∷◌,
  ◌++◌, ltb, if◌then◌else◌, str_eq, length,
}
use cccode_macbridge.Base.Dict.{Dict, get, put, remove}
use cccode_macbridge.Base.Text.{trim_space, format_int}
use cccode_macbridge.Transcript.{LogicalMessageSpan}
use cccode_macbridge.Transcript.Scan.{Record, scan_transcript}
use cccode_macbridge.Transcript.Codex.{new_span, extend, open_one, close_one}

pub record ClaudeSpanExtractor : Type 0 where
  pub spans : List LogicalMessageSpan
  pub by_assistant : Dict ℕ
  pub tool_owner : Dict String
  pub pending : Dict ℕ
  pub ordinal : ℕ

abbrev pub new_claude_extractor : ClaudeSpanExtractor
new_claude_extractor = record {
  spans = [];
  by_assistant = [];
  tool_owner = [];
  pending = [];
  ordinal = 0;
}

-- A write through a pointer.
abbrev pub update_at :
    ℕ
    → (LogicalMessageSpan → LogicalMessageSpan)
    → List LogicalMessageSpan
    → List LogicalMessageSpan
update_at i f [] = []
update_at zero f (s ∷ ss) = f s ∷ ss
update_at (suc i) f (s ∷ ss) = s ∷ update_at i f ss

abbrev pub write :
    ℕ → (LogicalMessageSpan → LogicalMessageSpan) → ClaudeSpanExtractor → ClaudeSpanExtractor
write i f x = record x { spans = update_at i f x.spans }

unfoldable pub span_key_for_assistant : String → ℕ → String
unfolding format_int
span_key_for_assistant msg_id start =
    if str_eq msg_id "" then text_append "assistant@" (format_int start) else msg_id

-- `assistantSpan`, by whether the key is known.
unfoldable pub assistant_span_of :
    Option ℕ → ClaudeSpanExtractor → String → String → Record → ClaudeSpanExtractor × ℕ
assistant_span_of (some i) x key msg_id r = (write i (extend r.end) x, i)
assistant_span_of none x key msg_id r = (
  record x {
    spans = x.spans ++ (record (new_span x.ordinal r) { stable_id = msg_id } ∷ []);
    by_assistant = put key (length x.spans) x.by_assistant;
    ordinal = x.ordinal + 1;
  },
  length x.spans,
)

unfoldable pub assistant_span : ClaudeSpanExtractor → String → Record → ClaudeSpanExtractor × ℕ
unfolding assistant_span_of span_key_for_assistant
assistant_span x msg_id r =
    let key = span_key_for_assistant msg_id r.start in
    assistant_span_of (get key x.by_assistant) x key msg_id r

pub record ClaudeContentBlock : Type 0 where
  pub type : String
  pub id : String
  pub tool_use_id : String

-- The result of a tool that was seen before its use, if there is one.
unfoldable pub settle_pending : Option ℕ → ClaudeSpanExtractor → ℕ → String → ClaudeSpanExtractor
settle_pending none x i id = x
settle_pending (some end) x i id =
    write i (λ s. close_one (extend end s)) (record x { pending = remove id x.pending })

unfoldable pub use_tool : ClaudeSpanExtractor → ℕ → String → String → ClaudeSpanExtractor
unfolding settle_pending
use_tool x i owner id =
    let opened = write i open_one x in
    if str_eq id ""
    then opened
    else (settle_pending (get id x.pending)
        (record opened { tool_owner = put id owner x.tool_owner }) i id)

unfoldable pub assistant_blocks :
    ClaudeSpanExtractor → ℕ → String → List ClaudeContentBlock → ClaudeSpanExtractor
unfolding use_tool trim_space
assistant_blocks x i owner [] = x
assistant_blocks x i owner (b ∷ bs) =
    assistant_blocks (if str_eq b.type "tool_use" then use_tool x i owner (trim_space b.id) else x)
      i owner bs

-- A result goes to the message that used the tool.
unfoldable pub credit : Option ℕ → ClaudeSpanExtractor → Record → ClaudeSpanExtractor
credit none x r = x
credit (some i) x r = write i (λ s. close_one (extend r.end s)) x

unfoldable pub tool_result_of :
    Option String → ClaudeSpanExtractor → String → Record → ClaudeSpanExtractor
unfolding credit
tool_result_of none x id r = record x { pending = put id r.end x.pending }
tool_result_of (some owner) x id r = credit (get owner x.by_assistant) x r

unfoldable pub tool_result : ClaudeSpanExtractor → String → Record → ClaudeSpanExtractor
unfolding tool_result_of
tool_result x id r = if str_eq id "" then x else tool_result_of (get id x.tool_owner) x id r

unfoldable pub user_blocks :
    ClaudeSpanExtractor → List ClaudeContentBlock → Record → ClaudeSpanExtractor
unfolding tool_result trim_space
user_blocks x [] r = x
user_blocks x (b ∷ bs) r =
    user_blocks
      (if str_eq b.type "tool_result" then tool_result x (trim_space b.tool_use_id) r else x) bs r

unfoldable pub has_visible : List ClaudeContentBlock → Bool
has_visible [] = false
has_visible (b ∷ bs) = str_eq b.type "text" || has_visible bs

-- The content of a message as JSON: missing or null, a string, an array of blocks, or another.
pub data Content : Type 0 where
  absent plain unreadable : Content
  blocks : List ClaudeContentBlock → Content

unfoldable pub decode_claude_content_blocks : Content → List ClaudeContentBlock
decode_claude_content_blocks absent = []
decode_claude_content_blocks plain = record { type = "text"; id = ""; tool_use_id = "" } ∷ []
decode_claude_content_blocks unreadable = []
decode_claude_content_blocks (blocks bs) = bs

pub record ClaudeMessage : Type 0 where
  pub id : String
  pub content : Content

-- A line; its message is missing where it is null or does not decode.
pub record ClaudeLine : Type 0 where
  pub type : String
  pub message : Option ClaudeMessage

unfoldable pub assistant_line : ClaudeSpanExtractor → ClaudeMessage → Record → ClaudeSpanExtractor
unfolding assistant_span assistant_blocks decode_claude_content_blocks
assistant_line x m r =
    let msg_id = trim_space m.id in
    let (y, i) = assistant_span x msg_id r in
    assistant_blocks y i (span_key_for_assistant msg_id r.start)
      (decode_claude_content_blocks m.content)

unfoldable pub push_visible : Bool → ClaudeSpanExtractor → Record → ClaudeSpanExtractor
push_visible false x r = x
push_visible true x r = record x {
  spans = x.spans ++ (new_span x.ordinal r ∷ []);
  ordinal = x.ordinal + 1;
}

unfoldable pub user_line : ClaudeSpanExtractor → ClaudeMessage → Record → ClaudeSpanExtractor
unfolding user_blocks push_visible has_visible decode_claude_content_blocks
user_line x m r =
    let bs = decode_claude_content_blocks m.content in
    push_visible (has_visible bs) (user_blocks x bs r) r

unfoldable pub process_message :
    String → ClaudeSpanExtractor → Option ClaudeMessage → Record → ClaudeSpanExtractor
unfolding assistant_line user_line
process_message type x none r = x
process_message type x (some m) r =
    if str_eq type "assistant" then assistant_line x m r else user_line x m r

unfoldable pub process_line : ClaudeSpanExtractor → Option ClaudeLine → Record → ClaudeSpanExtractor
unfolding process_message
process_line x none r = x
process_line x (some l) r =
    if str_eq l.type "user" || str_eq l.type "assistant"
    then process_message l.type x l.message r
    else x

module _ (unmarshal : List ℕ → Option ClaudeLine) where
  unfoldable pub process_lines : ClaudeSpanExtractor → List Record → ClaudeSpanExtractor
  unfolding process_line
  process_lines x [] = x
  process_lines x (r ∷ rs) = process_lines (process_line x (unmarshal r.bytes) r) rs

  -- The spans of a whole transcript; `Finish` does nothing.
  unfoldable pub claude_spans : List ℕ → List LogicalMessageSpan
  unfolding process_lines scan_transcript
  claude_spans text = (process_lines new_claude_extractor (scan_transcript text)).spans
