-- ===== src/Transcript/Codex.antt =====
-- The Codex extractor of transcriptindex/extractor.go. What json.Unmarshal makes of a line is an
-- argument: nothing where it fails, and the fields that the extractor reads.
pub mod Order
use cccode_macbridge.Base.{
  ℕ, zero, suc, ◌+◌, ◌-◌, String, Bool, true, false, not, ◌&&◌, ◌||◌, Option, none, some, List, [],
  ◌∷◌, ◌++◌, ltb, leb, if◌then◌else◌, str_eq, length, keep,
}
use text.Mathlib.Text.{starts_with}
use cccode_macbridge.Base.Text.{trim_space, join}
use cccode_macbridge.Transcript.{LogicalMessageSpan}
use cccode_macbridge.Transcript.Scan.{Record, scan_transcript}

pub record CodexSpanExtractor : Type 0 where
  pub spans : List LogicalMessageSpan
  pub current : Option LogicalMessageSpan
  pub ordinal : ℕ

abbrev pub new_codex_extractor : CodexSpanExtractor
new_codex_extractor = record { spans = []; current = none; ordinal = 0 }

abbrev pub new_span : ℕ → Record → LogicalMessageSpan
new_span ordinal r = record {
  ordinal = ordinal;
  stable_id = "";
  replay_start = r.start;
  end_offset = r.end;
  open_tool_uses = 0;
}

-- if rec.End > s.EndOffset { s.EndOffset = rec.End }
abbrev pub extend : ℕ → LogicalMessageSpan → LogicalMessageSpan
extend end s = record s { end_offset = if ltb s.end_offset end then end else s.end_offset }

unfoldable pub ensure_current_of :
    Option LogicalMessageSpan → CodexSpanExtractor → Record → CodexSpanExtractor
ensure_current_of none x r = record x {
  current = some (new_span x.ordinal r);
  ordinal = x.ordinal + 1;
}
ensure_current_of (some s) x r = record x { current = some (extend r.end s) }

unfoldable pub ensure_current : CodexSpanExtractor → Record → CodexSpanExtractor
unfolding ensure_current_of
ensure_current x r = ensure_current_of x.current x r

unfoldable pub flush_of : Option LogicalMessageSpan → CodexSpanExtractor → CodexSpanExtractor
flush_of none x = x
flush_of (some s) x = record x { spans = x.spans ++ (s ∷ []); current = none }

unfoldable pub flush : CodexSpanExtractor → CodexSpanExtractor
unfolding flush_of
flush x = flush_of x.current x

unfoldable pub push_user : CodexSpanExtractor → Record → CodexSpanExtractor
push_user x r = record x { spans = x.spans ++ (new_span x.ordinal r ∷ []); ordinal = x.ordinal + 1 }

unfoldable pub emit_user : CodexSpanExtractor → Record → CodexSpanExtractor
unfolding flush push_user
emit_user x r = push_user (flush x) r

abbrev pub close_one : LogicalMessageSpan → LogicalMessageSpan
close_one s = record s { open_tool_uses = s.open_tool_uses - 1 }

unfoldable pub close_tool_of :
    Option LogicalMessageSpan → CodexSpanExtractor → Record → CodexSpanExtractor
close_tool_of none x r = x
close_tool_of (some s) x r = record x { current = some (close_one (extend r.end s)) }

unfoldable pub close_tool : CodexSpanExtractor → Record → CodexSpanExtractor
unfolding close_tool_of
close_tool x r = close_tool_of x.current x r

abbrev pub open_one : LogicalMessageSpan → LogicalMessageSpan
open_one s = record s { open_tool_uses = s.open_tool_uses + 1 }

-- x.ensureCurrent(rec); x.current.OpenToolUses++
unfoldable pub open_current : Option LogicalMessageSpan → CodexSpanExtractor → CodexSpanExtractor
open_current none x = x
open_current (some s) x = record x { current = some (open_one s) }

unfoldable pub open_tool : CodexSpanExtractor → Record → CodexSpanExtractor
unfolding open_current ensure_current
open_tool x r = open_current (ensure_current x r).current (ensure_current x r)

pub record ContentItem : Type 0 where
  pub type : String
  pub text : String

pub record CodexResponseItem : Type 0 where
  pub role : String
  pub type : String
  pub name : String
  pub text : String
  pub summary : List String
  pub content : List ContentItem

-- The payload of an event as a JSON object: its type, if that is a string, and that of the object
-- under "payload", if there is one.
pub record EventPayload : Type 0 where
  pub type : Option String
  pub nested : Option (Option String)

-- A line: its type, and its payload as an event and as a response item, where these decode.
pub record Envelope : Type 0 where
  pub type : String
  pub event : Option EventPayload
  pub item : Option CodexResponseItem

unfoldable pub codex_is_user_prompt : String → Bool
unfolding trim_space
codex_is_user_prompt text =
    let t = trim_space text in
    not (str_eq t "")
    && not (starts_with t "<")
    && not (starts_with t "# AGENTS.md" || starts_with t "#AGENTS.md")

unfoldable pub is_patch_apply_end : Option String → Bool
unfolding trim_space
is_patch_apply_end none = false
is_patch_apply_end (some type) = str_eq (trim_space type) "patch_apply_end"

unfoldable pub codex_event_is_patch_apply_end : Option EventPayload → Bool
unfolding is_patch_apply_end
codex_event_is_patch_apply_end none = false
codex_event_is_patch_apply_end (some p) = elim p.nested [
  | none ↦ is_patch_apply_end p.type
  | some type ↦ is_patch_apply_end type
]

abbrev pub is_prompt : ContentItem → Bool
unfolding codex_is_user_prompt
is_prompt c = str_eq c.type "input_text" && not (str_eq c.text "") && codex_is_user_prompt c.text

abbrev pub is_output : ContentItem → Bool
is_output c = str_eq c.type "output_text" && not (str_eq c.text "")

abbrev pub is_none_left : List ContentItem → Bool
is_none_left cs = leb (length cs) 0

unfoldable pub reasoning_text : CodexResponseItem → String
unfolding join
reasoning_text item =
    if str_eq item.text "" && not (leb (length item.summary) 0)
    then join item.summary "\n"
    else item.text

-- What a line does to the extractor: `prompts n` emits `n` user spans.
pub data Action : Type 0 where
  ignore extends opens closes : Action
  prompts : ℕ → Action

-- The switch of `Process` on a response item.
unfoldable pub item_action : CodexResponseItem → Action
unfolding reasoning_text codex_is_user_prompt
item_action item =
    if str_eq item.role "user" && not (is_none_left item.content)
    then prompts (length (keep is_prompt item.content))
    else (if str_eq item.role "assistant" && (str_eq item.type "" || str_eq item.type "message")
        then (if is_none_left (keep is_output item.content) then ignore else extends)
        else (if str_eq item.type "reasoning"
            then (if str_eq (reasoning_text item) "" then ignore else extends)
            else (if str_eq item.type "function_call" && str_eq item.name "update_plan"
                then ignore
                else (if str_eq item.type "function_call" || str_eq item.type "command_execution"
                    then opens
                    else (if str_eq item.type "function_call_output"
                        then closes
                        else (if str_eq item.type "custom_tool_call"
                              && str_eq item.name "apply_patch"
                            then opens
                            else (if str_eq item.type "custom_tool_call_output"
                                then closes
                                else ignore)))))))

unfoldable pub item_action? : Option CodexResponseItem → Action
unfolding item_action
item_action? none = ignore
item_action? (some item) = item_action item

unfoldable pub line_action : Option Envelope → Action
unfolding codex_event_is_patch_apply_end item_action?
line_action none = ignore
line_action (some e) =
    if str_eq e.type "event_msg"
    then (if codex_event_is_patch_apply_end e.event then closes else ignore)
    else (if str_eq e.type "response_item" then item_action? e.item else ignore)

unfoldable pub emit_users : ℕ → CodexSpanExtractor → Record → CodexSpanExtractor
unfolding emit_user
emit_users zero x r = x
emit_users (suc n) x r = emit_users n (emit_user x r) r

unfoldable pub act : Action → CodexSpanExtractor → Record → CodexSpanExtractor
unfolding emit_users ensure_current open_tool close_tool
act ignore x r = x
act extends x r = ensure_current x r
act opens x r = open_tool x r
act closes x r = close_tool x r
act (prompts n) x r = emit_users n x r

module _ (unmarshal : List ℕ → Option Envelope) where
  unfoldable pub process : CodexSpanExtractor → Record → CodexSpanExtractor
  unfolding act line_action
  process x r = act (line_action (unmarshal r.bytes)) x r

  unfoldable pub process_all : CodexSpanExtractor → List Record → CodexSpanExtractor
  unfolding process
  process_all x [] = x
  process_all x (r ∷ rs) = process_all (process x r) rs

  -- The spans of a whole transcript: every record, `Finish`, `Spans`.
  unfoldable pub codex_spans : List ℕ → List LogicalMessageSpan
  unfolding process_all flush scan_transcript
  codex_spans text = (flush (process_all new_codex_extractor (scan_transcript text))).spans
