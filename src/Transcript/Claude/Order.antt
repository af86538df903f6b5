-- ===== src/Transcript/Claude/Order.antt =====
-- The spans of the Claude extractor of transcriptindex/extractor.go are in order.
use mathlib.Core.Path.{subst}
use cccode_macbridge.Base.{
  ℕ, zero, suc, ◌+◌, ◌≤◌, ◌<◌, ◌≡◌, refl, String, Bool, true, false, ◌||◌, inl, inr, Option, none,
  some, List, [], ◌∷◌, ◌++◌, arith, if◌then◌else◌, str_eq, length, Bool-cases,
}
use cccode_macbridge.Base.Dict.{
  Dict, get, put, remove, IsMap, put-IsMap, remove-IsMap, Every, empty-Every, put-Every,
  remove-Every,
}
use cccode_macbridge.Base.Text.{trim_space}
use cccode_macbridge.Transcript.{LogicalMessageSpan}
use cccode_macbridge.Transcript.Scan.{Record, scan_transcript}
use cccode_macbridge.Transcript.Scan.Tiles.{Follows, scan_transcript-Follows}
use cccode_macbridge.Transcript.Spans.{Ordered, Ordered-raise, Ordered-append}
use cccode_macbridge.Transcript.Codex.{new_span, extend, open_one, close_one}
use cccode_macbridge.Transcript.Claude.{
  ClaudeSpanExtractor, new_claude_extractor, update_at, write, span_key_for_assistant,
  assistant_span_of, assistant_span, ClaudeContentBlock, settle_pending, use_tool, assistant_blocks,
  credit, tool_result_of, tool_result, user_blocks, has_visible, decode_claude_content_blocks,
  ClaudeMessage, ClaudeLine, assistant_line, push_visible, user_line, process_message, process_line,
  process_lines, claude_spans,
}

-- A change of a span that only moves its end, to at most `high`.
abbrev Grows : ℕ → (LogicalMessageSpan → LogicalMessageSpan) → Type 0
Grows high f =
    (s : LogicalMessageSpan)
    → s.end_offset ≤ high
    → ((f s).ordinal ≡ s.ordinal)
      × ((f s).replay_start ≡ s.replay_start)
      × (s.end_offset ≤ (f s).end_offset)
      × ((f s).end_offset ≤ high)

extend-Grows : (end high : ℕ) → end ≤ high → Grows high (extend end)
extend-Grows end high h s k = (refl, refl, ground arith, ground arith)

open_one-Grows : (high : ℕ) → Grows high open_one
open_one-Grows high s k = (refl, refl, omega arith, k)

close_one-Grows : (end high : ℕ) → end ≤ high → Grows high (λ s. close_one (extend end s))
close_one-Grows end high h s k = (refl, refl, ground arith, ground arith)

Ordered-update_at :
    (i : ℕ) (f : LogicalMessageSpan → LogicalMessageSpan) (first low next last high : ℕ)
    (ss : List LogicalMessageSpan)
    → Grows high f
    → Ordered first low ss next last high
    → Ordered first low (update_at i f ss) next last high
Ordered-update_at i f first low next last high [] g o = o
Ordered-update_at zero f first low next last high (s ∷ ss) g (p, q, r, u, o) =
    let (a, b, c, d) = g s u in
    (omega (arith, a, p), omega (arith, b, q), omega (arith, b, c, r), d, rw b o)
Ordered-update_at (suc i) f first low next last high (s ∷ ss) g (p, q, r, u, o) =
    (p, q, r, u, Ordered-update_at i f (first + 1) s.replay_start next last high ss g o)

-- The spans are in order, and a stashed result ends by `high`.
record IsOrdered (last high : ℕ) (x : ClaudeSpanExtractor) : Type 0 where
  ordered : Ordered 0 0 x.spans x.ordinal last high
  is_map : IsMap x.pending
  stashed : Every (λ _ end. end ≤ high) x.pending

module _ (r : Record) (valid : r.start < r.end) where
  abbrev Fits : ClaudeSpanExtractor → Type 0
  Fits x = IsOrdered r.start r.end x

  write-Fits :
      (i : ℕ) (f : LogicalMessageSpan → LogicalMessageSpan) (x : ClaudeSpanExtractor)
      → Grows r.end f
      → Fits x
      → Fits (write i f x)
  write-Fits i f x g v = record {
    ordered = Ordered-update_at i f 0 0 x.ordinal r.start r.end x.spans g v.ordered;
    is_map = v.is_map;
    stashed = v.stashed;
  }

  push-Fits :
      (x : ClaudeSpanExtractor) (s : LogicalMessageSpan) (d : Dict ℕ)
      → s.ordinal ≡ x.ordinal
      → s.replay_start ≡ r.start
      → s.end_offset ≡ r.end
      → Fits x
      → Fits (record x { spans = x.spans ++ (s ∷ []); by_assistant = d; ordinal = x.ordinal + 1 })
  push-Fits x s d a b c v = record {
    ordered =
        subst (λ l. Ordered 0 0 (x.spans ++ (s ∷ [])) (x.ordinal + 1) l r.end) b
          (Ordered-append 0 0 x.ordinal r.start r.end x.spans s v.ordered a (omega (arith, b))
            (omega (arith, b, c, valid)) (omega (arith, c)));
    is_map = v.is_map;
    stashed = v.stashed;
  }

  assistant_span_of-Fits :
      (o : Option ℕ) (x : ClaudeSpanExtractor) (key msg_id : String)
      → Fits x
      → Fits (assistant_span_of o x key msg_id r).0
  unfolding assistant_span_of
  assistant_span_of-Fits (some i) x key msg_id v =
      write-Fits i (extend r.end) x (extend-Grows r.end r.end (omega arith)) v
  assistant_span_of-Fits none x key msg_id v =
      push-Fits x (record (new_span x.ordinal r) { stable_id = msg_id })
        (put key (length x.spans) x.by_assistant) refl refl refl v

  settle_pending-Fits :
      (o : Option ℕ) (x : ClaudeSpanExtractor) (i : ℕ) (id : String)
      → get id x.pending ≡ o
      → Fits x
      → Fits (settle_pending o x i id)
  unfolding settle_pending
  settle_pending-Fits none x i id e v = v
  settle_pending-Fits (some end) x i id e v =
      write-Fits i (λ s. close_one (extend end s)) (record x { pending = remove id x.pending })
        (close_one-Grows end r.end (v.stashed id end e))
        (record {
          ordered = v.ordered;
          is_map = remove-IsMap id x.pending v.is_map;
          stashed = remove-Every _ id x.pending v.is_map v.stashed;
        })

  use_tool-Fits :
      (x : ClaudeSpanExtractor) (i : ℕ) (owner id : String) → Fits x → Fits (use_tool x i owner id)
  unfolding use_tool
  use_tool-Fits x i owner id v =
      let w = write-Fits i open_one x (open_one-Grows r.end) v in
      elim (Bool-cases (str_eq id "")) [
        | inl nameless ↦ rw nameless w
        | inr named ↦ rw named (
            settle_pending-Fits (get id x.pending)
              (record (write i open_one x) { tool_owner = put id owner x.tool_owner }) i id refl
              (record { ordered = w.ordered; is_map = w.is_map; stashed = w.stashed }))
      ]

  assistant_block-Fits :
      (b : Bool) (x y : ClaudeSpanExtractor) → Fits x → Fits y → Fits (if b then x else y)
  assistant_block-Fits true x y v w = v
  assistant_block-Fits false x y v w = w

  assistant_blocks-Fits :
      (x : ClaudeSpanExtractor) (i : ℕ) (owner : String) (bs : List ClaudeContentBlock)
      → Fits x
      → Fits (assistant_blocks x i owner bs)
  unfolding assistant_blocks
  assistant_blocks-Fits x i owner [] v = v
  assistant_blocks-Fits x i owner (b ∷ bs) v =
      assistant_blocks-Fits
        (if str_eq b.type "tool_use" then use_tool x i owner (trim_space b.id) else x) i owner bs
        (assistant_block-Fits (str_eq b.type "tool_use") (use_tool x i owner (trim_space b.id)) x
          (use_tool-Fits x i owner (trim_space b.id) v) v)

  credit-Fits : (o : Option ℕ) (x : ClaudeSpanExtractor) → Fits x → Fits (credit o x r)
  unfolding credit
  credit-Fits none x v = v
  credit-Fits (some i) x v =
      write-Fits i (λ s. close_one (extend r.end s)) x (close_one-Grows r.end r.end (omega arith)) v

  tool_result_of-Fits :
      (o : Option String) (x : ClaudeSpanExtractor) (id : String)
      → Fits x
      → Fits (tool_result_of o x id r)
  unfolding tool_result_of
  tool_result_of-Fits none x id v = record {
    ordered = v.ordered;
    is_map = put-IsMap id r.end x.pending v.is_map;
    stashed = put-Every (λ _ end. end ≤ r.end) id r.end x.pending (omega arith) v.stashed;
  }
  tool_result_of-Fits (some owner) x id v = credit-Fits (get owner x.by_assistant) x v

  tool_result-Fits : (x : ClaudeSpanExtractor) (id : String) → Fits x → Fits (tool_result x id r)
  unfolding tool_result
  tool_result-Fits x id v =
      assistant_block-Fits (str_eq id "") x (tool_result_of (get id x.tool_owner) x id r) v
        (tool_result_of-Fits (get id x.tool_owner) x id v)

  user_blocks-Fits :
      (x : ClaudeSpanExtractor) (bs : List ClaudeContentBlock) → Fits x → Fits (user_blocks x bs r)
  unfolding user_blocks
  user_blocks-Fits x [] v = v
  user_blocks-Fits x (b ∷ bs) v =
      user_blocks-Fits
        (if str_eq b.type "tool_result" then tool_result x (trim_space b.tool_use_id) r else x) bs
        (assistant_block-Fits (str_eq b.type "tool_result")
          (tool_result x (trim_space b.tool_use_id) r) x
          (tool_result-Fits x (trim_space b.tool_use_id) v) v)

  push_visible-Fits : (b : Bool) (x : ClaudeSpanExtractor) → Fits x → Fits (push_visible b x r)
  unfolding push_visible
  push_visible-Fits false x v = v
  push_visible-Fits true x v = push-Fits x (new_span x.ordinal r) x.by_assistant refl refl refl v

  assistant_line-Fits :
      (x : ClaudeSpanExtractor) (m : ClaudeMessage) → Fits x → Fits (assistant_line x m r)
  unfolding assistant_line assistant_span
  assistant_line-Fits x m v =
      let key = span_key_for_assistant (trim_space m.id) r.start in
      let found = assistant_span_of (get key x.by_assistant) x key (trim_space m.id) r in
      assistant_blocks-Fits found.0 found.1 key (decode_claude_content_blocks m.content)
        (assistant_span_of-Fits (get key x.by_assistant) x key (trim_space m.id) v)

  user_line-Fits : (x : ClaudeSpanExtractor) (m : ClaudeMessage) → Fits x → Fits (user_line x m r)
  unfolding user_line
  user_line-Fits x m v =
      let bs = decode_claude_content_blocks m.content in
      push_visible-Fits (has_visible bs) (user_blocks x bs r) (user_blocks-Fits x bs v)

  process_message-Fits :
      (type : String) (x : ClaudeSpanExtractor) (o : Option ClaudeMessage)
      → Fits x
      → Fits (process_message type x o r)
  unfolding process_message
  process_message-Fits type x none v = v
  process_message-Fits type x (some m) v =
      assistant_block-Fits (str_eq type "assistant") (assistant_line x m r) (user_line x m r)
        (assistant_line-Fits x m v) (user_line-Fits x m v)

  process_line-Fits :
      (x : ClaudeSpanExtractor) (o : Option ClaudeLine) → Fits x → Fits (process_line x o r)
  unfolding process_line
  process_line-Fits x none v = v
  process_line-Fits x (some l) v =
      assistant_block-Fits (str_eq l.type "user" || str_eq l.type "assistant")
        (process_message l.type x l.message r) x (process_message-Fits l.type x l.message v) v

IsOrdered-raise :
    (last last' high high' : ℕ) (x : ClaudeSpanExtractor)
    → last ≤ last'
    → high ≤ high'
    → IsOrdered last high x
    → IsOrdered last' high' x
IsOrdered-raise last last' high high' x h k v = record {
  ordered = Ordered-raise 0 0 x.ordinal last last' high high' x.spans h k v.ordered;
  is_map = v.is_map;
  stashed = λ id end e. omega (arith, v.stashed id end e);
}

module _ (unmarshal : List ℕ → Option ClaudeLine) where
  process_lines-IsOrdered :
      (low high : ℕ) (x : ClaudeSpanExtractor) (rs : List Record)
      → IsOrdered low low x
      → Follows low rs high
      → IsOrdered high high (process_lines unmarshal x rs)
  unfolding process_lines
  process_lines-IsOrdered low high x [] v f = IsOrdered-raise low high low high x f f v
  process_lines-IsOrdered low high x (r ∷ rs) v (after, valid, f) =
      let y = process_line x (unmarshal r.bytes) r in
      process_lines-IsOrdered r.end high y rs
        (IsOrdered-raise r.start r.end r.end r.end y (omega arith) (omega arith) (
          process_line-Fits r valid x (unmarshal r.bytes)
            (IsOrdered-raise low r.start low r.end x (omega arith) (omega arith) v)))
        f

  -- The spans of a Claude transcript, whatever its lines decode to: their ordinals count from 0, in
  -- order; their starts do not descend; and each ends behind its start and within the file.
  pub claude_spans-Ordered :
      (text : List ℕ)
      → (n : ℕ) × Ordered 0 0 (claude_spans unmarshal text) n (length text) (length text)
  unfolding claude_spans
  claude_spans-Ordered text =
      let v =
        process_lines-IsOrdered 0 (length text) new_claude_extractor (scan_transcript text)
          (record { ordered = (refl, omega arith); is_map = tt; stashed = empty-Every _ })
          (scan_transcript-Follows text) in
      ((process_lines unmarshal new_claude_extractor (scan_transcript text)).ordinal, v.ordered)
