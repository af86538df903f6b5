-- ===== src/Transcript/Codex/Order.antt =====
-- The spans of the Codex extractor of transcriptindex/extractor.go are in order.
use cccode_macbridge.Base.{
  ℕ, zero, suc, ◌+◌, ◌≤◌, ◌<◌, ◌≡◌, refl, Option, none, some, List, [], ◌∷◌, ◌++◌, arith, length,
}
use cccode_macbridge.Transcript.{LogicalMessageSpan}
use cccode_macbridge.Transcript.Scan.{Record, scan_transcript}
use cccode_macbridge.Transcript.Scan.Tiles.{Follows, scan_transcript-Follows}
use cccode_macbridge.Transcript.Spans.{Ordered, Ordered-raise, Ordered-append, Ordered-last}
use cccode_macbridge.Transcript.Codex.{
  CodexSpanExtractor, new_codex_extractor, new_span, extend, ensure_current_of, ensure_current,
  flush_of, flush, push_user, emit_user, close_one, close_tool_of, close_tool, open_one,
  open_current, open_tool, Envelope, Action, ignore, extends, opens, closes, prompts, line_action,
  emit_users, act, process, process_all, codex_spans,
}

-- The finished spans and the open one.
abbrev all_spans : Option LogicalMessageSpan → List LogicalMessageSpan → List LogicalMessageSpan
all_spans none ss = ss
all_spans (some s) ss = ss ++ (s ∷ [])

-- All spans have the ordinals below the next one, start by `last` and end by `high`.
abbrev IsOrdered : ℕ → ℕ → CodexSpanExtractor → Type 0
IsOrdered last high x = Ordered 0 0 (all_spans x.current x.spans) x.ordinal last high

extend-le : (end : ℕ) (s : LogicalMessageSpan) → s.end_offset ≤ (extend end s).end_offset
extend-le end s = ground arith

extend-high :
    (end high : ℕ) (s : LogicalMessageSpan)
    → end ≤ high
    → s.end_offset ≤ high
    → (extend end s).end_offset ≤ high
extend-high end high s h k = ground arith

-- What the order says of the last span.
Ordered-end :
    (first low next last high : ℕ) (ss : List LogicalMessageSpan) (s : LogicalMessageSpan)
    → Ordered first low (ss ++ (s ∷ [])) next last high
    → s.end_offset ≤ high
Ordered-end first low next last high [] s (p, q, r, u, o) = u
Ordered-end first low next last high (t ∷ ss) s (p, q, r, u, o) =
    Ordered-end (first + 1) t.replay_start next last high ss s o

module _ (r : Record) (valid : r.start < r.end) where
  abbrev Fits : CodexSpanExtractor → Type 0
  Fits x = IsOrdered r.start r.end x

  flush_of-Fits :
      (o : Option LogicalMessageSpan) (x : CodexSpanExtractor)
      → Ordered 0 0 (all_spans o x.spans) x.ordinal r.start r.end
      → x.current ≡ o
      → Fits (flush_of o x)
  unfolding flush_of
  flush_of-Fits none x h e = rw e h
  flush_of-Fits (some s) x h e = h

  flush_of-current :
      (o : Option LogicalMessageSpan) (x : CodexSpanExtractor)
      → x.current ≡ o
      → (flush_of o x).current ≡ none
  unfolding flush_of
  flush_of-current none x e = e
  flush_of-current (some s) x e = refl

  push_user-Fits : (x : CodexSpanExtractor) → x.current ≡ none → Fits x → Fits (push_user x r)
  unfolding push_user
  push_user-Fits x e h = rw e (
      Ordered-append 0 0 x.ordinal r.start r.end x.spans (new_span x.ordinal r) (rw e at h) refl
        (omega arith) valid (omega arith))

  emit_user-Fits : (x : CodexSpanExtractor) → Fits x → Fits (emit_user x r)
  unfolding emit_user flush
  emit_user-Fits x h =
      push_user-Fits (flush_of x.current x) (flush_of-current x.current x refl)
        (flush_of-Fits x.current x h refl)

  emit_users-Fits : (n : ℕ) (x : CodexSpanExtractor) → Fits x → Fits (emit_users n x r)
  unfolding emit_users
  emit_users-Fits zero x h = h
  emit_users-Fits (suc n) x h = emit_users-Fits n (emit_user x r) (emit_user-Fits x h)

  ensure_current_of-Fits :
      (o : Option LogicalMessageSpan) (x : CodexSpanExtractor)
      → Ordered 0 0 (all_spans o x.spans) x.ordinal r.start r.end
      → Fits (ensure_current_of o x r)
  unfolding ensure_current_of
  ensure_current_of-Fits none x h =
      Ordered-append 0 0 x.ordinal r.start r.end x.spans (new_span x.ordinal r) h refl (omega arith)
        valid (omega arith)
  ensure_current_of-Fits (some s) x h =
      Ordered-last 0 0 x.ordinal r.start r.end x.spans s (extend r.end s) h refl refl
        (extend-le r.end s)
        (extend-high r.end r.end s (omega arith)
          (Ordered-end 0 0 x.ordinal r.start r.end x.spans s h))

  open_current-Fits :
      (o : Option LogicalMessageSpan) (x : CodexSpanExtractor)
      → x.current ≡ o
      → Fits x
      → Fits (open_current o x)
  unfolding open_current
  open_current-Fits none x e h = h
  open_current-Fits (some s) x e h =
      let h' : Ordered 0 0 (x.spans ++ (s ∷ [])) x.ordinal r.start r.end = rw e at h in
      Ordered-last 0 0 x.ordinal r.start r.end x.spans s (open_one s) h' refl refl (omega arith)
        (Ordered-end 0 0 x.ordinal r.start r.end x.spans s h')

  close_tool_of-Fits :
      (o : Option LogicalMessageSpan) (x : CodexSpanExtractor)
      → x.current ≡ o
      → Fits x
      → Fits (close_tool_of o x r)
  unfolding close_tool_of
  close_tool_of-Fits none x e h = h
  close_tool_of-Fits (some s) x e h =
      let h' : Ordered 0 0 (x.spans ++ (s ∷ [])) x.ordinal r.start r.end = rw e at h in
      Ordered-last 0 0 x.ordinal r.start r.end x.spans s (close_one (extend r.end s)) h' refl refl
        (extend-le r.end s)
        (extend-high r.end r.end s (omega arith)
          (Ordered-end 0 0 x.ordinal r.start r.end x.spans s h'))

  act-Fits : (a : Action) (x : CodexSpanExtractor) → Fits x → Fits (act a x r)
  unfolding act ensure_current open_tool close_tool
  act-Fits ignore x h = h
  act-Fits extends x h = ensure_current_of-Fits x.current x h
  act-Fits opens x h =
      open_current-Fits (ensure_current_of x.current x r).current (ensure_current_of x.current x r)
        refl (ensure_current_of-Fits x.current x h)
  act-Fits closes x h = close_tool_of-Fits x.current x refl h
  act-Fits (prompts n) x h = emit_users-Fits n x h

module _ (unmarshal : List ℕ → Option Envelope) where
  process_all-IsOrdered :
      (low high : ℕ) (x : CodexSpanExtractor) (rs : List Record)
      → IsOrdered low low x
      → Follows low rs high
      → IsOrdered high high (process_all unmarshal x rs)
  unfolding process_all process
  process_all-IsOrdered low high x [] h f =
      Ordered-raise 0 0 x.ordinal low high low high (all_spans x.current x.spans) f f h
  process_all-IsOrdered low high x (r ∷ rs) h (after, valid, f) =
      let y = act (line_action (unmarshal r.bytes)) x r in
      process_all-IsOrdered r.end high y rs
        (Ordered-raise 0 0 y.ordinal r.start r.end r.end r.end (all_spans y.current y.spans)
          (omega arith) (omega arith)
          (act-Fits r valid (line_action (unmarshal r.bytes)) x (
            Ordered-raise 0 0 x.ordinal low r.start low r.end (all_spans x.current x.spans)
              (omega arith) (omega arith) h)))
        f

  flushed :
      (o : Option LogicalMessageSpan) (x : CodexSpanExtractor) (high : ℕ)
      → Ordered 0 0 (all_spans o x.spans) x.ordinal high high
      → Ordered 0 0 (flush_of o x).spans (flush_of o x).ordinal high high
  unfolding flush_of
  flushed none x high h = h
  flushed (some s) x high h = h

  -- The spans of a Codex transcript, whatever its lines decode to: their ordinals count from 0, in
  -- order; their starts do not descend; and each ends behind its start and within the file.
  pub codex_spans-Ordered :
      (text : List ℕ)
      → (n : ℕ) × Ordered 0 0 (codex_spans unmarshal text) n (length text) (length text)
  unfolding codex_spans flush
  codex_spans-Ordered text =
      let x = process_all unmarshal new_codex_extractor (scan_transcript text) in
      (
        (flush_of x.current x).ordinal,
        flushed x.current x (length text) (
            process_all-IsOrdered 0 (length text) new_codex_extractor (scan_transcript text)
              (refl, omega arith) (scan_transcript-Follows text)),
      )
