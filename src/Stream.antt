-- ===== src/Stream.antt =====
-- The reading of a completion stream: the loops of generateOpenAI in
-- internal/manager/adapter_llama_server.go and of Generate in
-- internal/manager/adapter_llama_subprocess.go. Lines of the form "data: <json>" carry the tokens.
pub mod Tokens
pub mod Payloads
pub mod Agreement
use modeld_go.Common.{
  ℕ, Bool, true, false, ◌&&◌, not, Option, none, some, List, [], ◌∷◌, Text, codes, text_eq,
  is_empty, trim_space, to_lower, has_prefix, drop, if◌then◌else◌, ◌+◌, ltb, leb,
}
use modeld_go.Errors.{Error, plain, Result, ok, err}

-- What encoding/json gives for a payload: the content and the finish reason of the first choice, if the
-- payload decodes and has one; and the "content" of a plain object, if that is a text.
pub record Decoder : Type 0 where
  pub choice : Text → Option (Text × Text)
  pub content : Text → Option Text

-- What a reader of lines gives: lines with their end, the rest before the stream ends, and the error at
-- its end (`none` is io.EOF). A reader that has ended gives the same end again.
pub record Lines : Type 0 where
  pub lines : List Text
  pub rest : Text
  pub ending : Option Error

-- The callback that takes a token, with the state behind it.
abbrev pub OnToken : Type 0 → Type 0
OnToken S = Text → S → S × Option Error

-- How a line leaves the loop, with the finish reason so far.
pub data Turn : Type 0 where
  go_on : Text → Turn
  stop : Text → Turn
  fail : Error → Text → Turn

-- The payload of a data line, after `strings.TrimSpace`.
unfoldable pub payload : Text → Option Text
payload line =
    let l = trim_space line in
    if not (is_empty l) && has_prefix (to_lower l) (codes "data:")
    then some (trim_space (drop 5 l))
    else none

abbrev pub done_mark : Text
done_mark = codes "[DONE]"

-- The callback has been called: its error ends the loop.
abbrev pub called : {S : Type 0} → Text → Text → S × Option Error → S × Turn
called old new (s, some e) = (s, fail e old)
called old new (s, none) = (s, go_on new)

-- `if fr != "" { final.FinishReason = fr }`
abbrev pub finish_with : Text → Text → Text
finish_with finish reason = if is_empty finish then reason else finish

module _ {S : Type 0} (on_token : OnToken S) where
  -- A token, unless it is empty, and then the finish reason, unless that is empty.
  unfoldable pub deliver : Text → Text → Text → S → S × Turn
  deliver fragment finish reason s =
      if is_empty fragment
      then (s, go_on (finish_with finish reason))
      else called reason (finish_with finish reason) (on_token fragment s)

  -- A payload that is no list of choices, for the server adapter: perhaps a plain object.
  unfoldable pub deliver_plain : Option Text → Text → S → S × Turn
  deliver_plain none reason s = (s, go_on reason)
  deliver_plain (some token) reason s =
      if is_empty token then (s, go_on reason) else called reason reason (on_token token s)

  unfoldable pub server_payload : Decoder → Text → Text → S → S × Turn
  server_payload d p reason s = elim (text_eq p done_mark) [
    | true ↦ (s, stop reason)
    | false ↦ elim (d.choice p) [
      | some (fragment, finish) ↦ deliver fragment finish reason s
      | none ↦ deliver_plain (d.content p) reason s
    ]
  ]

  unfoldable pub subprocess_payload : Decoder → Text → Text → S → S × Turn
  subprocess_payload d p reason s = elim (text_eq p done_mark) [
    | true ↦ (s, stop reason)
    | false ↦ elim (d.choice p) [
      | some (fragment, finish) ↦ deliver fragment finish reason s
      | none ↦ (s, go_on reason)
    ]
  ]

-- One line, for a way to take payloads.
abbrev pub taken : {S : Type 0} → (Text → Text → S → S × Turn) → Option Text → Text → S → S × Turn
taken take none reason s = (s, go_on reason)
taken take (some p) reason s = take p reason s

unfoldable pub take_line : {S : Type 0} → (Text → Text → S → S × Turn) → Text → Text → S → S × Turn
take_line take line reason s = taken take (payload line) reason s

-- The end of the loop: the finish reason, with an error or without.
abbrev pub Ended : Type 0 → Type 0
Ended S = S × Text × Option Error

-- The stream has ended: with io.EOF, or with an error, in whose place that of the context goes.
abbrev pub at_end : {S : Type 0} → Option Error → Option Error → S × Turn → Ended S
at_end ctx ending (s, stop reason) = (s, reason, none)
at_end ctx ending (s, fail e reason) = (s, reason, some e)
at_end ctx none (s, go_on reason) = (s, reason, none)
at_end none (some e) (s, go_on reason) = (s, reason, some e)
at_end (some c) (some e) (s, go_on reason) = (s, reason, some c)

-- A line has been taken: the next ones follow, or the loop is left.
abbrev pub next_line : {S : Type 0} → (Text → S → Ended S) → S × Turn → Ended S
next_line next (s, go_on reason) = next reason s
next_line next (s, stop reason) = (s, reason, none)
next_line next (s, fail e reason) = (s, reason, some e)

module _ {S : Type 0} (take : Text → Text → S → S × Turn) (ctx : Option Error) where
  -- The loop over the lines, with the finish reason so far. `ctx` is ctx.Err() if the stream ends with
  -- an error.
  unfoldable pub read_lines : List Text → Text → Option Error → Text → S → Ended S
  unfolding take_line
  read_lines [] rest ending reason s = at_end ctx ending (take_line take rest reason s)
  read_lines (line ∷ lines) rest ending reason s =
      next_line (read_lines lines rest ending) (take_line take line reason s)

-- The two adapters' readings of a whole stream.
unfoldable pub server_read : {S : Type 0} → OnToken S → Decoder → Option Error → Lines → S → Ended S
unfolding read_lines
server_read on_token d ctx l s =
    read_lines (server_payload on_token d) ctx l.lines l.rest l.ending [] s

unfoldable pub subprocess_read :
    {S : Type 0} → OnToken S → Decoder → Option Error → Lines → S → Ended S
unfolding read_lines
subprocess_read on_token d ctx l s =
    read_lines (subprocess_payload on_token d) ctx l.lines l.rest l.ending [] s
