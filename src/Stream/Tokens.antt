-- ===== src/Stream/Tokens.antt =====
-- Which tokens a stream delivers, in order, and how it ends: the loop against a description of the
-- stream as a list of payloads (internal/manager/adapter_llama_subprocess.go).
use modeld_go.Common.{
  ◌≡◌, refl, Option, none, some, List, [], ◌∷◌, ◌++◌, append_assoc, append-nil, Text, text_eq,
  arith, Bool, true, false, is_empty, if◌then◌else◌,
}
use modeld_go.Errors.{Error}
use modeld_go.Stream.{
  Decoder, Lines, OnToken, go_on, stop, Ended, payload, done_mark, finish_with, deliver,
  subprocess_payload, taken, at_end, next_line, read_lines, subprocess_read,
}

-- The callback that keeps the tokens.
abbrev pub collect : OnToken (List Text)
collect t s = (s ++ t ∷ [], none)

abbrev pub put_option : Option Text → List Text → List Text
put_option none ps = ps
put_option (some p) ps = p ∷ ps

-- The payloads of the data lines.
abbrev pub payloads : List Text → List Text
payloads [] = []
payloads (l ∷ ls) = put_option (payload l) (payloads ls)

-- The payloads before the done mark, and whether there is one.
abbrev pub frames : List Text → List Text
frames [] = []
frames (p ∷ ps) = let rest = frames ps in if text_eq p done_mark then [] else p ∷ rest

abbrev pub marked : List Text → Bool
marked [] = false
marked (p ∷ ps) = let rest = marked ps in if text_eq p done_mark then true else rest

abbrev pub token_of : Decoder → Text → List Text
token_of d p = elim (d.choice p) [
  | none ↦ []
  | some (fragment, finish) ↦ if is_empty fragment then [] else fragment ∷ []
]

-- The contents that are not empty, in order.
abbrev pub tokens : Decoder → List Text → List Text
tokens d [] = []
tokens d (p ∷ ps) = token_of d p ++ tokens d ps

abbrev pub reason_of : Decoder → Text → Text → Text
reason_of d p reason = elim (d.choice p) [
  | none ↦ reason
  | some (fragment, finish) ↦ finish_with finish reason
]

-- The last finish reason that is not empty.
abbrev pub last_reason : Decoder → Text → List Text → Text
last_reason d reason [] = reason
last_reason d reason (p ∷ ps) = last_reason d (reason_of d p reason) ps

abbrev pub end_error : Option Error → Option Error → Option Error
end_error ctx none = none
end_error none (some e) = some e
end_error (some c) (some e) = some c

-- What the payloads say of the whole.
abbrev pub expected : Decoder → Option Error → List Text → List Text → Text → Ended (List Text)
expected d e ps s reason =
    (s ++ tokens d (frames ps), last_reason d reason (frames ps), if marked ps then none else e)

one_payload :
    (d : Decoder) (p reason : Text) (s : List Text)
    → subprocess_payload collect d p reason s ≡ (
        if text_eq p done_mark
        then (s, stop reason)
        else (s ++ token_of d p, go_on (reason_of d p reason)))
unfolding subprocess_payload deliver
one_payload d p reason s = ground (arith, append-nil s)

module _ (d : Decoder) (ctx : Option Error) where
  ending_lem :
      (ending : Option Error) (reason : Text) (s : List Text)
      → at_end ctx ending (s, go_on reason) ≡ (s, reason, end_error ctx ending)
  ending_lem none reason s = refl
  ending_lem (some e) reason s = ground arith

  -- After the last line.
  rest_lem :
      (ending : Option Error) (o : Option Text) (reason : Text) (s : List Text)
      → at_end ctx ending (taken (subprocess_payload collect d) o reason s)
        ≡ expected d (end_error ctx ending) (put_option o []) s reason
  rest_lem ending none reason s = ground (arith, ending_lem ending reason s, append-nil s)
  rest_lem ending (some p) reason s = ground (
    arith,
    one_payload d p reason s,
    ending_lem ending (reason_of d p reason) (s ++ token_of d p),
    append-nil s,
    append-nil (token_of d p),
  )

  module _ (ending : Option Error) (rest : Text) where
    -- A line before others, whose reading is known.
    line_lem :
        (ls ps : List Text) (o : Option Text) (reason : Text) (s : List Text)
        → ((reason' : Text) (s' : List Text)
            → read_lines (subprocess_payload collect d) ctx ls rest ending reason' s'
              ≡ expected d (end_error ctx ending) ps s' reason')
        → next_line
            (read_lines (subprocess_payload collect d) ctx ls rest ending)
            (taken (subprocess_payload collect d) o reason s)
          ≡ expected d (end_error ctx ending) (put_option o ps) s reason
    line_lem ls ps none reason s ih = ih reason s
    line_lem ls ps (some p) reason s ih = ground (
      arith,
      one_payload d p reason s,
      ih (reason_of d p reason) (s ++ token_of d p),
      append_assoc s (token_of d p) (tokens d (frames ps)),
      append-nil s,
    )

    read_lines-collect :
        (ls : List Text) (reason : Text) (s : List Text)
        → read_lines (subprocess_payload collect d) ctx ls rest ending reason s
          ≡ expected d (end_error ctx ending) (payloads (ls ++ rest ∷ [])) s reason
    unfolding read_lines
    read_lines-collect [] reason s = rest_lem ending (payload rest) reason s
    read_lines-collect (l ∷ ls) reason s =
        line_lem ls (payloads (ls ++ rest ∷ [])) (payload l) reason s (read_lines-collect ls)

-- A whole stream delivers, in order, the contents that are not empty of the payloads before the done
-- mark, with the last finish reason among them that is not empty. It ends with no error if there is a
-- done mark or the stream ends with io.EOF; else with the error of the context, or that of the stream.
pub subprocess_read_lem :
    (d : Decoder) (ctx : Option Error) (l : Lines)
    → subprocess_read collect d ctx l []
      ≡ expected d (end_error ctx l.ending) (payloads (l.lines ++ l.rest ∷ [])) [] []
unfolding subprocess_read
subprocess_read_lem d ctx l = read_lines-collect d ctx l.ending l.rest l.lines [] []
