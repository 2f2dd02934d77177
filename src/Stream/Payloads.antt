-- ===== src/Stream/Payloads.antt =====
-- How one payload is taken, and what it adds to the description of a stream
-- (internal/manager/adapter_llama_subprocess.go).
use modeld_go.Common.{
  ◌≡◌, refl, true, false, Option, none, some, List, [], ◌∷◌, Text, text_eq, is_empty, arith,
}
use modeld_go.Errors.{Error}
use modeld_go.Stream.{
  Decoder, Turn, go_on, stop, fail, done_mark, called, finish_with, deliver, subprocess_payload,
  at_end, next_line,
}
use modeld_go.Stream.Tokens.{frames, token_of, reason_of, end_error}

-- The end of the stream as a line that is followed by nothing.
pub end_line :
    {S : Type 0} (ctx ending : Option Error) (x : S × Turn)
    → at_end ctx ending x ≡ next_line (λ reason. λ s. (s, reason, end_error ctx ending)) x
end_line ctx none (s, go_on reason) = refl
end_line none (some e) (s, go_on reason) = refl
end_line (some c) (some e) (s, go_on reason) = refl
end_line ctx none (s, stop reason) = refl
end_line none (some e) (s, stop reason) = refl
end_line (some c) (some e) (s, stop reason) = refl
end_line ctx none (s, fail e reason) = refl
end_line none (some x) (s, fail e reason) = refl
end_line (some c) (some x) (s, fail e reason) = refl

-- How each kind of payload is taken, and what it adds to the description of the stream.
module _ {S : Type 0} (cb : Text → S → S × Option Error) (d : Decoder) (p reason : Text)
    (s : S) where
  pub take_done : text_eq p done_mark ≡ true → subprocess_payload cb d p reason s ≡ (s, stop reason)
  unfolding subprocess_payload
  take_done mark = ground arith

  pub take_other :
      text_eq p done_mark ≡ false
      → d.choice p ≡ none
      → subprocess_payload cb d p reason s ≡ (s, go_on reason)
  unfolding subprocess_payload
  take_other mark q = ground arith

  pub take_empty :
      (t finish : Text)
      → text_eq p done_mark ≡ false
      → d.choice p ≡ some (t, finish)
      → is_empty t ≡ true
      → subprocess_payload cb d p reason s ≡ (s, go_on (finish_with finish reason))
  unfolding subprocess_payload deliver
  take_empty t finish mark q blank = ground arith

  pub take_token :
      (t finish : Text)
      → text_eq p done_mark ≡ false
      → d.choice p ≡ some (t, finish)
      → is_empty t ≡ false
      → subprocess_payload cb d p reason s ≡ called reason (finish_with finish reason) (cb t s)
  unfolding subprocess_payload deliver
  take_token t finish mark q given = ground arith

module _ (p : Text) (ps : List Text) where
  pub frames_done : text_eq p done_mark ≡ true → frames (p ∷ ps) ≡ []
  frames_done mark = ground arith

  pub frames_on : text_eq p done_mark ≡ false → frames (p ∷ ps) ≡ p ∷ frames ps
  frames_on mark = ground arith

module _ (d : Decoder) (p reason t finish : Text) where
  pub adds_nothing : d.choice p ≡ none → (token_of d p ≡ []) × (reason_of d p reason ≡ reason)
  adds_nothing q = ground arith

  pub adds_reason :
      d.choice p ≡ some (t, finish)
      → is_empty t ≡ true
      → (token_of d p ≡ []) × (reason_of d p reason ≡ finish_with finish reason)
  adds_reason q blank = ground arith

  pub adds_token :
      d.choice p ≡ some (t, finish)
      → is_empty t ≡ false
      → (token_of d p ≡ t ∷ []) × (reason_of d p reason ≡ finish_with finish reason)
  adds_token q given = ground arith
