-- ===== src/Generate/Reading.antt =====
-- A completion stream that is read while Infer streams: what has been written, line after line
-- (internal/manager/adapter_llama_subprocess.go and inference.go).
use modeld_go.Common.{
  ◌≡◌, ◌∙◌, refl, sym, ap, false, Option, none, some, List, [], ◌∷◌, ◌++◌, append-nil, Text,
  text_eq, is_empty, Bool-cases, inl, inr,
}
use modeld_go.Errors.{Error}
use modeld_go.Stream.{
  Decoder, Ended, payload, done_mark, called, finish_with, subprocess_payload, taken, next_line,
  read_lines,
}
use modeld_go.Stream.Tokens.{
  put_option, payloads, frames, tokens, token_of, last_reason, reason_of, end_error,
}
use modeld_go.Stream.Payloads.{
  end_line, take_done, take_other, take_empty, take_token, frames_done, frames_on, adds_nothing,
  adds_reason, adds_token,
}
use modeld_go.Output.{Outcome, value, panicked, safe_flush}
use modeld_go.Output.Writing.{Wrote}
use modeld_go.Infer.{Sink, InferEnv, on_tok}
use modeld_go.Infer.Document.{Fed, Told}
use modeld_go.Infer.Streaming.{on_tok-Told, after_tok-Fed}
use modeld_go.Generate.{Heard, noted, final_of, guarded, closed}

module _ {W : Type 0} (env : InferEnv W) (text : W → Text)
    (contract : (p : Text) (w : W) → Wrote text p w (env.write p w))
    (flush_keeps : (w : W) → text (safe_flush env.flush w) ≡ text w) (d : Decoder) where
  -- What has been written for some tokens and a finish reason.
  unfoldable pub Goes : List Text → Text → Sink W → Ended (Heard W) → Type 0
  Goes ts reason s r = Fed env text ts (final_of reason) s (closed r)

  -- The description of the stream from some payloads on.
  abbrev From : List Text → Text → Sink W → Ended (Heard W) → Type 0
  From ps reason s r = Goes (tokens d (frames ps)) (last_reason d reason (frames ps)) s r

  restate :
      {ts us : List Text} {a b : Text} {x y : Ended (Heard W)} (s : Sink W)
      → ts ≡ us
      → a ≡ b
      → x ≡ y
      → Goes us b s y
      → Goes ts a s x
  restate s e f g h = rw (e, f, g) h

  abbrev Next : Type 0
  Next = Text → Heard W → Ended (Heard W)

  -- A token was handed on.
  called-Goes :
      (t reason new : Text) (ps : List Text) (s : Sink W) (next : Next)
      (r : Sink W × Outcome (Option Error))
      → Told env text t s r
      → ((s' : Sink W) → From ps new s' (next new (s', none)))
      → Goes
          (t ∷ tokens d (frames ps))
          (last_reason d new (frames ps))
          s
          (next_line next (called reason new (noted r)))
  unfolding Goes closed
  called-Goes t reason new ps s next (s', value none) told go =
      after_tok-Fed env text contract flush_keeps t (tokens d (frames ps))
        (final_of (last_reason d new (frames ps))) s (λ v. closed (next new (v, none))) go
        (s', value none) told
  called-Goes t reason new ps s next (s', value (some e)) told go =
      after_tok-Fed env text contract flush_keeps t (tokens d (frames ps))
        (final_of (last_reason d new (frames ps))) s (λ v. closed (next new (v, none))) go
        (s', value (some e)) told
  called-Goes t reason new ps s next (s', panicked why) bad go = absurd bad

  token-Goes :
      (t reason new : Text) (ps : List Text) (s : Sink W) (next : Next)
      → ((s' : Sink W) → From ps new s' (next new (s', none)))
      → Goes
          (t ∷ tokens d (frames ps))
          (last_reason d new (frames ps))
          s
          (next_line next (called reason new (guarded (on_tok env) t (s, none))))
  unfolding guarded
  token-Goes t reason new ps s next go =
      called-Goes t reason new ps s next (on_tok env t s)
        (on_tok-Told env text contract flush_keeps t s) go

  nothing :
      (reason : Text) (s : Sink W) (e : Option Error) → Goes [] reason s ((s, none), reason, e)
  unfolding Goes closed
  nothing reason s none = (refl, sym (append-nil _), sym (append-nil _))
  nothing reason s (some e) = ([], sym (append-nil _), ([], refl))

  -- One payload, before others whose reading is known.
  module _ (p reason : Text) (ps : List Text) (s : Sink W) (next : Next)
      (go : (new : Text) (s' : Sink W) → From ps new s' (next new (s', none))) where
    abbrev Taken : Type 0
    Taken =
        From (p ∷ ps) reason s
          (next_line next (subprocess_payload (guarded (on_tok env)) d p reason (s, none)))

    described :
        (x : List Text) (y : Text)
        → text_eq p done_mark ≡ false
        → token_of d p ≡ x
        → reason_of d p reason ≡ y
        → (tokens d (frames (p ∷ ps)) ≡ x ++ tokens d (frames ps))
          × (last_reason d reason (frames (p ∷ ps)) ≡ last_reason d y (frames ps))
    described x y mark a b = (
      ap (tokens d) (frames_on p ps mark) ∙ ap (λ ts. ts ++ tokens d (frames ps)) a,
      ap (last_reason d reason) (frames_on p ps mark) ∙ ap (λ r. last_reason d r (frames ps)) b,
    )

    choice-Goes : (c : Option (Text × Text)) → d.choice p ≡ c → text_eq p done_mark ≡ false → Taken
    choice-Goes none q mark =
        let (a, b) = adds_nothing d p reason [] [] q in
        let (x, y) = described [] reason mark a b in
        restate s x y
          (ap (next_line next) (take_other (guarded (on_tok env)) d p reason (s, none) mark q))
          (go reason s)
    choice-Goes (some (t, finish)) q mark = elim (Bool-cases (is_empty t)) [
      | inl blank ↦
          let (a, b) = adds_reason d p reason t finish q blank in
          let (x, y) = described [] (finish_with finish reason) mark a b in
          restate s x y
            (ap (next_line next)
              (take_empty (guarded (on_tok env)) d p reason (s, none) t finish mark q blank))
            (go (finish_with finish reason) s)
      | inr given ↦
          let (a, b) = adds_token d p reason t finish q given in
          let (x, y) = described (t ∷ []) (finish_with finish reason) mark a b in
          restate s x y
            (ap (next_line next)
              (take_token (guarded (on_tok env)) d p reason (s, none) t finish mark q given))
            (token-Goes t reason (finish_with finish reason) ps s next
              (go (finish_with finish reason)))
    ]

    payload-Goes : Taken
    payload-Goes = elim (Bool-cases (text_eq p done_mark)) [
      | inl mark ↦
          restate s (ap (tokens d) (frames_done p ps mark))
            (ap (last_reason d reason) (frames_done p ps mark))
            (ap (next_line next) (take_done (guarded (on_tok env)) d p reason (s, none) mark))
            (nothing reason s none)
      | inr mark ↦ choice-Goes (d.choice p) refl mark
    ]

  taken-Goes :
      (o : Option Text) (ps : List Text) (reason : Text) (s : Sink W) (next : Next)
      → ((new : Text) (s' : Sink W) → From ps new s' (next new (s', none)))
      → From
          (put_option o ps)
          reason
          s
          (next_line next (taken (subprocess_payload (guarded (on_tok env)) d) o reason (s, none)))
  taken-Goes none ps reason s next go = go reason s
  taken-Goes (some p) ps reason s next go = payload-Goes p reason ps s next go

  module _ (ctx ending : Option Error) (rest : Text) where
    pub read_lines-Goes :
        (ls : List Text) (reason : Text) (s : Sink W)
        → From (payloads (ls ++ rest ∷ [])) reason s (
            read_lines
              (subprocess_payload (guarded (on_tok env)) d)
              ctx
              ls
              rest
              ending
              reason
              (s, none))
    unfolding read_lines
    read_lines-Goes [] reason s =
        restate s refl refl
          (end_line ctx ending
            (taken (subprocess_payload (guarded (on_tok env)) d) (payload rest) reason (s, none)))
          (taken-Goes (payload rest) [] reason s (λ new. λ v. (v, new, end_error ctx ending))
            (λ new. λ v. nothing new v (end_error ctx ending)))
    read_lines-Goes (l ∷ ls) reason s =
        taken-Goes (payload l) (payloads (ls ++ rest ∷ [])) reason s
          (read_lines (subprocess_payload (guarded (on_tok env)) d) ctx ls rest ending)
          (read_lines-Goes ls)
