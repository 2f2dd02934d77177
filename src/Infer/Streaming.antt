-- ===== src/Infer/Streaming.antt =====
-- The document that Infer streams: a line for each token, then the final line
-- (internal/manager/inference.go, after Start).
use modeld_go.Common.{
  codes, suc, ◌≡◌, ◌∙◌, refl, sym, Option, none, some, List, [], ◌∷◌, ◌++◌, append-nil, Text, take,
  drop, take-append-drop, Option-cases, inl, inr,
}
use modeld_go.Errors.{Error, wrapped, ok, err, Result-cases}
use modeld_go.Output.{Outcome, value, panicked, write_all, safe_flush}
use modeld_go.Infer.{
  FinalResult, Sink, InferEnv, token_written, on_tok, final_written, finish, stream,
}
use modeld_go.Output.Writing.{Wrote, Written, write_all-Written}
use modeld_go.Infer.Document.{
  after_tok, feed, concat, token_lines, joined, front_after, front_before, Told, Fed, line_of,
  encoded, document, Streamed,
}

module _ {W : Type 0} (env : InferEnv W) (text : W → Text)
    (contract : (p : Text) (w : W) → Wrote text p w (env.write p w))
    (flush_keeps : (w : W) → text (safe_flush env.flush w) ≡ text w) where
  token_written-Told :
      (t : Text) (s : Sink W) (r : W × Outcome (Option Error))
      → Written text (env.token_line t) s.writer r
      → Told env text t s (token_written env t s r)
  unfolding token_written
  token_written-Told t s (w, value none) h = (flush_keeps w ∙ h, refl)
  token_written-Told t s (w, value (some e)) (k, h) = (
    take k (env.token_line t),
    h,
    (drop k (env.token_line t), take-append-drop k (env.token_line t)),
  )
  token_written-Told t s (w, panicked why) h = h

  on_tok_live :
      (t : Text) (s : Sink W)
      → env.token_ctx s.count ≡ none
      → on_tok env t s ≡ token_written env t s (write_all env.write (env.token_line t) s.writer)
  unfolding on_tok
  on_tok_live t s live = rw (live, on_tok) refl

  on_tok_over :
      (t : Text) (s : Sink W) (e : Error)
      → env.token_ctx s.count ≡ some e
      → on_tok env t s ≡ (record s { count = suc s.count }, value (some e))
  unfolding on_tok
  on_tok_over t s e over = rw (over, on_tok) refl

  pub on_tok-Told : (t : Text) (s : Sink W) → Told env text t s (on_tok env t s)
  on_tok-Told t s = elim (Option-cases (env.token_ctx s.count)) [
    | inl live ↦ rw (on_tok_live t s live) (
        token_written-Told t s _
          (write_all-Written text env.write contract (env.token_line t) s.writer))
    | inr (e, over) ↦ rw (on_tok_over t s e over) ([], sym (append-nil _), (env.token_line t, refl))
  ]

  more :
      (t : Text) (ts : List Text) (f : FinalResult) (s s' : Sink W)
      → Told env text t s (s', value none)
      → (r : Sink W × Outcome (FinalResult × Option Error)) → Fed env text ts f s' r
      → Fed env text (t ∷ ts) f s r
  more t ts f s s' (a, b) (s'', value (g, none)) (same, c, d) = (
    same,
    joined (text s.writer) (env.token_line t) (token_lines env.token_line ts) a c,
    joined s.built t (concat ts) b d,
  )
  more t ts f s s' (a, b) (s'', value (g, some e)) (front, c, (rest, d)) = (
    env.token_line t ++ front,
    joined (text s.writer) (env.token_line t) front a c,
    (rest, front_after (env.token_line t) front rest d),
  )
  more t ts f s s' h (s'', panicked why) bad = bad

  pub after_tok-Fed :
      (t : Text) (ts : List Text) (f : FinalResult) (s : Sink W)
      (next : Sink W → Sink W × Outcome (FinalResult × Option Error))
      → ((s' : Sink W) → Fed env text ts f s' (next s'))
      → (r : Sink W × Outcome (Option Error)) → Told env text t s r
      → Fed env text (t ∷ ts) f s (after_tok f next r)
  after_tok-Fed t ts f s next go (s', value none) told = more t ts f s s' told (next s') (go s')
  after_tok-Fed t ts f s next go (s', value (some e)) (front, a, (rest, b)) = (
    front,
    a,
    (
      rest ++ token_lines env.token_line ts,
      front_before (token_lines env.token_line ts) front rest b,
    ),
  )
  after_tok-Fed t ts f s next go (s', panicked why) bad = bad

  feed-Fed :
      (ts : List Text) (f : FinalResult) (e : Option Error) (s : Sink W)
      → Fed env text ts f s (feed ts f e (on_tok env) s)
  feed-Fed [] f none s = (refl, sym (append-nil _), sym (append-nil _))
  feed-Fed [] f (some e) s = ([], sym (append-nil _), ([], refl))
  feed-Fed (t ∷ ts) f e s =
      after_tok-Fed t ts f s (feed ts f e (on_tok env)) (feed-Fed ts f e) (on_tok env t s)
        (on_tok-Told t s)

  last_line :
      (p line : Text) (w w' : W) (r : W × Outcome (Option Error))
      → text w' ≡ text w ++ p
      → Written text line w' r
      → Streamed env text (p ++ line) w (final_written env r)
  unfolding final_written
  last_line p line w w' (v, value none) h written = flush_keeps v ∙ joined (text w) p line h written
  last_line p line w w' (v, value (some e)) h (k, written) = (
    p ++ take k line,
    joined (text w) p (take k line) h written,
    (drop k line, front_after p (take k line) (drop k line) (take-append-drop k line)),
  )
  last_line p line w w' (v, panicked why) h bad = absurd bad

  finish_ok :
      (f : FinalResult) (s : Sink W) (ts : List Text) (line : Text)
      → s.built ≡ concat ts
      → encoded env text ts f ≡ ok line
      → finish env (s, value (f, none))
        ≡ final_written env (write_all env.write (line ++ b'\n' ∷ []) s.writer)
  unfolding finish
  finish_ok f s ts line b q = rw (b, q, finish) refl

  finish_err :
      (f : FinalResult) (s : Sink W) (ts : List Text) (e : Error)
      → s.built ≡ concat ts
      → encoded env text ts f ≡ err e
      → finish env (s, value (f, none)) ≡ (s.writer, some (wrapped (codes "marshal final line") e))
  unfolding finish
  finish_err f s ts e b q = rw (b, q, finish) refl

  finish_fed :
      (ts : List Text) (f : FinalResult) (w : W) (s : Sink W)
      → text s.writer ≡ text w ++ token_lines env.token_line ts
      → s.built ≡ concat ts
      → Streamed env text (document env text ts f) w (finish env (s, value (f, none)))
  finish_fed ts f w s a b = elim (Result-cases (encoded env text ts f)) [
    | inl (line, q) ↦
        rw (finish_ok f s ts line b q, q)
          (last_line (token_lines env.token_line ts) (line ++ b'\n' ∷ []) w s.writer _ a
            (write_all-Written text env.write contract (line ++ b'\n' ∷ []) s.writer))
    | inr (e, q) ↦ rw (finish_err f s ts e b q, q) (token_lines env.token_line ts, a, ([], refl))
  ]

  pub finish-Streamed :
      (ts : List Text) (f : FinalResult) (w : W) (r : Sink W × Outcome (FinalResult × Option Error))
      → Fed env text ts f (record { writer = w; built = []; count = 0 }) r
      → Streamed env text (document env text ts f) w (finish env r)
  unfolding finish
  finish-Streamed ts f w (s, value (g, none)) (same, a, b) = rw same (finish_fed ts f w s a b)
  finish-Streamed ts f w (s, value (g, some e)) (front, a, (rest, b)) = (
    front,
    a,
    (
      rest ++ line_of env text (encoded env text ts f),
      front_before (line_of env text (encoded env text ts f)) front rest b,
    ),
  )
  finish-Streamed ts f w (s, panicked why) bad = absurd bad

  -- A session that gives the tokens `ts` and then its result: Infer without an error has written a line
  -- for each token and then the final line; with an error, from the context, the writer, the encoder or
  -- the session, it has written a front part of that. The writer keeps the contract of io.Writer, and
  -- flushing adds nothing.
  pub stream-Streamed :
      (ts : List Text) (f : FinalResult) (e closing : Option Error) (w : W)
      → Streamed env text
          (document env text ts f)
          w
          (stream env (record { generate = feed ts f e; close = closing }) w)
  unfolding stream
  stream-Streamed ts f e closing w =
      finish-Streamed ts f w
        (feed ts f e (on_tok env) (record { writer = w; built = []; count = 0 }))
        (feed-Fed ts f e (record { writer = w; built = []; count = 0 }))
