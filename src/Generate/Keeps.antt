-- ===== src/Generate/Keeps.antt =====
-- What the writes and the flushes keep, a call of Infer over the server adapter keeps
-- (internal/manager/inference.go and adapter_llama_server.go).
use modeld_go.Common.{
  ◌&&◌, Bool-cases, Option-cases, inl, inr, Option, none, some, List, [], ◌∷◌, Text, text_eq,
  is_empty, pos, leb_ℤ, ltb_ℤ, trim_space,
}
use modeld_go.Errors.{Error, Result, ok, err}
use modeld_go.Server.{ServerAdapter}
use modeld_go.Output.{Outcome, value, panicked, safe_flush}
use modeld_go.Infer.{InferParams, Sink, InferEnv, on_tok, finish, stream}
use modeld_go.Stream.{
  Decoder, Lines, Turn, go_on, stop, fail, Ended, done_mark, called, deliver, deliver_plain,
  server_payload, payload, taken, at_end, next_line, read_lines, server_read,
}
use modeld_go.Generate.{
  GenerateEnv, Call, Reply, Heard, noted, guarded, closed, read_server, replied, generate,
  server_call, server_session,
}
use modeld_go.Infer.Keeps.{on_tok_keeps, finish_keeps}

module _ {W : Type 0} (env : InferEnv W) (P : W → Type 0)
    (write_keeps : (p : Text) (w : W) → P w → P (env.write p w).0)
    (flush_keeps : (w : W) → P w → P (safe_flush env.flush w)) where
  -- The reading of the stream, with the callback of Infer.
  called_keeps :
      (old new : Text) (r : Heard W × Option Error)
      → P r.0.0.writer
      → P (called old new r).0.0.writer
  called_keeps old new (s, some e) kept = kept
  called_keeps old new (s, none) kept = kept

  noted_keeps : (r : Sink W × Outcome (Option Error)) → P r.0.writer → P (noted r).0.0.writer
  noted_keeps (s, value e) kept = kept
  noted_keeps (s, panicked why) kept = kept

  told_keeps :
      (old new t : Text) (s : Heard W)
      → P s.0.writer
      → P (called old new (guarded (on_tok env) t s)).0.0.writer
  unfolding guarded
  told_keeps old new t (s, p) kept =
      called_keeps old new (noted (on_tok env t s))
        (noted_keeps (on_tok env t s) (on_tok_keeps env P write_keeps flush_keeps t s kept))

  deliver_keeps :
      (t finish reason : Text) (s : Heard W)
      → P s.0.writer
      → P (deliver (guarded (on_tok env)) t finish reason s).0.0.writer
  unfolding deliver
  deliver_keeps t finish reason s kept = elim (Bool-cases (is_empty t)) [
    | inl blank ↦ rw blank kept
    | inr given ↦ rw given (told_keeps reason _ t s kept)
  ]

  plain_keeps :
      (o : Option Text) (reason : Text) (s : Heard W)
      → P s.0.writer
      → P (deliver_plain (guarded (on_tok env)) o reason s).0.0.writer
  unfolding deliver_plain
  plain_keeps none reason s kept = kept
  plain_keeps (some t) reason s kept = elim (Bool-cases (is_empty t)) [
    | inl blank ↦ rw blank kept
    | inr given ↦ rw given (told_keeps reason reason t s kept)
  ]

  payload_keeps :
      (d : Decoder) (p reason : Text) (s : Heard W)
      → P s.0.writer
      → P (server_payload (guarded (on_tok env)) d p reason s).0.0.writer
  unfolding server_payload
  payload_keeps d p reason s kept = elim (Bool-cases (text_eq p done_mark)) [
    | inl mark ↦ rw (mark, server_payload) kept
    | inr mark ↦
        rw (mark, server_payload)
          (elim (Option-cases (d.choice p)) [
            | inl e ↦ rw (e, server_payload) (plain_keeps (d.content p) reason s kept)
            | inr ((t, finish), e) ↦ rw (e, server_payload) (deliver_keeps t finish reason s kept)
          ])
  ]

  taken_keeps :
      (d : Decoder) (o : Option Text) (reason : Text) (s : Heard W)
      → P s.0.writer
      → P (taken (server_payload (guarded (on_tok env)) d) o reason s).0.0.writer
  taken_keeps d none reason s kept = kept
  taken_keeps d (some p) reason s kept = payload_keeps d p reason s kept

  end_keeps :
      (ctx ending : Option Error) (x : Heard W × Turn)
      → P x.0.0.writer
      → P (at_end ctx ending x).0.0.writer
  end_keeps ctx ending (s, stop reason) kept = kept
  end_keeps ctx ending (s, fail e reason) kept = kept
  end_keeps ctx none (s, go_on reason) kept = kept
  end_keeps none (some e) (s, go_on reason) kept = kept
  end_keeps (some c) (some e) (s, go_on reason) kept = kept

  next_keeps :
      (next : Text → Heard W → Ended (Heard W)) (x : Heard W × Turn)
      → P x.0.0.writer
      → ((reason : Text) (s : Heard W) → P s.0.writer → P (next reason s).0.0.writer)
      → P (next_line next x).0.0.writer
  next_keeps next (s, go_on reason) kept go = go reason s kept
  next_keeps next (s, stop reason) kept go = kept
  next_keeps next (s, fail e reason) kept go = kept

  lines_keep :
      (d : Decoder) (ctx : Option Error) (rest : Text) (ending : Option Error) (ls : List Text)
      (reason : Text) (s : Heard W)
      → P s.0.writer
      → P
          (read_lines
            (server_payload (guarded (on_tok env)) d)
            ctx
            ls
            rest
            ending
            reason
            s).0.0.writer
  unfolding read_lines
  lines_keep d ctx rest ending [] reason s kept =
      end_keeps ctx ending _ (taken_keeps d (payload rest) reason s kept)
  lines_keep d ctx rest ending (l ∷ ls) reason s kept =
      next_keeps (read_lines (server_payload (guarded (on_tok env)) d) ctx ls rest ending) _
        (taken_keeps d (payload l) reason s kept) (lines_keep d ctx rest ending ls)

  closed_keeps : (r : Ended (Heard W)) → P r.0.0.writer → P (closed r).0.writer
  unfolding closed
  closed_keeps ((s, some why), reason, e) kept = kept
  closed_keeps ((s, none), reason, e) kept = kept

  read_keeps :
      (genv : GenerateEnv) (l : Lines) (s : Sink W)
      → P s.writer
      → P (read_server genv (on_tok env) l s).0.writer
  unfolding read_server server_read
  read_keeps genv l s kept =
      closed_keeps _
        (lines_keep genv.decoder genv.ctx_read l.rest l.ending l.lines [] (s, none) kept)

  replied_keeps :
      (genv : GenerateEnv) (s : Sink W) (r : Result Reply)
      → P s.writer
      → P (replied genv (read_server genv) (on_tok env) s r).0.writer
  unfolding replied
  replied_keeps genv s (err e) kept = kept
  replied_keeps genv s (ok r) kept =
      elim (Bool-cases (leb_ℤ (pos 200) r.code && ltb_ℤ r.code (pos 300))) [
        | inl good ↦ rw good (read_keeps genv r.lines s kept)
        | inr bad ↦ rw bad kept
      ]

  generate_keeps :
      (genv : GenerateEnv) (call : Call) (s : Sink W)
      → P s.writer
      → P (generate genv (read_server genv) call (on_tok env) s).0.writer
  unfolding generate
  generate_keeps genv call s kept = elim (Option-cases (genv.make_request call.url)) [
    | inl made ↦ rw (made, generate) (replied_keeps genv s (genv.post call) kept)
    | inr (e, failed) ↦ rw (failed, generate) kept
  ]

  -- A call of Infer over the server adapter keeps what each write and each flush keeps, whatever the
  -- server answers.
  pub stream_keeps :
      (genv : GenerateEnv) (a : ServerAdapter) (path : Text) (params : InferParams) (prompt : Text)
      (w : W)
      → P w
      → P (stream env (server_session genv a path params prompt) w).0
  unfolding stream server_session
  stream_keeps genv a path params prompt w kept =
      let s : Sink W = record { writer = w; built = []; count = 0 } in
      let call = server_call a (trim_space path) params prompt in
      finish_keeps env P write_keeps flush_keeps
        (generate genv (read_server genv) call (on_tok env) s) (generate_keeps genv call s kept)
