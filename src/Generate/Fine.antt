-- ===== src/Generate/Fine.antt =====
-- A stream that is read to its end without an error, by the loops of both adapters
-- (internal/manager/adapter_llama_server.go and adapter_llama_subprocess.go).
use modeld_go.Common.{
  ◌≡◌, Option, none, some, List, [], ◌∷◌, Text, text_eq, is_empty, Bool-cases, Option-cases, inl,
  inr,
}
use modeld_go.Errors.{Error}
use modeld_go.Stream.{
  Decoder, Turn, go_on, stop, fail, Ended, done_mark, called, deliver, deliver_plain,
  server_payload, subprocess_payload, payload, taken, at_end, next_line, read_lines,
}
use modeld_go.Output.{Outcome, value, panicked}
use modeld_go.Infer.{OnToken, Sink, finish}
use modeld_go.Generate.{Heard, noted, guarded}

-- The loop goes on, or is left with no error.
abbrev pub FineTurn : {W : Type 0} → Heard W × Turn → Type 0
FineTurn ((s, none), go_on reason) = Unit
FineTurn ((s, none), stop reason) = Unit
FineTurn ((s, none), fail e reason) = ⊥
FineTurn ((s, some why), turn) = ⊥

abbrev pub FineEnd : {W : Type 0} → Ended (Heard W) → Type 0
FineEnd ((s, none), reason, none) = Unit
FineEnd ((s, none), reason, some e) = ⊥
FineEnd ((s, some why), reason, e) = ⊥

module _ {W : Type 0} (tok : OnToken W) (good : (t : Text) (s : Sink W) → (tok t s).1 ≡ value none)
    (d : Decoder) where
  called_fine :
      (reason new : Text) (r : Sink W × Outcome (Option Error))
      → r.1 ≡ value none
      → FineTurn (called reason new (noted r))
  called_fine reason new (s, value none) h = tt
  called_fine reason new (s, value (some e)) h = cc
  called_fine reason new (s, panicked why) h = cc

  guarded_fine :
      (reason new t : Text) (s : Sink W) → FineTurn (called reason new (guarded tok t (s, none)))
  unfolding guarded
  guarded_fine reason new t s = called_fine reason new (tok t s) (good t s)

  deliver_fine :
      (t finish reason : Text) (s : Sink W)
      → FineTurn (deliver (guarded tok) t finish reason (s, none))
  unfolding deliver
  deliver_fine t finish reason s = elim (Bool-cases (is_empty t)) [
    | inl blank ↦ rw blank tt
    | inr given ↦ rw given (guarded_fine reason _ t s)
  ]

  plain_fine :
      (o : Option Text) (reason : Text) (s : Sink W)
      → FineTurn (deliver_plain (guarded tok) o reason (s, none))
  unfolding deliver_plain
  plain_fine none reason s = tt
  plain_fine (some t) reason s = elim (Bool-cases (is_empty t)) [
    | inl blank ↦ rw blank tt
    | inr given ↦ rw given (guarded_fine reason reason t s)
  ]

  pub subprocess_fine :
      (p reason : Text) (s : Sink W)
      → FineTurn (subprocess_payload (guarded tok) d p reason (s, none))
  unfolding subprocess_payload
  subprocess_fine p reason s = elim (Bool-cases (text_eq p done_mark)) [
    | inl mark ↦ rw (mark, subprocess_payload) tt
    | inr mark ↦
        rw (mark, subprocess_payload)
          (elim (Option-cases (d.choice p)) [
            | inl e ↦ rw (e, subprocess_payload) tt
            | inr ((t, finish), e) ↦ rw (e, subprocess_payload) (deliver_fine t finish reason s)
          ])
  ]

  pub server_fine :
      (p reason : Text) (s : Sink W) → FineTurn (server_payload (guarded tok) d p reason (s, none))
  unfolding server_payload
  server_fine p reason s = elim (Bool-cases (text_eq p done_mark)) [
    | inl mark ↦ rw (mark, server_payload) tt
    | inr mark ↦
        rw (mark, server_payload)
          (elim (Option-cases (d.choice p)) [
            | inl e ↦ rw (e, server_payload) (plain_fine (d.content p) reason s)
            | inr ((t, finish), e) ↦ rw (e, server_payload) (deliver_fine t finish reason s)
          ])
  ]

module _ {W : Type 0} (take : Text → Text → Heard W → Heard W × Turn)
    (fine : (p reason : Text) (s : Sink W) → FineTurn (take p reason (s, none)))
    (ctx : Option Error) (rest : Text) where
  taken_fine :
      (o : Option Text) (reason : Text) (s : Sink W) → FineTurn (taken take o reason (s, none))
  taken_fine none reason s = tt
  taken_fine (some p) reason s = fine p reason s

  end_fine : (x : Heard W × Turn) → FineTurn x → FineEnd (at_end ctx none x)
  end_fine ((s, none), go_on reason) h = tt
  end_fine ((s, none), stop reason) h = tt
  end_fine ((s, none), fail e reason) h = absurd h
  end_fine ((s, some why), turn) h = absurd h

  next_fine :
      (next : Text → Heard W → Ended (Heard W))
      → ((reason : Text) (s : Sink W) → FineEnd (next reason (s, none)))
      → (x : Heard W × Turn) → FineTurn x
      → FineEnd (next_line next x)
  next_fine next go ((s, none), go_on reason) h = go reason s
  next_fine next go ((s, none), stop reason) h = tt
  next_fine next go ((s, none), fail e reason) h = absurd h
  next_fine next go ((s, some why), turn) h = absurd h

  pub lines_fine :
      (ls : List Text) (reason : Text) (s : Sink W)
      → FineEnd (read_lines take ctx ls rest none reason (s, none))
  unfolding read_lines
  lines_fine [] reason s = end_fine _ (taken_fine (payload rest) reason s)
  lines_fine (l ∷ ls) reason s =
      next_fine (read_lines take ctx ls rest none) (lines_fine ls) _
        (taken_fine (payload l) reason s)
