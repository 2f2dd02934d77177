-- ===== src/Infer/Success.antt =====
-- When Infer streams to the end: the writer takes what it is given, the context lasts, and the final line
-- can be encoded (internal/manager/inference.go).
use modeld_go.Common.{
  ℕ, zero, suc, ◌≤◌, ◌≡◌, ◌∙◌, refl, ap, Option, none, some, [], ◌∷◌, ◌++◌, Text, pos, length, drop,
  length-drop, is_empty, if◌then◌else◌, arith,
}
use modeld_go.Errors.{Error, ok}
use modeld_go.Output.{Outcome, value, panicked, Writer, after_write, write_rounds, write_all}
use modeld_go.Infer.{
  FinalResult, Usage, Sink, InferEnv, token_written, on_tok, final_written, finish,
}

-- A writer that takes some of what it is given, without an error.
abbrev pub Takes : {W : Type 0} → Writer W → Type 0
Takes {W = W} write =
    (c : ℕ) (p : Text) (w : W)
    → (w' : W) × (k : ℕ) × (k ≤ length p) × (write (c ∷ p) w ≡ (w', pos (suc k), none))

module _ {W : Type 0} (write : Writer W) (takes : Takes write) where
  round_succeeds :
      (next : Text → W → W × Outcome (Option Error)) (c : ℕ) (p : Text) (w' : W) (k : ℕ)
      → k ≤ length p
      → after_write next (c ∷ p) (w', pos (suc k), none) ≡ next (drop k p) w'
  unfolding after_write
  round_succeeds next c p w' k h = ground arith

  rounds_succeed :
      (fuel : ℕ) (p : Text) (w : W) → length p ≤ fuel → (write_rounds write fuel p w).1 ≡ value none
  unfolding write_rounds
  rounds_succeed fuel [] w h = refl
  rounds_succeed zero (c ∷ p) w h = absurd (omega (arith, h))
  rounds_succeed (suc fuel) (c ∷ p) w h =
      let (w', k, room, e) = takes c p w in
      ap (λ r. (after_write (write_rounds write fuel) (c ∷ p) r).1) e
      ∙ ap (λ r. r.1) (round_succeeds (write_rounds write fuel) c p w' k room)
      ∙ rounds_succeed fuel (drop k p) w' (omega (arith, length-drop k p room, h))

  pub write_all_succeeds : (p : Text) (w : W) → (write_all write p w).1 ≡ value none
  unfolding write_all
  write_all_succeeds p w = rounds_succeed (length p) p w (omega arith)

module _ {W : Type 0} (env : InferEnv W) (takes : Takes env.write) where
  token_succeeds :
      (t : Text) (s : Sink W) (r : W × Outcome (Option Error))
      → r.1 ≡ value none
      → (token_written env t s r).1 ≡ value none
  unfolding token_written
  token_succeeds t s (w, value none) h = refl
  token_succeeds t s (w, value (some e)) h = cc
  token_succeeds t s (w, panicked why) h = cc

  pub on_tok_succeeds :
      ((k : ℕ) → env.token_ctx k ≡ none) → (t : Text) (s : Sink W) → (on_tok env t s).1 ≡ value none
  unfolding on_tok
  on_tok_succeeds live t s =
      rw (live s.count, on_tok)
        (token_succeeds t s _ (write_all_succeeds env.write takes (env.token_line t) s.writer))

  end_succeeds :
      (r : W × Outcome (Option Error)) → r.1 ≡ value none → (final_written env r).1 ≡ none
  unfolding final_written
  end_succeeds (w, value none) h = refl
  end_succeeds (w, value (some e)) h = cc
  end_succeeds (w, panicked why) h = cc

  pub finish_succeeds :
      ((content reason : Text) (usage : Usage)
        → (line : Text) × (env.final_line content reason usage ≡ ok line))
      → (s : Sink W) (f : FinalResult) → (finish env (s, value (f, none))).1 ≡ none
  unfolding finish
  finish_succeeds encodes s f =
      let (line, e) =
        encodes (if is_empty f.content then s.built else f.content) f.finish_reason f.usage in
      rw (e, finish)
        (end_succeeds _ (write_all_succeeds env.write takes (line ++ b'\n' ∷ []) s.writer))
