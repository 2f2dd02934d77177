-- ===== src/Infer/Keeps.antt =====
-- What the writes and the flushes keep, the streaming of Infer keeps (internal/manager/inference.go).
use modeld_go.Common.{
  ℕ, zero, suc, if◌then◌else◌, Bool-cases, Option-cases, inl, inr, Option, none, some, [], ◌∷◌,
  ◌++◌, Text, is_empty, length, drop, ltb, ℤ, pos, pos_part, leb_ℤ,
}
use modeld_go.Errors.{Error, Result-cases}
use modeld_go.Output.{Outcome, value, panicked, after_write, write_rounds, write_all, safe_flush}
use modeld_go.Infer.{FinalResult, Sink, InferEnv, token_written, on_tok, final_written, finish}

module _ {W : Type 0} (env : InferEnv W) (P : W → Type 0)
    (write_keeps : (p : Text) (w : W) → P w → P (env.write p w).0)
    (flush_keeps : (w : W) → P w → P (safe_flush env.flush w)) where
  after_keeps :
      (next : Text → W → W × Outcome (Option Error)) (p : Text) (r : W × ℤ × Option Error)
      → P r.0
      → ((q : Text) (w : W) → P w → P (next q w).0)
      → P (after_write next p r).0
  unfolding after_write
  after_keeps next p (w, n, some x) kept go = kept
  after_keeps next p (w, n, none) kept go = elim (Bool-cases (leb_ℤ n (pos 0))) [
    | inl short ↦ rw (short, after_write) kept
    | inr some_written ↦
        rw (some_written, after_write)
          (elim (Bool-cases (ltb (length p) (pos_part n))) [
            | inl beyond ↦ rw (beyond, after_write) kept
            | inr within ↦ rw (within, after_write) (go (drop (pos_part n) p) w kept)
          ])
  ]

  rounds_keep : (fuel : ℕ) (p : Text) (w : W) → P w → P (write_rounds env.write fuel p w).0
  unfolding write_rounds
  rounds_keep fuel [] w kept = kept
  rounds_keep zero (c ∷ p) w kept = kept
  rounds_keep (suc fuel) (c ∷ p) w kept =
      after_keeps (write_rounds env.write fuel) (c ∷ p) (env.write (c ∷ p) w)
        (write_keeps (c ∷ p) w kept) (rounds_keep fuel)

  all_keeps : (p : Text) (w : W) → P w → P (write_all env.write p w).0
  unfolding write_all
  all_keeps p w = rounds_keep (length p) p w

  token_keeps :
      (t : Text) (s : Sink W) (r : W × Outcome (Option Error))
      → P r.0
      → P (token_written env t s r).0.writer
  unfolding token_written
  token_keeps t s (w, value none) kept = flush_keeps w kept
  token_keeps t s (w, value (some e)) kept = kept
  token_keeps t s (w, panicked why) kept = kept

  pub on_tok_keeps : (t : Text) (s : Sink W) → P s.writer → P (on_tok env t s).0.writer
  unfolding on_tok
  on_tok_keeps t s kept = elim (Option-cases (env.token_ctx s.count)) [
    | inl lives ↦
        rw (lives, on_tok) (token_keeps t s _ (all_keeps (env.token_line t) s.writer kept))
    | inr (e, over) ↦ rw (over, on_tok) kept
  ]

  final_keeps : (r : W × Outcome (Option Error)) → P r.0 → P (final_written env r).0
  unfolding final_written
  final_keeps (w, value none) kept = flush_keeps w kept
  final_keeps (w, value (some e)) kept = kept
  final_keeps (w, panicked why) kept = kept

  pub finish_keeps :
      (x : Sink W × Outcome (FinalResult × Option Error)) → P x.0.writer → P (finish env x).0
  unfolding finish
  finish_keeps (s, panicked why) kept = kept
  finish_keeps (s, value (f, some e)) kept = kept
  finish_keeps (s, value (f, none)) kept =
      elim (Result-cases (
        env.final_line (if is_empty f.content then s.built else f.content) f.finish_reason
          f.usage)) [
            | inr (e, q) ↦ rw (q, finish) kept
            | inl (line, q) ↦
                rw (q, finish) (final_keeps _ (all_keeps (line ++ b'\n' ∷ []) s.writer kept))
          ]
