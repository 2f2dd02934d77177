-- ===== src/Tests/Calls.antt =====
-- A call of Infer that streams into a text: the writer takes two bytes at a time.
use modeld_go.Common.{
  sym, append-nil, ◌≡◌, refl, false, none, some, [], ◌∷◌, ◌++◌, Text, codes, pos, arith,
}
use modeld_go.Errors.{ok}
use modeld_go.Output.{Writer, value, safe_flush}
use modeld_go.Infer.{Usage, FinalResult, InferEnv, Session}
use modeld_go.Output.Writing.{Wrote}
use modeld_go.Manager.Queue.{slot}
use modeld_go.Tests.Fixtures.{ensure_env, spawn}

abbrev pub short_write : Writer Text
short_write [] w = (w, pos 0, none)
short_write (a ∷ []) w = (w ++ a ∷ [], pos 1, none)
short_write (a ∷ b ∷ p) w = (w ++ a ∷ b ∷ [], pos 2, none)

pub short-Wrote : (p w : Text) → Wrote (λ v. v) p w (short_write p w)
short-Wrote [] w = (0, refl, omega arith, sym (append-nil w))
short-Wrote (a ∷ []) w = (1, refl, omega arith, refl)
short-Wrote (a ∷ b ∷ p) w = (2, refl, omega arith, refl)

abbrev pub usage : Usage
usage = record { prompt_tokens = pos 1; completion_tokens = pos 2; total_tokens = pos 3 }

abbrev pub final : FinalResult
final = record { content = []; usage = usage; finish_reason = codes "stop" }

abbrev session : Session Text
session = record { generate = λ tok. λ s. (s, value (final, none)); close = none }

abbrev pub infer_env : InferEnv Text
infer_env = record {
  writer_nil = false;
  context_nil = false;
  ctx_first = none;
  ctx_start = none;
  token_ctx = λ k. none;
  ctx_after = none;
  ensure = ensure_env;
  gen = record { first_check = none; first = slot; second_check = none; second = slot; now = 9 };
  spawn = spawn none;
  spawn_rounds = 50;
  write = short_write;
  flush = none;
  quote = λ t. t;
  token_line = λ t. t ++ codes "\n";
  final_line = λ c. λ r. λ u. ok (codes "done:" ++ c);
  session = λ p. λ q. session;
  start = λ p. λ q. ok (some session);
}

pub no_flush : (w : Text) → safe_flush infer_env.flush w ≡ w
unfolding safe_flush
no_flush w = refl
