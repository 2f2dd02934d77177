-- ===== src/Infer/Document.antt =====
-- The document that a session streams, and what it means that a front part of it was written: the terms
-- of the streaming of internal/manager/inference.go.
use modeld_go.Common.{
  ◌≡◌, ◌∙◌, sym, ap, Option, none, some, List, [], ◌∷◌, ◌++◌, append_assoc, Text, is_empty,
  if◌then◌else◌,
}
use modeld_go.Errors.{Error, Result, ok, err}
use modeld_go.Output.{Outcome, value, panicked}
use modeld_go.Infer.{FinalResult, Sink, OnToken, InferEnv}

-- `front` is a front part of `p`.
abbrev pub Front : Text → Text → Type 0
Front front p = (rest : Text) × (front ++ rest ≡ p)

-- A session of the kind that both adapters have: one call of the callback for each token, up to the
-- first error, and then the result.
abbrev pub after_tok :
    {W : Type 0}
    → FinalResult
    → (Sink W → Sink W × Outcome (FinalResult × Option Error))
    → Sink W × Outcome (Option Error)
    → Sink W × Outcome (FinalResult × Option Error)
after_tok f next (s, value none) = next s
after_tok f next (s, value (some e)) = (s, value (f, some e))
after_tok f next (s, panicked why) = (s, panicked why)

abbrev pub feed :
    {W : Type 0}
    → List Text
    → FinalResult
    → Option Error
    → OnToken W
    → Sink W
    → Sink W × Outcome (FinalResult × Option Error)
feed [] f e tok s = (s, value (f, e))
feed (t ∷ ts) f e tok s = after_tok f (feed ts f e tok) (tok t s)

abbrev pub concat : List Text → Text
concat [] = []
concat (t ∷ ts) = t ++ concat ts

abbrev pub token_lines : (Text → Text) → List Text → Text
token_lines line [] = []
token_lines line (t ∷ ts) = line t ++ token_lines line ts

pub joined : {a y : Text} (x p q : Text) → y ≡ x ++ p → a ≡ y ++ q → a ≡ x ++ (p ++ q)
joined x p q e h = h ∙ ap (λ t. t ++ q) e ∙ append_assoc x p q

pub front_after :
    {d : Text} (p front rest : Text) → front ++ rest ≡ d → (p ++ front) ++ rest ≡ p ++ d
front_after p front rest e = append_assoc p front rest ∙ ap (λ t. p ++ t) e

pub front_before :
    {d : Text} (p front rest : Text) → front ++ rest ≡ d → front ++ (rest ++ p) ≡ d ++ p
front_before p front rest e = sym (append_assoc front rest p) ∙ ap (λ t. t ++ p) e

module _ {W : Type 0} (env : InferEnv W) (text : W → Text) where
  abbrev pub Told : Text → Sink W → Sink W × Outcome (Option Error) → Type 0
  Told t s (s', value none) =
      (text s'.writer ≡ text s.writer ++ env.token_line t) × (s'.built ≡ s.built ++ t)
  Told t s (s', value (some e)) =
      (front : Text) × (text s'.writer ≡ text s.writer ++ front) × Front front (env.token_line t)
  Told t s (s', panicked why) = ⊥

  abbrev pub Fed :
      List Text → FinalResult → Sink W → Sink W × Outcome (FinalResult × Option Error) → Type 0
  Fed ts f s (s', value (g, none)) =
      (g ≡ f)
      × (text s'.writer ≡ text s.writer ++ token_lines env.token_line ts)
      × (s'.built ≡ s.built ++ concat ts)
  Fed ts f s (s', value (g, some e)) =
      (front : Text) × (text s'.writer ≡ text s.writer ++ front)
      × Front front (token_lines env.token_line ts)
  Fed ts f s (s', panicked why) = ⊥

  -- The final line, if it can be encoded.
  abbrev pub line_of : Result Text → Text
  line_of (ok line) = line ++ b'\n' ∷ []
  line_of (err e) = []

  -- Its content is that of the result, or else the tokens.
  abbrev pub encoded : List Text → FinalResult → Result Text
  encoded ts f =
      env.final_line (if is_empty f.content then concat ts else f.content) f.finish_reason f.usage

  abbrev pub document : List Text → FinalResult → Text
  document ts f = token_lines env.token_line ts ++ line_of (encoded ts f)

  abbrev pub Streamed : Text → W → W × Option Error → Type 0
  Streamed p w (w', none) = text w' ≡ text w ++ p
  Streamed p w (w', some e) = (front : Text) × (text w' ≡ text w ++ front) × Front front p
