-- ===== src/Output.antt =====
-- The writing of internal/manager/inference.go: writeAll and safeFlush, with panics as values. The
-- elements of a text are bytes here.
pub mod Writing
use modeld_go.Common.{
  ℕ, zero, suc, ◌+◌, ◌≡◌, refl, Bool, true, false, ◌||◌, Option, none, some, List, [], ◌∷◌, ◌++◌,
  Text, codes, is_empty, trim_space, ℤ, pos, pos_part, leb_ℤ, ltb_ℤ, if◌then◌else◌, length, drop,
  ltb, leb, decimal,
}
use modeld_go.Errors.{Error, plain}

-- How a call of code that may panic ends.
pub data Outcome (A : Type 0) : Type 0 where
  value : A → Outcome A
  panicked : Text → Outcome A

-- An io.Writer of state `W`: the new state, the number of bytes written, and the error.
abbrev pub Writer : Type 0 → Type 0
Writer W = Text → W → W × ℤ × Option Error

-- writeAll: one write after another, until all is written. A round writes a byte at least, so that as
-- many rounds as there are bytes are enough. A count beyond the buffer is a panic of the slice.
unfoldable pub after_write :
    {W : Type 0}
    → (Text → W → W × Outcome (Option Error))
    → Text
    → W × ℤ × Option Error
    → W × Outcome (Option Error)
after_write next p (w, n, some x) = (w, value (some x))
after_write next p (w, n, none) = elim (leb_ℤ n (pos 0)) [
  | true ↦ (w, value (some (plain (codes "short write: wrote " ++ decimal n ++ codes " bytes"))))
  | false ↦ elim (ltb (length p) (pos_part n)) [
    | true ↦ (w, panicked (codes "slice bounds out of range"))
    | false ↦ next (drop (pos_part n) p) w
  ]
]

unfoldable pub write_rounds : {W : Type 0} → Writer W → ℕ → Text → W → W × Outcome (Option Error)
unfolding after_write
write_rounds write fuel [] w = (w, value none)
write_rounds write zero (c ∷ p) w = (w, value none)
write_rounds write (suc fuel) (c ∷ p) w =
    after_write (write_rounds write fuel) (c ∷ p) (write (c ∷ p) w)

unfoldable pub write_all : {W : Type 0} → Writer W → Text → W → W × Outcome (Option Error)
unfolding write_rounds
write_all write p w = write_rounds write (length p) p w

-- safeFlush; `none` is a nil flusher. A flusher that panics is a function too: the panic is recovered.
unfoldable pub safe_flush : {W : Type 0} → Option (W → W) → W → W
safe_flush none w = w
safe_flush (some flush) w = flush w
