-- ===== src/Testctl/Steps.antt =====
-- How the steps of a script compute (internal/testctl).
use modeld_go.Common.{ℕ, ◌≡◌, Bool-cases, inl, inr, ltb, Text}
use modeld_go.Testctl.{Machine, Shell, Script, ◌>>=◌}
use modeld_go.Testctl.Run.{logf}

-- A line of the log never fails.
pub after_log :
    {W A : Type 0} (m : Machine W) (lvl : Text) (min : ℕ) (text : Text) (f : Unit {0} → Script W A)
    (s : Shell W)
    → (logf m lvl min text >>= f) s ≡ f tt (logf m lvl min text s).0
unfolding logf ◌>>=◌
after_log m lvl min text f s = elim (Bool-cases (ltb min s.level)) [ inl h ↦ rw h | inr h ↦ rw h ]
