-- ===== src/Errors.antt =====
-- internal/manager/errors.go, with the other errors that pass through the manager: those of a
-- context, of a service with a status of its own, of the runtime, and the wrapping by `%w`.
use modeld_go.Common.{
  Bool, true, false, ◌++◌, Text, codes, ℤ, Option, none, some, ◌≡◌, refl, ◌⊎◌, inl, inr,
}

pub data Error : Type 0 where
  too_busy : Text → Error
  model_not_found : Text → Error
  dependency_unavailable : Text → Error
  budget_exceeded : Text → Error
  canceled : Error
  deadline_exceeded : Error
  -- An error that implements httpapi.HTTPError.
  with_status : ℤ → Text → Error
  plain : Text → Error
  -- `fmt.Errorf("<text>: %w", err)`
  wrapped : Text → Error → Error

-- `err.Error()`.
unfoldable pub message : Error → Text
message (too_busy id) = codes "too busy: " ++ id
message (model_not_found id) = codes "model not found: " ++ id
message (dependency_unavailable msg) = msg
message (budget_exceeded msg) = msg
message canceled = codes "context canceled"
message deadline_exceeded = codes "context deadline exceeded"
message (with_status code msg) = msg
message (plain msg) = msg
message (wrapped text e) = text ++ codes ": " ++ message e

-- `errors.As` looks through every wrapping.
unfoldable pub is_too_busy : Error → Bool
is_too_busy (too_busy id) = true
is_too_busy (wrapped text e) = is_too_busy e
is_too_busy _ = false

unfoldable pub is_model_not_found : Error → Bool
is_model_not_found (model_not_found id) = true
is_model_not_found (wrapped text e) = is_model_not_found e
is_model_not_found _ = false

unfoldable pub is_dependency_unavailable : Error → Bool
is_dependency_unavailable (dependency_unavailable msg) = true
is_dependency_unavailable (wrapped text e) = is_dependency_unavailable e
is_dependency_unavailable _ = false

unfoldable pub is_budget_exceeded : Error → Bool
is_budget_exceeded (budget_exceeded msg) = true
is_budget_exceeded (wrapped text e) = is_budget_exceeded e
is_budget_exceeded _ = false

-- `errors.Is(err, context.Canceled)` and `errors.Is(err, context.DeadlineExceeded)`.
unfoldable pub is_canceled : Error → Bool
is_canceled canceled = true
is_canceled (wrapped text e) = is_canceled e
is_canceled _ = false

unfoldable pub is_deadline_exceeded : Error → Bool
is_deadline_exceeded deadline_exceeded = true
is_deadline_exceeded (wrapped text e) = is_deadline_exceeded e
is_deadline_exceeded _ = false

pub data Result {ℓ} (A : Type ℓ) : Type ℓ where
  ok : A → Result A
  err : Error → Result A

abbrev pub failed_with : Option Error → Bool
failed_with none = false
failed_with (some _) = true

pub Result-cases {ℓ} :
    {A : Type ℓ} (r : Result A) → ((a : A) × (r ≡ ok a)) ⊎ ((e : Error) × (r ≡ err e))
Result-cases (ok a) = inl (a, refl)
Result-cases (err e) = inr (e, refl)
