-- ===== src/Http/Handlers/Outcomes.antt =====
-- What a client gets from POST /infer, and what is recorded of it (internal/httpapi/server.go).
use modeld_go.Common.{
  subst, Bool, to_lower, List, [], ◌++◌, ℕ, ◌≡◌, refl, ap, false, Option, none, some, ◌∷◌, Text,
  codes, is_empty, trim_space, ℤ, pos, if◌then◌else◌, ◌⊎◌, inl, inr, Bool-cases, Option-cases,
}
use modeld_go.Types.{InferRequest}
use modeld_go.Errors.{
  Error, message, too_busy, model_not_found, dependency_unavailable, budget_exceeded, canceled,
  deadline_exceeded, with_status, plain, wrapped, is_too_busy, is_model_not_found,
  is_dependency_unavailable, is_budget_exceeded,
}
use modeld_go.Http.Settings.{Settings}
use modeld_go.Http.Logging.{LogLevel, level_info, at_least}
use modeld_go.Http.Response.{
  Exchange, Connection, Encoder, set_content_type, write_header, response_write, write_json_error,
  send_header, transmitted,
}
use modeld_go.Http.Handlers.{
  Service, Request, HttpEnv, status_of, is_backpressure, increment_backpressure, log_infer_end,
  limited, answered, run_infer,
}

-- Wrapping an error by `%w` does not change the status that the client gets, but that of an error with
-- a status of its own, which becomes 500.
pub status_of-wrapped :
    (t : Text) (e : Error)
    → (status_of (wrapped t e) ≡ status_of e)
      ⊎ ((code : ℤ) × (msg : Text) × (e ≡ with_status code msg)
          × (status_of (wrapped t e) ≡ pos 500))
unfolding status_of is_too_busy is_model_not_found is_dependency_unavailable is_budget_exceeded
status_of-wrapped t (too_busy id) = inl refl
status_of-wrapped t (model_not_found id) = inl refl
status_of-wrapped t (dependency_unavailable m) = inl refl
status_of-wrapped t (budget_exceeded m) = inl refl
status_of-wrapped t canceled = inl refl
status_of-wrapped t deadline_exceeded = inl refl
status_of-wrapped t (with_status code msg) = inr (code, msg, refl, refl)
status_of-wrapped t (plain m) = inl refl
status_of-wrapped t (wrapped u e) = inl refl

-- What an error response leaves: the recorder has the status; the client has it too, unless something
-- had been sent before.
abbrev pub Failed : ℤ → Exchange → Exchange → Type 0
Failed status x y =
    (y.recorded ≡ status)
    × (y.sent ≡ elim x.sent [ none ↦ some (status, codes "application/json") | some s ↦ some s ])
    × (y.backpressure ≡ x.backpressure)

transmitted-Failed :
    (status : ℤ) (p : Text) (x y : Exchange) (r : Option (ℕ × Error))
    → Failed status x y
    → Failed status x (transmitted p y r).0
unfolding transmitted
transmitted-Failed status p x y none h = h
transmitted-Failed status p x y (some (k, e)) h = h

header-Failed :
    (status : ℤ) (x : Exchange)
    → Failed status x (
        send_header (pos 200) (write_header status (set_content_type (codes "application/json") x)))
unfolding write_header set_content_type send_header
header-Failed status x = elim (Option-cases x.sent) [
  | inl new ↦ rw new (refl, refl, refl)
  | inr (s, old) ↦ rw old (refl, refl, refl)
]

write_json_error-Failed :
    (conn : Connection) (enc : Encoder) (status : ℤ) (msg : Text) (x : Exchange)
    → Failed status x (write_json_error conn enc status msg x)
unfolding write_json_error response_write
write_json_error-Failed conn enc status msg x =
    let line = enc.error_line (record { error = msg; code = status }) in
    let y =
      send_header (pos 200) (write_header status (set_content_type (codes "application/json") x)) in
    transmitted-Failed status line x y
      (conn line (write_header status (set_content_type (codes "application/json") x)))
      (header-Failed status x)

-- What an error means for the client: its status, and the reasons of the rejections that are counted.
-- The status of an error of its own is lost by wrapping, and the meaning of the others is not.
abbrev pub verdict : Error → ℤ × List Text
verdict (model_not_found id) = (pos 404, [])
verdict (dependency_unavailable m) = (pos 503, [])
verdict (budget_exceeded m) = (pos 507, [])
verdict (too_busy id) = (pos 429, codes "queue" ∷ [])
verdict (with_status code msg) = (code, [])
verdict canceled = (pos 500, [])
verdict deadline_exceeded = (pos 500, [])
verdict (plain m) = (pos 500, [])
verdict (wrapped t (with_status code msg)) = (pos 500, [])
verdict (wrapped t e) = verdict e

rejections : Error → List Text
rejections e = if is_backpressure e then codes "queue" ∷ [] else []

-- The chain of tests of the handler decides so.
status_of-verdict : (e : Error) → (status_of e, rejections e) ≡ verdict e
unfolding rejections status_of is_too_busy is_model_not_found is_dependency_unavailable
    is_budget_exceeded
status_of-verdict (too_busy id) = refl
status_of-verdict (model_not_found id) = refl
status_of-verdict (dependency_unavailable m) = refl
status_of-verdict (budget_exceeded m) = refl
status_of-verdict canceled = refl
status_of-verdict deadline_exceeded = refl
status_of-verdict (with_status code msg) = refl
status_of-verdict (plain m) = refl
status_of-verdict (wrapped t (with_status code msg)) = refl
status_of-verdict (wrapped t (too_busy id)) = refl
status_of-verdict (wrapped t (model_not_found id)) = refl
status_of-verdict (wrapped t (dependency_unavailable m)) = refl
status_of-verdict (wrapped t (budget_exceeded m)) = refl
status_of-verdict (wrapped t canceled) = refl
status_of-verdict (wrapped t deadline_exceeded) = refl
status_of-verdict (wrapped t (plain m)) = refl
status_of-verdict (wrapped t (wrapped u e)) = status_of-verdict (wrapped u e)

-- The service's answer to a request whose client and server are still there.
abbrev pub Answered : Exchange → ℤ × List Text → Exchange → Type 0
Answered x (code, reasons) y =
    (y.recorded ≡ code)
    × (y.sent ≡ elim x.sent [ none ↦ some (code, codes "application/json") | some s ↦ some s ])
    × (y.backpressure ≡ reasons ++ x.backpressure)

end-Answered :
    (lvl : LogLevel) (t : Text) (x : Exchange) (e : Error) (v : ℤ × List Text) (y : Exchange)
    → Answered x v y
    → Answered x v (log_infer_end lvl t (some e) y)
unfolding log_infer_end
end-Answered lvl t x e v y h = elim (Bool-cases (at_least level_info lvl)) [
  | inl logs ↦ rw logs h
  | inr quiet ↦ rw quiet h
]

counted-Answered :
    (x : Exchange) (e : Error) (y : Exchange)
    → Failed (status_of e) x y
    → Answered x
        (status_of e, rejections e)
        (if is_backpressure e then increment_backpressure (codes "queue") y else y)
unfolding increment_backpressure rejections
counted-Answered x e y (a, b, c) = elim (Bool-cases (is_backpressure e)) [
  | inl full ↦ rw full (a, b, ap (λ l. codes "queue" ∷ l) c)
  | inr other ↦ rw other (a, b, c)
]

-- The service failed while neither the request's nor the server's context had ended. The error's status
-- is 404 for an unknown model, 503 for a missing dependency, 507 for an exceeded budget and 429 for a
-- full queue, each also where the error is wrapped; its own status, where it has one and is not wrapped;
-- and 500 otherwise. The recorder gets the status; the client gets it as JSON if nothing had been
-- streamed, and keeps the status that was sent if something had; and one rejection with the reason
-- "queue" is counted for a full queue, and none for any other error.
pub answered-Answered :
    (env : HttpEnv) (g : Settings) (lvl : LogLevel) (x : Exchange) (e : Error)
    → env.request_after ≡ none
    → env.base_after ≡ none
    → Answered x (verdict e) (answered env g lvl (x, some e))
unfolding answered
answered-Answered env g lvl x e client server =
    subst (λ v. Answered x v (answered env g lvl (x, some e))) (status_of-verdict e)
      (rw (client, server)
        (end-Answered lvl _ x e (status_of e, rejections e) _
          (counted-Answered x e _
            (write_json_error-Failed env.connection env.encoder (status_of e) (message e) x))))

-- A content type of JSON: "application/json" in any case, and perhaps parameters.
abbrev pub IsJson : Text → Type 0
IsJson ct = (rest : Text) × (to_lower ct ≡ codes "application/json" ++ rest)

-- A body of at most the limit that decodes, with a prompt that is not blank.
abbrev pub Decodes : HttpEnv → Settings → Request → InferRequest → Type 0
Decodes env g r req =
    (env.decode (limited g.max_body_bytes r.body) ≡ some req)
    × (is_empty (trim_space req.prompt) ≡ false)

-- Either a request passes every check, and the service is asked for the decoded body; or one of the
-- checks fails, and the client gets 415 or 400 (behind what was sent before), whatever the service is.
abbrev pub Checked : HttpEnv → Settings → Request → Exchange → (Service → Exchange) → Type 0
Checked env g r x answer =
    ((req : InferRequest) × IsJson r.content_type
      × Decodes env g r req
      × ((svc : Service) → answer svc ≡ run_infer env g svc r req x))
    ⊎ ((y : Exchange) × ((svc : Service) → answer svc ≡ y)
        × ((¬ IsJson r.content_type × Failed (pos 415) x y)
            ⊎ (IsJson r.content_type
                × ((req : InferRequest) → ¬ Decodes env g r req)
                × Failed (pos 400) x y)))

abbrev blank_prompt : Option InferRequest → Bool
blank_prompt none = false
blank_prompt (some req) = is_empty (trim_space req.prompt)
