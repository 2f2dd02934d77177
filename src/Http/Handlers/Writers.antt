-- ===== src/Http/Handlers/Writers.antt =====
-- The writer that the handler of POST /infer gives to the service, over a connection that takes
-- everything (internal/httpapi/server.go).
use modeld_go.Common.{
  ◌≡◌, ◌∙◌, refl, ap, sym, subst, Bool-cases, inl, inr, none, [], ◌∷◌, ◌++◌, Text, pos, length,
  take, if◌then◌else◌, arith,
}
use modeld_go.Output.{Writer, safe_flush}
use modeld_go.Output.Writing.{Wrote}
use modeld_go.Infer.{InferEnv}
use modeld_go.Infer.Success.{Takes}
use modeld_go.Generate.Served.{IsOpen}
use modeld_go.Http.Logging.{LogLevel, level_debug, at_least, request_log_level}
use modeld_go.Http.Response.{Exchange, Connection, send_header, response_write, transmitted}
use modeld_go.Http.Handlers.Begun.{FlushesOnly, body-flushed}
use modeld_go.Http.Handlers.{Request, HttpEnv, multi_write, both}

-- The writer that the handler gives to the service, by the level of the log.
abbrev pub writer_at : HttpEnv → LogLevel → Writer Exchange
writer_at env lvl =
    if at_least level_debug lvl then multi_write env.connection else response_write env.connection

abbrev pub level_of : HttpEnv → Request → LogLevel
level_of env q =
    request_log_level env.default_level q.log_query q.log_level_header q.log_infer_header

take-length : (p : Text) → take (length p) p ≡ p
take-length [] = refl
take-length (c ∷ p) = ap (λ q. c ∷ q) (take-length p)

module _ (conn : Connection) (good : (p : Text) (x : Exchange) → conn p x ≡ none) where
  sends_all :
      (p : Text) (x : Exchange)
      → response_write conn p x
        ≡ (record (send_header (pos 200) x) { body = x.body ++ p }, pos (length p), none)
  unfolding response_write transmitted send_header
  sends_all p x = ap (transmitted p (send_header (pos 200) x)) (good p x)

  plain-Wrote : (p : Text) (x : Exchange) → Wrote (λ y. y.body) p x (response_write conn p x)
  plain-Wrote p x = (
    length p,
    ap (λ r. r.1) (sends_all p x),
    omega arith,
    ap (λ r. r.0.body) (sends_all p x) ∙ ap (λ t. x.body ++ t) (sym (take-length p)),
  )

  plain-Takes : Takes (response_write conn)
  plain-Takes c p x = (_, length p, omega arith, sends_all (c ∷ p) x)

  multi_all :
      (p : Text) (x : Exchange)
      → multi_write conn p x
        ≡ both p (record (send_header (pos 200) x) { body = x.body ++ p }, pos (length p), none)
  unfolding multi_write
  multi_all p x = ap (both p) (sends_all p x)

  multi-Wrote : (p : Text) (x : Exchange) → Wrote (λ y. y.body) p x (multi_write conn p x)
  multi-Wrote p x = (
    length p,
    ap (λ r. r.1) (multi_all p x),
    omega arith,
    ap (λ r. r.0.body) (multi_all p x) ∙ ap (λ t. x.body ++ t) (sym (take-length p)),
  )

  multi-Takes : Takes (multi_write conn)
  multi-Takes c p x = (_, length p, omega arith, multi_all (c ∷ p) x)

writer_at-Wrote :
    (env : HttpEnv) (lvl : LogLevel)
    → ((p : Text) (x : Exchange) → env.connection p x ≡ none)
    → (p : Text) (x : Exchange) → Wrote (λ y. y.body) p x (writer_at env lvl p x)
writer_at-Wrote env lvl good p x = elim (Bool-cases (at_least level_debug lvl)) [
  | inl debug ↦ rw debug (multi-Wrote env.connection good p x)
  | inr quiet ↦ rw quiet (plain-Wrote env.connection good p x)
]

writer_at-Takes :
    (env : HttpEnv) (lvl : LogLevel)
    → ((p : Text) (x : Exchange) → env.connection p x ≡ none)
    → Takes (writer_at env lvl)
writer_at-Takes env lvl good = elim (Bool-cases (at_least level_debug lvl)) [
  | inl debug ↦ rw debug (multi-Takes env.connection good)
  | inr quiet ↦ rw quiet (plain-Takes env.connection good)
]

pub writer-IsOpen :
    (env : HttpEnv) (lvl : LogLevel) (ienv : InferEnv Exchange)
    → ((p : Text) (y : Exchange) → env.connection p y ≡ none)
    → ((y : Exchange) → FlushesOnly y (safe_flush ienv.flush y))
    → ienv.write ≡ writer_at env lvl
    → IsOpen ienv (λ y. y.body)
writer-IsOpen env lvl ienv good flush writes = (
  subst (λ wr. (p : Text) (y : Exchange) → Wrote (λ z. z.body) p y (wr p y)) (sym writes)
      (writer_at-Wrote env lvl good),
  λ y. body-flushed y (safe_flush ienv.flush y) (flush y),
  subst Takes (sym writes) (writer_at-Takes env lvl good),
)
