-- ===== src/Http/Metrics.antt =====
-- internal/httpapi/metrics.go: the middleware that counts requests.
use modeld_go.Common.{
  negsuc, ◌<◌, ◌^◌, arith, ℕ, ◌≡◌, refl, parse_unsigned, Option, none, some, List, [], ◌∷◌, Text,
  is_empty, ℤ, pos, if◌then◌else◌,
}
use modeld_go.Decimal.{itoa, Prints, itoa-Prints}
use modeld_go.Http.Response.{Exchange}

-- The labels of a request, and what the collectors hold: the requests in flight by path (as the
-- increments and the decrements), and the labels counted and observed.
pub record Collectors : Type 0 where
  pub inflight_up : List Text
  pub inflight_down : List Text
  pub requests : List (Text × Text × Text)
  pub durations : List (Text × Text × Text)

-- routePatternOrPath; `none` is a request with no route context.
unfoldable pub route_pattern_or_path : Option Text → Text → Text
route_pattern_or_path none url = url
route_pattern_or_path (some p) url = if is_empty p then url else p

-- The status label; `none` is the panic of itoa. The loop of itoa does not run for a negative number.
abbrev label_of : ℤ → Option Text
label_of (pos n) = itoa n
label_of (negsuc n) = some []

-- After the handler; the deferred decrement runs on both paths.
unfoldable pub observe : Text → Text → Option Text → Collectors → Collectors
observe path method none c = record c { inflight_down = path ∷ c.inflight_down }
observe path method (some status) c = record c {
  inflight_down = path ∷ c.inflight_down;
  requests = (path, method, status) ∷ c.requests;
  durations = (path, method, status) ∷ c.durations;
}

-- MetricsMiddleware: the recorder starts with 200.
unfoldable pub metrics_middleware :
    Option Text
    → Text
    → Text
    → (Exchange × Collectors → Exchange × Collectors)
    → Exchange × Collectors
    → Exchange × Collectors
unfolding route_pattern_or_path observe
metrics_middleware pattern_ url method next (x, c) =
    let path = route_pattern_or_path pattern_ url in
    let (y, d) =
      next (record x { recorded = pos 200 }, record c { inflight_up = path ∷ c.inflight_up }) in
    (y, observe path method (label_of y.recorded) d)

-- The label of a status is its digits: they read back as it. A negative one, which no handler has, has
-- none.
abbrev IsLabel : ℤ → Text → Type 0
IsLabel (pos n) t = parse_unsigned t ≡ some n
IsLabel (negsuc n) t = t ≡ []

-- One entry of a kind for a request: what each request leaves in the collectors.
abbrev pub Observed : Text → Text → ℤ → Collectors → Collectors → Type 0
Observed path method code c d =
    (status : Text) × (label_of code ≡ some status)
    × IsLabel code status
    × (d.inflight_up ≡ path ∷ c.inflight_up)
    × (d.inflight_down ≡ path ∷ c.inflight_down)
    × (d.requests ≡ (path, method, status) ∷ c.requests)
    × (d.durations ≡ (path, method, status) ∷ c.durations)

labelled :
    (n : ℕ) (r : Option Text)
    → Prints 4 n r
    → n < 10 ^ 4
    → (t : Text) × (r ≡ some t) × IsLabel (pos n) t
labelled n none large small = absurd (omega (arith, large, small))
labelled n (some t) (lt, reads) small = (t, refl, reads)

-- A handler that leaves the collectors alone and a status below 10000 is counted once, with the digits
-- of the status it passed to WriteHeader last, under its route's pattern or its path; the gauge goes up
-- and down once.
pub metrics_middleware-Observed :
    (pattern_ : Option Text) (url method : Text)
    (next : Exchange × Collectors → Exchange × Collectors) (x : Exchange) (c : Collectors)
    (code : ℕ)
    → ((y : Exchange) (d : Collectors) → (next (y, d)).1 ≡ d)
    → (metrics_middleware pattern_ url method next (x, c)).0.recorded ≡ pos code
    → code < 10 ^ 4
    → Observed
        (route_pattern_or_path pattern_ url)
        method
        (pos code)
        c
        (metrics_middleware pattern_ url method next (x, c)).1
unfolding metrics_middleware observe
metrics_middleware-Observed pattern_ url method next x c code alone left small =
    let (t, q, reads) = labelled code (itoa code) (itoa-Prints code) small in
    let d = record c { inflight_up = route_pattern_or_path pattern_ url ∷ c.inflight_up } in
    rw (left, alone (record x { recorded = pos 200 }) d, q) (t, refl, reads, refl, refl, refl, refl)
