-- ===== src/Testctl/Cleanup.antt =====
-- Which processes testctl leaves running: the deferred calls of web_haiku.go, web_live.go and web_mock.go,
-- and the table of processes of process.go (internal/testctl).
use modeld_go.Common.{
  ℕ, ◌≡◌, refl, true, false, not, ◌==◌, ◌&&◌, ◌||◌, Option, none, some, List, [], ◌∷◌, ◌++◌, ℤ,
  arith, filter_if, mem,
}
use modeld_go.Errors.{Error}
use modeld_go.Testctl.{Cmd, Machine, Shell, Script, deferred, pure, ◌>>=◌}
use modeld_go.Testctl.Run.{
  start, begun, track_process, start_tracked, kill, kill_each, kill_processes,
}
use modeld_go.Testctl.Keeps.{Keeps, IsStable}
use modeld_go.Testctl.Web.{
  with_preview, with_server, haiku_body, live_body, test_web_haiku_host, test_web_live_host,
  test_web_mock, Config, start_preview, cleaned,
}
use modeld_go.Testctl.Quiet.{web_rules}

-- Every process that runs is in the table.
abbrev IsTracked : List ℕ → List ℕ → Type 0
IsTracked alive procs = (p : ℕ) → mem p alive ≡ true → mem p procs ≡ true

-- Nothing runs, and nothing is in the table.
abbrev pub IsIdle : List ℕ → List ℕ → Type 0
IsIdle alive procs = (alive ≡ []) × (procs ≡ [])

-- The same of a shell.
abbrev TrackedShell : {W : Type 0} → Shell W → Type 0
TrackedShell s = IsTracked s.alive s.procs

abbrev pub IdleShell : {W : Type 0} → Shell W → Type 0
IdleShell s = IsIdle s.alive s.procs

tracked_stable : {W : Type 0} → IsStable {W = W} TrackedShell
tracked_stable = record { at_world = λ s w h. h; at_event = λ s e h. h; at_level = λ s l h. h }

pub idle_stable : {W : Type 0} → IsStable {W = W} IdleShell
idle_stable = record { at_world = λ s w h. h; at_event = λ s e h. h; at_level = λ s l h. h }

IsIdle-IsTracked : (alive procs : List ℕ) → IsIdle alive procs → IsTracked alive procs
IsIdle-IsTracked [] procs (a, b) p h = cc
IsIdle-IsTracked (q ∷ alive) procs (a, b) p h = cc

mem-append : (p : ℕ) (ps qs : List ℕ) → mem p (ps ++ qs) ≡ (mem p ps || mem p qs)
mem-append p [] qs = refl
mem-append p (q ∷ ps) qs = ground (arith, mem-append p ps qs)

-- What is left after the killing of one process.
abbrev left : ℕ → List ℕ → List ℕ
left p = filter_if (λ q. not (q == p))

mem-left : (q p : ℕ) (ps : List ℕ) → mem q (left p ps) ≡ (mem q ps && not (q == p))
mem-left q p [] = refl
mem-left q p (r ∷ ps) = ground (arith, mem-left q p ps)

empty_if_no_mem : (ps : List ℕ) → ((p : ℕ) → mem p ps ≡ false) → ps ≡ []
empty_if_no_mem [] h = refl
empty_if_no_mem (p ∷ ps) h = absurd (ground (arith, h p))

module _ {W : Type 0} (m : Machine W) where
  track-IsTracked :
      (p : ℕ) (alive procs : List ℕ)
      → IsTracked alive procs
      → IsTracked (p ∷ alive) (procs ++ p ∷ [])
  track-IsTracked p alive procs h q e = ground (arith, h q, mem-append q procs (p ∷ []))

  begun-IsTracked :
      (c : Cmd) (s : Shell W) (x : W × Option Error)
      → IsTracked s.alive s.procs
      → IsTracked
          (((λ t. begun m c t x) >>= λ p. track_process m p >>= λ _. pure p) s).0.alive
          (((λ t. begun m c t x) >>= λ p. track_process m p >>= λ _. pure p) s).0.procs
  unfolding ◌>>=◌ track_process pure
  begun-IsTracked c s (w, some e) h = h
  begun-IsTracked c s (w, none) h = track-IsTracked s.next s.alive s.procs h

  start_tracked-IsTracked : (c : Cmd) → Keeps TrackedShell (start_tracked m c)
  unfolding start_tracked start ◌>>=◌ track_process pure
  start_tracked-IsTracked c = record { at = λ s. begun-IsTracked c s (m.start c s.world) }

  kill-IsTracked :
      (p : ℕ) (s : Shell W)
      → IsTracked s.alive s.procs
      → IsTracked (kill m p s).alive (kill m p s).procs
  unfolding kill
  kill-IsTracked p s h q e = ground (arith, h q, mem-left q p s.alive)

  kill_each-alive :
      (ps : List ℕ) (s : Shell W) (q : ℕ)
      → mem q (kill_each m ps s).alive ≡ (mem q s.alive && not (mem q ps))
  unfolding kill_each kill
  kill_each-alive [] s q = ground arith
  kill_each-alive (p ∷ ps) s q =
      ground (arith, kill_each-alive ps (kill m p s) q, mem-left q p s.alive)

  kill_each-procs : (ps : List ℕ) (s : Shell W) → (kill_each m ps s).procs ≡ s.procs
  unfolding kill_each kill
  kill_each-procs [] s = refl
  kill_each-procs (p ∷ ps) s = kill_each-procs ps (kill m p s)

  kill_processes-IsIdle :
      (s : Shell W)
      → IsTracked s.alive s.procs
      → IsIdle (kill_processes m s).alive (kill_processes m s).procs
  unfolding kill_processes
  kill_processes-IsIdle s h = (
    empty_if_no_mem _
        (λ q. ground (arith, h q, kill_each-alive s.procs (record s { procs = [] }) q)),
    kill_each-procs s.procs (record s { procs = [] }),
  )

  module _ {A : Type 0} where
    deferred-IsTracked :
        (p : ℕ) (body : Script W A)
        → Keeps TrackedShell body
        → Keeps TrackedShell (deferred (kill m p) body)
    unfolding deferred
    deferred-IsTracked p body k = record {
      at = λ s h. let (s', r) = body s in kill-IsTracked p s' (k.at s h);
    }

    deferred-IsIdle :
        (body : Script W A)
        → Keeps TrackedShell body
        → Keeps IdleShell (deferred (kill_processes m) body)
    unfolding deferred
    deferred-IsIdle body k = record {
      at = λ s h.
          let (s', r) = body s in
          kill_processes-IsIdle s' (k.at s (IsIdle-IsTracked s.alive s.procs h));
    }

module _ {W : Type 0} (m : Machine W) where
  start_preview-IsTracked : (port : ℤ) → Keeps TrackedShell (start_preview m port)
  unfolding start_preview
  start_preview-IsTracked port = start_tracked-IsTracked m _

  with_preview-IsTracked :
      (web : ℤ) (tests : Script W (Unit {0}))
      → Keeps TrackedShell tests
      → Keeps TrackedShell (with_preview m web tests)
  unfolding with_preview
  with_preview-IsTracked web tests k =
      search (web_rules, tracked_stable, start_preview-IsTracked, deferred-IsTracked m) depth 12

  with_server-IsTracked :
      (cmd : Cmd) (api : ℤ) (rest : Script W (Unit {0}))
      → Keeps TrackedShell rest
      → Keeps TrackedShell (with_server m cmd api rest)
  unfolding with_server
  with_server-IsTracked cmd api rest k =
      search (web_rules, tracked_stable, start_tracked-IsTracked m, deferred-IsTracked m) depth 12

  haiku_body-IsTracked : (api web : ℤ) → Keeps TrackedShell (haiku_body m api web)
  unfolding haiku_body
  haiku_body-IsTracked api web =
      search (web_rules, tracked_stable, with_server-IsTracked, with_preview-IsTracked) depth 12

  live_body-IsTracked : (api web : ℤ) → Keeps TrackedShell (live_body m api web)
  unfolding live_body
  live_body-IsTracked api web =
      search (web_rules, tracked_stable, with_server-IsTracked, with_preview-IsTracked) depth 12

  cleaned-IsIdle :
      (body : ℤ → ℤ → Script W (Unit {0})) (ports : ℤ × ℤ)
      → ((api web : ℤ) → Keeps TrackedShell (body api web))
      → Keeps IdleShell (cleaned m body ports)
  cleaned-IsIdle body (api, web) k = deferred-IsIdle m (body api web) (k api web)

  pub haiku-IsIdle : (cfg : Config) → Keeps IdleShell (test_web_haiku_host m cfg)
  unfolding test_web_haiku_host
  haiku-IsIdle cfg = search (web_rules, idle_stable, cleaned-IsIdle, haiku_body-IsTracked) depth 12

  pub live-IsIdle : (cfg : Config) → Keeps IdleShell (test_web_live_host m cfg)
  unfolding test_web_live_host
  live-IsIdle cfg = search (web_rules, idle_stable, cleaned-IsIdle, live_body-IsTracked) depth 12

  pub mock-IsIdle : (cfg : Config) → Keeps IdleShell (test_web_mock m cfg)
  unfolding test_web_mock
  mock-IsIdle cfg =
      search (web_rules, idle_stable, tracked_stable, deferred-IsIdle m, with_preview-IsTracked)
        depth 12
