-- ===== src/Process/Readiness.antt =====
-- The readiness loop and the creation of a process (internal/manager/adapter_llama_subprocess.go):
-- the loop ends, and each way out leaves the table as it should.
use modeld_go.Common.{
  not_yet, ◌≡◌, refl, Bool, true, false, Option, none, some, List, [], ◌∷◌, Text, codes, text_eq,
  arith, inl, inr, Bool-cases, if◌then◌else◌, ℕ, zero, suc, ◌+◌, ◌≤◌, ◌<◌, ltb, decimal, ◌++◌, ℤ,
  pos,
}
use modeld_go.Errors.{Result, Result-cases, ok, err}
use modeld_go.Events.{Field, publish, int, text}
use modeld_go.Process.{ProcInfo, SubprocessAdapter, lookup, insert, Method}
use modeld_go.Process.Table.{lookup-erase, lookup-insert}
use modeld_go.Process.Spawn.{
  SpawnEnv, Exit, running, clean, failed, is_healthy, ensure_process, create_process, await_ready,
  ready_timeout, give_up, announce, after_round, choose_port, server_args, host_of, launch,
}

-- What a new process leaves, from a table in which its entry stands: on success the entry is there,
-- marked ready, and on failure it is gone; the other paths have what they had.
abbrev pub Settled :
    Text → Text → ℕ → SubprocessAdapter → Option (Result Text × SubprocessAdapter) → Type 0
Settled path base pid a none = ⊥
Settled path base pid a (some (ok url, b)) =
    (url ≡ base)
    × (b.locked ≡ false)
    × ((j : Text)
        → lookup j b.procs ≡ (
            if text_eq path j
            then some (record { base_url = base; ready = true; pid = pid })
            else lookup j a.procs))
Settled path base pid a (some (err e, b)) =
    (b.locked ≡ false)
    × ((j : Text) → lookup j b.procs ≡ (if text_eq path j then none else lookup j a.procs))

module _ (path base : Text) (pid : ℕ) (a : SubprocessAdapter) (free : a.locked ≡ false) where
  give_up-Settled :
      (event : Text) (fields : List (Text × Field)) (msg : Text)
      → Settled path base pid a (give_up path event fields msg a)
  unfolding give_up
  give_up-Settled event fields msg = rw (free, give_up) (refl, λ j. lookup-erase j path a.procs)

  abbrev announced : SubprocessAdapter
  announced = record a {
    locked = false;
    procs = insert path (record { base_url = base; ready = true; pid = pid }) a.procs;
    publisher = publish a.publisher (record {
      name = codes "spawn_ready";
      model_id = path;
      fields = (codes "pid", int (pos pid)) ∷ (codes "url", text base) ∷ [];
    });
  }

  announce-Settled :
      lookup path a.procs ≡ some (record { base_url = base; ready = false; pid = pid })
      → Settled path base pid a (announce path base pid a)
  unfolding announce
  announce-Settled here =
      let e : announce path base pid a ≡ some (ok base, announced) = ground arith in
      rw e (refl, refl, λ j. lookup-insert j path _ a.procs)

  after_round-Settled :
      lookup path a.procs ≡ some (record { base_url = base; ready = false; pid = pid })
      → (late : Bool) (exit : Exit) (healthy : Bool) (next : Method (Result Text))
      → (late ≡ false → Settled path base pid a (next a))
      → Settled path base pid a (after_round path base pid late exit healthy next a)
  unfolding after_round
  after_round-Settled here true exit healthy next h = give_up-Settled _ _ _
  after_round-Settled here false (failed why stderr) healthy next h = give_up-Settled _ _ _
  after_round-Settled here false clean healthy next h = give_up-Settled _ _ _
  after_round-Settled here false running true next h = announce-Settled here
  after_round-Settled here false running false next h = h refl

await_ready_lem :
    (env : SpawnEnv) (path base : Text) (pid fuel k late : ℕ) (a : SubprocessAdapter)
    → a.locked ≡ false
    → lookup path a.procs ≡ some (record { base_url = base; ready = false; pid = pid })
    → env.started + ready_timeout < env.clock late
    → k ≤ late
    → late < k + fuel
    → Settled path base pid a (await_ready env path base pid fuel k a)
unfolding await_ready
await_ready_lem env path base pid zero k late a free here over le lt = absurd (omega arith)
await_ready_lem env path base pid (suc fuel) k late a free here over le lt =
    after_round-Settled path base pid a free here (ltb (env.started + ready_timeout) (env.clock k))
      (env.exit k) (is_healthy (env.probe k)) (await_ready env path base pid fuel (k + 1))
      λ early.
        await_ready_lem env path base pid fuel (k + 1) late a free here over
          (not_yet env.clock k late over early le) (omega arith)

-- What a call for a path with no entry leaves. On success the entry is there, marked ready, under the
-- address that the call returns; on failure there is none. The other paths have what they had.
abbrev pub Outcome : Text → SubprocessAdapter → Option (Result Text × SubprocessAdapter) → Type 0
Outcome path a none = ⊥
Outcome path a (some (ok url, b)) =
    (b.locked ≡ false)
    × ((pid : ℕ) × ((j : Text)
          → lookup j b.procs ≡ (
              if text_eq path j
              then some (record { base_url = url; ready = true; pid = pid })
              else lookup j a.procs)))
Outcome path a (some (err e, b)) =
    (b.locked ≡ false)
    × ((j : Text) → lookup j b.procs ≡ (if text_eq path j then none else lookup j a.procs))

Settled-Outcome :
    (path base : Text) (pid : ℕ) (a c : SubprocessAdapter)
    (r : Option (Result Text × SubprocessAdapter))
    → ((j : Text) → text_eq path j ≡ false → lookup j c.procs ≡ lookup j a.procs)
    → Settled path base pid c r
    → Outcome path a r
Settled-Outcome path base pid a c none same s = absurd s
Settled-Outcome path base pid a c (some (ok url, b)) same (e, free, at) =
    (free, (pid, λ j. ground (arith, at j, same j)))
Settled-Outcome path base pid a c (some (err e, b)) same (free, at) =
    (free, λ j. ground (arith, at j, same j))

module _ (fuel : ℕ) (env : SpawnEnv) (path : Text) (a : SubprocessAdapter) (late : ℕ)
    (free : a.locked ≡ false) (gone : lookup path a.procs ≡ none)
    (over : env.started + ready_timeout < env.clock late) (enough : late < fuel) where
  launch-Outcome :
      (host : Text) (port : ℤ) (pid : ℕ) → Outcome path a (launch fuel env path host port pid a)
  unfolding launch
  launch-Outcome host port pid =
      let e : launch fuel env path host port pid a ≡ await_ready env path base pid fuel 0 begun =
        ground arith in
      rw e (
        Settled-Outcome path base pid a begun _
          (λ j ne. ground (arith, lookup-insert j path entry a.procs))
          (await_ready_lem env path base pid fuel 0 late begun refl
            (ground (arith, lookup-insert path path entry a.procs)) over (omega arith)
            (omega arith)))
    where
      base : Text
      base = codes "http://" ++ (host ++ (codes ":" ++ decimal port))

      entry : ProcInfo
      entry = record { base_url = base; ready = false; pid = pid }

      begun : SubprocessAdapter
      begun = record a {
        locked = false;
        procs = insert path entry a.procs;
        publisher = publish a.publisher (record {
          name = codes "spawn_start";
          model_id = path;
          fields =
              (codes "pid", int (pos pid))
              ∷ (codes "host", text host)
              ∷ (codes "port", int port)
              ∷ [];
        });
      }

  create_process-Outcome : Outcome path a (create_process fuel env path a)
  unfolding create_process
  create_process-Outcome = elim (Result-cases (choose_port env a.cfg)) [
    | inr (e, eq) ↦ rw (eq, create_process) (free, λ j. ground arith)
    | inl (port, eq) ↦
        elim (Result-cases
          (env.start a.cfg.llama_bin (server_args a.cfg path (host_of a.cfg) port))) [
            | inr (e, eq') ↦ rw (eq, eq', create_process) (free, λ j. ground arith)
            | inl (pid, eq') ↦
                rw (eq, eq', create_process) (launch-Outcome (host_of a.cfg) port pid)
          ]
  ]

-- For a path with no entry, when the mutex is free, the call returns, if the clock passes the
-- deadline within the rounds that the fuel allows. On success the entry is there, marked ready, with
-- the address that is returned; on any failure there is none. Every other path keeps its entry and
-- the mutex is free.
pub ensure_process_fresh :
    (fuel : ℕ) (env : SpawnEnv) (path : Text) (a : SubprocessAdapter) (late : ℕ)
    → a.locked ≡ false
    → lookup path a.procs ≡ none
    → env.started + ready_timeout < env.clock late
    → late < fuel
    → Outcome path a (ensure_process fuel env path a)
unfolding ensure_process
ensure_process_fresh fuel env path a late free gone over enough =
    let e : ensure_process fuel env path a
        ≡ create_process fuel env path (record a { locked = false }) =
      ground arith in
    rw e (
      create_process-Outcome fuel env path (record a { locked = false }) late refl gone over enough)

-- When the mutex is free, a process that answers is reused: the call returns its address at once,
-- marks it ready if it was not, and starts nothing.
pub ensure_process_reuse :
    (fuel : ℕ) (env : SpawnEnv) (path : Text) (a : SubprocessAdapter) (p : ProcInfo)
    → a.locked ≡ false
    → lookup path a.procs ≡ some p
    → is_healthy env.health ≡ true
    → (b : SubprocessAdapter) × (ensure_process fuel env path a ≡ some (ok p.base_url, b))
      × (b.locked ≡ false)
      × (b.publisher ≡ a.publisher)
      × ((j : Text)
          → lookup j b.procs
            ≡ (if text_eq path j then some (record p { ready = true }) else lookup j a.procs))
unfolding ensure_process
ensure_process_reuse fuel env path a p free here well = elim (Bool-cases p.ready) [
  | inl r ↦ (record a { locked = false }, ground arith, refl, refl, λ j. ground arith)
  | inr r ↦ (
    record a { locked = false; procs = insert path (record p { ready = true }) a.procs },
    ground arith,
    refl,
    refl,
    λ j. lookup-insert j path _ a.procs,
  )
]
