-- ===== src/Startup/Shutdown/Ended.antt =====
-- The end of the program after a signal (cmd/modeld/main.go and StopAll of
-- internal/manager/adapter_llama_subprocess.go).
use modeld_go.Common.{
  ◌≡◌, ◌∙◌, refl, ap, Bool, true, false, Option, none, some, ◌∷◌, [], Text, ℤ, mem,
}
use modeld_go.Errors.{Error}
use modeld_go.Process.{ProcInfo, SubprocessAdapter, lookup, stop_all}
use modeld_go.Process.Stopping.{stop_all_lem}
use modeld_go.Manager.{Manager, Adapter, absent, server, subprocess, custom}
use modeld_go.Manager.Setup.{adopted, stop_processes, stop_all_instances}
use modeld_go.Startup.Shutdown.{
  Program, End, returned, shut_down, wait_for_end, signalled, log_shutdown, stopped, ended,
  listening_program,
}

-- The program has ended: the base context is cancelled, and Shutdown was called with the time limit.
abbrev IsClosed : ℤ → Program → Type 0
IsClosed limit p = (p.base_done ≡ true) × (p.shutdown_limit ≡ some limit)

-- What has become of the program with the subprocess adapter `a`. While the mutex of `a` is held, the
-- program waits, and has not ended. Otherwise it has ended, the table of processes is empty, and each
-- process with an entry in `a` has been terminated and waited for.
abbrev EndedWith : SubprocessAdapter → Bool → ℤ → Option End → Type 0
EndedWith a true limit r = r ≡ none
EndedWith a false limit r =
    (p : Program) × (b : SubprocessAdapter) × (r ≡ some (returned p))
    × IsClosed limit p
    × (p.manager.adapter ≡ subprocess b)
    × ((path : Text) → lookup path b.procs ≡ none)
    × ((path : Text) (q : ProcInfo) → lookup path a.procs ≡ some q → mem q.pid b.terminated ≡ true)

abbrev pub Ended : Manager → ℤ → Adapter → Option End → Type 0
Ended m limit (subprocess a) r = EndedWith a a.locked limit r
Ended m limit ad r = (p : Program) × (r ≡ some (returned p)) × IsClosed limit p × (p.manager ≡ m)

log_shutdown_keeps :
    (limit : ℤ) (r : Option Error) (p : Program)
    → IsClosed limit p
    → IsClosed limit (log_shutdown r p) × ((log_shutdown r p).manager ≡ p.manager)
log_shutdown_keeps limit none p closed = (closed, refl)
log_shutdown_keeps limit (some e) p closed = (closed, refl)

stop_all_stuck : (a : SubprocessAdapter) → a.locked ≡ true → stop_all a ≡ none
unfolding stop_all
stop_all_stuck a held = rw held refl

module _ (shutdown : ℤ → Option Error) (limit : ℤ) (line : Text) where
  abbrev closing : Manager → Program
  closing n = record { manager = n; base_done = true; shutdown_limit = some limit; log = line ∷ [] }

  wait_stopped :
      (m : Manager) (r : Option Manager)
      → stop_all_instances m ≡ r
      → wait_for_end shutdown limit line (signalled m)
        ≡ ended (stopped shutdown limit (listening_program line m) r)
  unfolding wait_for_end shut_down
  wait_stopped m r e = ap (λ o. ended (stopped shutdown limit (listening_program line m) o)) e

  returns :
      (m n : Manager)
      → stop_all_instances m ≡ some n
      → (p : Program) × (wait_for_end shutdown limit line (signalled m) ≡ some (returned p))
        × IsClosed limit p
        × (p.manager ≡ n)
  returns m n e =
      let (closed, kept) = log_shutdown_keeps limit (shutdown limit) (closing n) (refl, refl) in
      (log_shutdown (shutdown limit) (closing n), wait_stopped m (some n) e, closed, kept)

  stop_spawned :
      (m : Manager) (a : SubprocessAdapter)
      → m.adapter ≡ subprocess a
      → stop_all_instances m ≡ adopted m (stop_all a)
  unfolding stop_all_instances
  stop_spawned m a e = ap (λ ad. stop_processes ad m) e

  spawned_end :
      (m : Manager) (a : SubprocessAdapter) (held : Bool)
      → m.adapter ≡ subprocess a
      → a.locked ≡ held
      → EndedWith a held limit (wait_for_end shutdown limit line (signalled m))
  spawned_end m a true e held =
      wait_stopped m none (stop_spawned m a e ∙ ap (adopted m) (stop_all_stuck a held))
  spawned_end m a false e free =
      let (b, stops, unlocked, empty, gone) = stop_all_lem a free in
      let (p, q, closed, kept) =
        returns m (record m { adapter = subprocess b })
          (stop_spawned m a e ∙ ap (adopted m) stops) in
      (p, b, q, closed, ap (λ n. n.adapter) kept, empty, gone)

  ends :
      (m : Manager) (ad : Adapter)
      → m.adapter ≡ ad
      → Ended m limit ad (wait_for_end shutdown limit line (signalled m))
  unfolding stop_all_instances
  ends m absent e = returns m m (rw e refl)
  ends m (server a) e = returns m m (rw e refl)
  ends m custom e = returns m m (rw e refl)
  ends m (subprocess a) e = spawned_end m a a.locked e refl

  -- After a signal the program ends: the base context is cancelled, and Shutdown is called with the time
  -- limit of the flag. With the subprocess adapter this holds when its mutex is free: then the table of
  -- processes is left empty, and every process that has an entry when the signal comes has been
  -- terminated and waited for (a process whose entry was dropped before is not reached). While the mutex
  -- is held, and nobody unlocks it, the program waits and has not ended. With any other adapter the
  -- manager is as it was.
  pub wait_for_end-Ended :
      (m : Manager) → Ended m limit m.adapter (wait_for_end shutdown limit line (signalled m))
  wait_for_end-Ended m = ends m m.adapter refl
