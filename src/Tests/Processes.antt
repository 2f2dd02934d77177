-- ===== src/Tests/Processes.antt =====
-- The subprocess adapter and the ports, at concrete inputs.
use modeld_go.Common.{
  ◌≡◌, refl, false, none, some, [], ◌∷◌, Text, codes, pos, text_eq, text_dec, parse_unsigned, arith,
  if◌then◌else◌,
}
use modeld_go.Decimal.{fmt_uint, fmt_uint_lem}
use modeld_go.Process.{SubprocessAdapter, lookup, stop}
use modeld_go.Process.Spawn.{is_healthy, ensure_process}
use modeld_go.Process.Stopping.{stop_lem, ensure_process_deadlock}
use modeld_go.Process.Readiness.{Outcome, ensure_process_fresh}
use modeld_go.Manager.{ready, subprocess}
use modeld_go.Startup.Shutdown.{signalled, wait_for_end}
use modeld_go.Startup.Shutdown.Ended.{Ended, wait_for_end-Ended}
use modeld_go.Tests.Fixtures.{two, manager_with, process, runtime, spawn}

abbrev path : Text
path = codes "/m/a.gguf"

abbrev running_one : SubprocessAdapter
running_one = runtime ((path, process) ∷ [])

abbrev idle : SubprocessAdapter
idle = runtime []

is_there : lookup path running_one.procs ≡ some process
unfolding lookup text_dec
is_there = refl

nothing_there : lookup path idle.procs ≡ none
unfolding lookup
nothing_there = refl

stop_lem_example :
    (b : SubprocessAdapter) × (stop path running_one ≡ some (tt, b))
    × (b.locked ≡ false)
    × ((j : Text)
        → lookup j b.procs ≡ (if text_eq path j then none else lookup j running_one.procs))
stop_lem_example = stop_lem path running_one refl

wait_for_end-Ended_example :
    Ended (manager_with ready two (subprocess running_one)) (pos 5) (subprocess running_one) (
      wait_for_end
        (λ t. none)
        (pos 5)
        (codes "modeld listening on :8080")
        (signalled (manager_with ready two (subprocess running_one))))
wait_for_end-Ended_example =
    wait_for_end-Ended (λ t. none) (pos 5) (codes "modeld listening on :8080")
      (manager_with ready two (subprocess running_one))

ensure_process_deadlock_example : ensure_process 9 (spawn none) path running_one ≡ none
unfolding is_healthy
ensure_process_deadlock_example =
    ensure_process_deadlock 9 (spawn none) path running_one process refl is_there refl

ensure_process_fresh_example : Outcome path idle (ensure_process 40 (spawn none) path idle)
ensure_process_fresh_example =
    ensure_process_fresh 40 (spawn none) path idle 39 refl nothing_there (omega arith) (omega arith)

fmt_uint_lem_example : (t : Text) × (fmt_uint 9081 ≡ some t) × (parse_unsigned t ≡ some 9081)
fmt_uint_lem_example = fmt_uint_lem 9081 (omega arith)
