-- ===== src/Tests/Queues.antt =====
-- internal/manager/queue_admission.go at concrete inputs.
use modeld_go.Common.{ℕ, ◌≡◌, refl, ◌≤◌, none, List, [], ◌∷◌, count_if, arith}
use modeld_go.Manager.{absent, ready}
use modeld_go.Manager.Queue.{
  advance, Slots, Wake, slot, finish, GenEnv, begin_generation, request, arriving, waiting,
}
use modeld_go.Manager.Queue.System.{
  System, Inv, run, starts, runs, holds, admission, released_at_end,
}
use modeld_go.Manager.Queue.Progress.{MayGoOn, progress}
use modeld_go.Manager.Queue.Single.{Admitted, Balanced, request-Admitted, begin_generation-Balanced}
use modeld_go.Tests.Fixtures.{llama, two, manager_with}

-- Three requests for two queue slots: the first generates to the end, then the second.
abbrev schedule : List (ℕ × Wake)
schedule =
    (0, slot)
    ∷ (1, slot)
    ∷ (2, slot)
    ∷ (0, slot)
    ∷ (1, slot)
    ∷ (0, finish)
    ∷ (0, finish)
    ∷ (1, slot)
    ∷ []

admission_example :
    let c = run llama schedule (starts 2 3) in
    (count_if runs c.requests ≤ 1) × (count_if holds c.requests ≤ 2)
admission_example = admission llama 2 3 schedule

abbrev whole : List (ℕ × Wake)
whole = (0, slot) ∷ (0, slot) ∷ (0, finish) ∷ (0, finish) ∷ []

released_at_end_example :
    let c = run llama whole (starts 2 1) in (c.slots.queue_len ≡ 0) × (c.slots.gen_len ≡ 0)
unfolding run advance
released_at_end_example = released_at_end llama 2 1 whole (refl, tt)

abbrev half : System
half = record {
  slots = record { queue_len = 1; queue_cap = 2; gen_len = 0 };
  requests = waiting ∷ arriving ∷ [];
}

half-Inv : Inv half
half-Inv = record { queue = refl; gen = refl; queue_bound = omega arith; gen_bound = omega arith }

progress_example : MayGoOn llama 0 half waiting
progress_example = progress llama half 0 waiting half-Inv refl

abbrev calls : GenEnv
calls = record { first_check = none; first = slot; second_check = none; second = slot; now = 9 }

request-Admitted_example :
    let s : Slots = record { queue_len = 0; queue_cap = 2; gen_len = 0 } in
    Admitted s (request llama calls s)
request-Admitted_example =
    request-Admitted llama calls (record { queue_len = 0; queue_cap = 2; gen_len = 0 })

begin_generation-Balanced_example :
    Balanced llama
      (manager_with ready two absent)
      (begin_generation calls llama (manager_with ready two absent))
begin_generation-Balanced_example =
    begin_generation-Balanced calls llama (manager_with ready two absent)
