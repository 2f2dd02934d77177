-- ===== src/Manager/Evict.antt =====
-- internal/manager/instance_evict.go: least recently used instances that are idle make room.
pub mod Victim
pub mod Outcome
use modeld_go.Common.{
  ℕ, zero, suc, ◌+◌, ◌-◌, ◌≤◌, ◌<◌, ◌≡◌, refl, Bool, true, false, ◌||◌, Option, none, some, List,
  [], ◌∷◌, Text, codes, ℤ, pos, if◌then◌else◌, arith, length, leb, ltb, leb_ℤ, ◌+ℤ◌, ◌-ℤ◌,
  Option-cases,
}
use modeld_go.Types.{Model}
use modeld_go.Errors.{Error, budget_exceeded}
use modeld_go.Config.{second}
use modeld_go.Process.{SubprocessAdapter, stop}
use modeld_go.Process.Stopping.{stop_lem}
use modeld_go.Manager.{Manager, Instance, Adapter, absent, server, subprocess, custom}
use modeld_go.Manager.Instances.{find, erase, get_model_by_id}

-- A generation runs or waits.
unfoldable pub is_busy : Instance → Bool
is_busy i = ltb 0 i.gen_len || ltb 0 i.queue_len

abbrev pub older : Instance → Option Instance → Option Instance
older i none = some i
older i (some b) = if ltb i.last_used b.last_used then some i else some b

-- The loop that picks the victim; `lru` is the best so far.
unfoldable pub pick_lru : Option Instance → List Instance → Option Instance
pick_lru lru [] = lru
pick_lru lru (i ∷ is) = pick_lru (if is_busy i then lru else older i lru) is

-- `sa.Stop` for a model, if the adapter spawns processes and the model has a path.
unfoldable pub stop_runtime : Adapter → Option Model → Option Adapter
stop_runtime (subprocess a) (some x) = elim (stop x.path a) [
  | none ↦ none
  | some (_, b) ↦ some (subprocess b)
]
stop_runtime ad _ = some ad

unfoldable pub fits : Manager → ℕ → Bool
fits m required = leb_ℤ (m.used_est_mb +ℤ pos required +ℤ m.margin_mb) m.budget_mb

-- The victim leaves the map and the books.
unfoldable pub remove_victim : Instance → Manager → Manager
remove_victim i m = record m {
  instances = erase i.id m.instances;
  used_est_mb = m.used_est_mb -ℤ pos i.est_vram_mb;
}

abbrev pub no_room : Error
no_room = budget_exceeded (codes "vram budget exceeded: cannot fit required model instance")

-- The loop, from round `k` on. `clock k` is the time at the end of round `k`. `none`: it has not
-- returned, for want of fuel or of the adapter's mutex.
unfoldable pub evict_loop : (ℕ → ℕ) → ℕ → ℕ → ℕ → ℕ → Manager → Option (Manager × Option Error)
evict_loop clock deadline required zero k m = none
evict_loop clock deadline required (suc fuel) k m = elim (fits m required) [
  | true ↦ some (m, none)
  | false ↦ elim (pick_lru none m.instances) [
    | none ↦ some (m, some no_room)
    | some lru ↦ elim (stop_runtime m.adapter (get_model_by_id lru.id m.registry)) [
      | none ↦ none
      | some ad ↦ elim (ltb deadline (clock k)) [
        | true ↦ some (remove_victim lru (record m { adapter = ad }), none)
        | false ↦
            evict_loop clock deadline required fuel (k + 1)
              (remove_victim lru (record m { adapter = ad }))
      ]
    ]
  ]
]

-- evictUntilFits. Each round removes an instance, so one round more than there are instances is enough.
unfoldable pub evict_until_fits : ℕ → (ℕ → ℕ) → ℕ → Manager → Option (Manager × Option Error)
evict_until_fits start clock required m =
    evict_loop clock (start + second) required (suc (length m.instances)) 0 m

-- The mutex of the adapter is free, if it has one.
abbrev pub IsFree : Adapter → Type 0
IsFree absent = Unit
IsFree (server s) = Unit
IsFree (subprocess a) = a.locked ≡ false
IsFree custom = Unit

pub stop_runtime_lem :
    (ad : Adapter) (x : Option Model)
    → IsFree ad
    → (ad' : Adapter) × (stop_runtime ad x ≡ some ad') × IsFree ad'
unfolding stop_runtime
stop_runtime_lem (subprocess a) (some x) f =
    let (b, e, free, _) = stop_lem x.path a f in (subprocess b, rw (e, stop_runtime), free)
stop_runtime_lem (subprocess a) none f = (subprocess a, refl, f)
stop_runtime_lem absent x f = (absent, refl, f)
stop_runtime_lem (server s) x f = (server s, refl, f)
stop_runtime_lem custom x f = (custom, refl, f)
