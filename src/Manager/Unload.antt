-- ===== src/Manager/Unload.antt =====
-- internal/manager/unload.go: the graceful removal of an instance.
pub mod Outcome
use modeld_go.Common.{
  ℕ, zero, suc, ◌+◌, true, false, ◌&&◌, Option, none, some, [], ◌∷◌, Text, codes, text_eq, is_empty,
  ℤ, pos, if◌then◌else◌, ltb, ltb_ℤ, ◌-ℤ◌, ◌==◌,
}
use modeld_go.Errors.{Error, model_not_found}
use modeld_go.Events.{int}
use modeld_go.Manager.{Manager, Instance, ModelInfo, draining, announce}
use modeld_go.Manager.Instances.{find, erase, update_at, get_model_by_id}
use modeld_go.Manager.Evict.{stop_runtime}

-- What happens while the call waits: the clock when the deadline is set and at each poll, and what the
-- other goroutines do to the instance (a generation starts or ends) before the first poll and during
-- each sleep of 10 ms.
pub record UnloadEnv : Type 0 where
  pub start : ℕ
  pub clock : ℕ → ℕ
  pub others : ℕ → Instance → Instance

-- The instance goes to the draining state.
unfoldable pub begin_drain : Text → ℕ → Manager → Manager
unfolding announce
begin_drain id ref m =
    announce (codes "unload_start") id []
      (record m { instances = update_at ref (λ j. record j { state = draining }) m.instances })

-- How the wait ends: drained, or timed out with the numbers of generations and of queued requests.
pub data Drain : Type 0 where
  drained : Drain
  timed_out : ℕ → ℕ → Drain

-- The polls, from poll `k` on, and the instance when they end. `none`: the fuel ran out.
unfoldable pub drain_loop : UnloadEnv → ℕ → ℕ → ℕ → Instance → Option (Instance × Drain)
drain_loop env deadline zero k i = none
drain_loop env deadline (suc fuel) k i =
    let now = env.others k i in
    elim (now.gen_len == 0 && now.queue_len == 0) [
      | true ↦ some (now, drained)
      | false ↦ elim (ltb deadline (env.clock k)) [
        | true ↦ some (now, timed_out now.gen_len now.queue_len)
        | false ↦ drain_loop env deadline fuel (k + 1) now
      ]
    ]

unfoldable pub announce_drain : Text → Drain → Manager → Manager
unfolding announce
announce_drain id drained m = m
announce_drain id (timed_out inflight queued) m =
    announce (codes "unload_timeout") id
      ((codes "inflight", int (pos inflight)) ∷ (codes "queue", int (pos queued)) ∷ []) m

abbrev pub not_below_zero : ℤ → ℤ
not_below_zero n = if ltb_ℤ n (pos 0) then pos 0 else n

-- The books after the entry is taken off, if it is still there.
abbrev take_off : Option Instance → ℤ → ℤ
take_off none used = used
take_off (some i) used = not_below_zero (used -ℤ pos i.est_vram_mb)

-- `if m.cur != nil && m.cur.ID == modelID { m.cur = nil }`
abbrev pub forget : Text → Option ModelInfo → Option ModelInfo
forget id none = none
forget id (some c) = if text_eq c.id id then none else some c

-- The last section: the books are adjusted, and the entry and the current model go.
unfoldable pub remove : Text → Manager → Manager
unfolding announce
remove id m = announce (codes "unload_done") id [] (record m {
  used_est_mb = take_off (find id m.instances) m.used_est_mb;
  instances = erase id m.instances;
  cur = forget id m.cur;
})

-- After the wait: the channels are as the other goroutines left them, and the runtime is stopped.
unfoldable pub finish_unload :
    Text → ℕ → Manager → Option (Instance × Drain) → Option (Manager × Option Error)
finish_unload id ref m none = none
finish_unload id ref m (some (i, how)) =
    let seen = record m {
      instances =
          update_at ref (λ j. record j { gen_len = i.gen_len; queue_len = i.queue_len })
            m.instances;
    } in
    let told = announce_drain id how seen in
    elim (stop_runtime told.adapter (get_model_by_id id told.registry)) [
      | none ↦ none
      | some ad ↦ some (remove id (record told { adapter = ad }), none)
    ]

unfoldable pub unload_instance :
    ℕ → UnloadEnv → Text → Manager → Option Instance → Option (Manager × Option Error)
unload_instance fuel env id m none = some (m, some (model_not_found id))
unload_instance fuel env id m (some i) =
    finish_unload id i.ref (begin_drain id i.ref m)
      (drain_loop env (env.start + m.drain_timeout) fuel 0 (record i { state = draining }))

-- Unload. `none`: the call has not returned.
unfoldable pub unload : ℕ → UnloadEnv → Text → Manager → Option (Manager × Option Error)
unload fuel env id m =
    if is_empty id
    then some (m, some (model_not_found (codes "(unspecified)")))
    else unload_instance fuel env id m (find id m.instances)
