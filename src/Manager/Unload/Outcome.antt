-- ===== src/Manager/Unload/Outcome.antt =====
-- What Unload leaves (internal/manager/unload.go).
use mathlib.Core.Path.{subst}
use modeld_go.Common.{
  not_yet, ℕ, zero, suc, ◌+◌, ◌≤◌, ◌<◌, ◌≡◌, refl, false, ◌&&◌, none, some, List, Text, text_eq,
  is_empty, pos, ltb, ◌-ℤ◌, ◌==◌, ==_iff, arith, Bool-cases, Option-cases, inl, inr, ap, ◌∙◌, sym,
}
use modeld_go.Manager.{Manager, Instance, draining}
use modeld_go.Manager.Instances.{
  find, update_at, get_model_by_id, Distinct, find-erase, find-update_at, update_at-Distinct,
  on_ref, total_est, erase-Distinct, total_est-erase, total_est-update_at,
}
use modeld_go.Manager.Evict.{stop_runtime_lem, IsFree}
use modeld_go.Manager.Unload.{
  UnloadEnv, begin_drain, Drain, drained, timed_out, drain_loop, announce_drain, forget, remove,
  not_below_zero, finish_unload, unload_instance, unload,
}

-- The wait ends, if the clock passes the deadline at some poll that the fuel allows.
drain_loop_total :
    (env : UnloadEnv) (deadline fuel k late : ℕ) (i : Instance)
    → deadline < env.clock late
    → k ≤ late
    → late < k + fuel
    → (r : Instance × Drain) × (drain_loop env deadline fuel k i ≡ some r)
unfolding drain_loop
drain_loop_total env deadline zero k late i over le lt = absurd (omega arith)
drain_loop_total env deadline (suc fuel) k late i over le lt =
    let now = env.others k i in
    elim (Bool-cases (now.gen_len == 0 && now.queue_len == 0)) [
      | inl empty ↦ ((now, drained), rw (empty, drain_loop))
      | inr busy ↦ elim (Bool-cases (ltb deadline (env.clock k))) [
        | inl past ↦ ((now, timed_out now.gen_len now.queue_len), rw (busy, past, drain_loop))
        | inr early ↦
            let (r, e) =
              drain_loop_total env deadline fuel (k + 1) late now over
                (not_yet env.clock k late over early le) (omega arith) in
            (r, rw (busy, early, drain_loop) e)
      ]
    ]

-- The address `ref` belongs to the entry of `id` alone.
abbrev pub Owns : Text → ℕ → List Instance → Type 0
Owns id ref is = (j : Text) (x : Instance) → find j is ≡ some x → x.ref ≡ ref → j ≡ id

-- What is left after the instance `i` of `id` was unloaded.
pub record Unloaded (id : Text) (i : Instance) (m n : Manager) : Type 0 where
  pub gone : find id n.instances ≡ none
  pub others : (j : Text) → text_eq id j ≡ false → find j n.instances ≡ find j m.instances
  pub books : n.used_est_mb ≡ not_below_zero (m.used_est_mb -ℤ pos i.est_vram_mb)
  pub sum : total_est n.instances + i.est_vram_mb ≡ total_est m.instances
  pub current : n.cur ≡ forget id m.cur
  pub distinct : Distinct n.instances
  pub free : IsFree n.adapter

record SameCore (m n : Manager) : Type 0 where
  instances : n.instances ≡ m.instances
  used : n.used_est_mb ≡ m.used_est_mb
  cur : n.cur ≡ m.cur
  adapter : n.adapter ≡ m.adapter

announce_drain-frame :
    (id : Text) (how : Drain) (m : Manager) → SameCore m (announce_drain id how m)
unfolding announce_drain
announce_drain-frame id drained m = record {
  instances = refl;
  used = refl;
  cur = refl;
  adapter = refl;
}
announce_drain-frame id (timed_out a b) m = record {
  instances = refl;
  used = refl;
  cur = refl;
  adapter = refl;
}

abbrev drain_entry : Instance → Instance
drain_entry j = record j { state = draining }

abbrev mark_channels : Instance → Instance → Instance
mark_channels i j = record j { gen_len = i.gen_len; queue_len = i.queue_len }

module _ (id : Text) (i : Instance) (m : Manager) (d : Distinct m.instances)
    (here : find id m.instances ≡ some i) (owns : Owns id i.ref m.instances) where
  abbrev waited : Instance → List Instance
  waited s = update_at i.ref (mark_channels s) (update_at i.ref drain_entry m.instances)

  find-waited :
      (s : Instance) (j : Text)
      → find j (waited s)
        ≡ on_ref i.ref (mark_channels s) (on_ref i.ref drain_entry (find j m.instances))
  find-waited s j =
      find-update_at i.ref (mark_channels s) (λ x. (refl, refl)) j
        (update_at i.ref drain_entry m.instances)
      ∙ ap (on_ref i.ref (mark_channels s))
          (find-update_at i.ref drain_entry (λ x. (refl, refl)) j m.instances)

  waited-Distinct : (s : Instance) → Distinct (waited s)
  waited-Distinct s =
      update_at-Distinct i.ref (mark_channels s) (λ x. (refl, refl)) _
        (update_at-Distinct i.ref drain_entry (λ x. (refl, refl)) m.instances d)

  waited-other :
      (s : Instance) (j : Text) → text_eq id j ≡ false → find j (waited s) ≡ find j m.instances
  waited-other s j ne = elim (Option-cases (find j m.instances)) [
    | inl e ↦ ground (arith, find-waited s j)
    | inr (x, e) ↦ elim (Bool-cases (x.ref == i.ref)) [
      | inl at ↦ absurd (ground (arith, owns j x e ((==_iff x.ref i.ref).0 at)))
      | inr off ↦ ground (arith, find-waited s j)
    ]
  ]

  total_est-waited : (s : Instance) → total_est (waited s) ≡ total_est m.instances
  total_est-waited s =
      total_est-update_at i.ref (mark_channels s) (λ x. refl) _
      ∙ total_est-update_at i.ref drain_entry (λ x. refl) m.instances

  -- The entry at the end of the wait.
  abbrev last : Instance → Instance
  last s = mark_channels s (drain_entry i)

  find-waited_self : (s : Instance) → find id (waited s) ≡ some (last s)
  find-waited_self s = ground (arith, find-waited s id)

  remove-Unloaded :
      (s : Instance) (n : Manager)
      → n.instances ≡ waited s
      → n.used_est_mb ≡ m.used_est_mb
      → n.cur ≡ m.cur
      → IsFree n.adapter
      → Unloaded id i m (remove id n)
  unfolding remove
  remove-Unloaded s n is used cur free = record {
    gone = rw is (find-erase id id (waited s) (waited-Distinct s) ∙ ground arith);
    others = λ j ne.
        rw is (ground (arith, find-erase j id (waited s) (waited-Distinct s), waited-other s j ne));
    books = rw (is, used, find-waited_self s) refl;
    sum = rw is (
        omega
          (arith, total_est-erase id (waited s) (last s) (find-waited_self s), total_est-waited s));
    current = rw cur refl;
    distinct = rw is (erase-Distinct id (waited s) (waited-Distinct s));
    free = free;
  }

  finish_unload-Unloaded :
      (s : Instance) (how : Drain)
      → IsFree m.adapter
      → (n : Manager) × (finish_unload id i.ref (begin_drain id i.ref m) (some (s, how))
          ≡ some (n, none))
        × Unloaded id i m n
  unfolding finish_unload begin_drain
  finish_unload-Unloaded s how free =
      let f = announce_drain-frame id how seen in
      let (ad, e, free') =
        stop_runtime_lem told.adapter (get_model_by_id id told.registry)
          (subst IsFree (sym f.adapter) free) in
      (
        remove id (record told { adapter = ad }),
        rw (e, finish_unload),
        remove-Unloaded s (record told { adapter = ad }) f.instances f.used f.cur free',
      )
    where
      seen : Manager
      seen = record (begin_drain id i.ref m) {
        instances = update_at i.ref (mark_channels s) (begin_drain id i.ref m).instances;
      }

      told : Manager
      told = announce_drain id how seen

-- Unload returns with no error for an id that has an instance, if the clock passes the deadline
-- within the polls that the fuel allows, the keys of the map are distinct, no other id has an
-- instance with the same address, and the adapter's mutex is free: the instance is gone and every
-- other stays; the estimate is off the books, which do not fall below 0; and the current model is
-- forgotten if it was this one.
pub unload_lem :
    (fuel : ℕ) (env : UnloadEnv) (id : Text) (m : Manager) (i : Instance) (late : ℕ)
    → Distinct m.instances
    → Owns id i.ref m.instances
    → IsFree m.adapter
    → is_empty id ≡ false
    → find id m.instances ≡ some i
    → env.start + m.drain_timeout < env.clock late
    → late < fuel
    → (n : Manager) × (unload fuel env id m ≡ some (n, none)) × Unloaded id i m n
unfolding unload unload_instance
unload_lem fuel env id m i late d owns free named here over lt =
    let ((s, how), e) =
      drain_loop_total env (env.start + m.drain_timeout) fuel 0 late (record i { state = draining })
        over (omega arith) (omega arith) in
    let (n, e', done) = finish_unload-Unloaded id i m d here owns s how free in
    (n, ground (arith, ap (finish_unload id i.ref (begin_drain id i.ref m)) e), done)
