-- ===== src/Manager/Ensure/Runtime.antt =====
-- What spawning a runtime changes of the manager (internal/manager/instance_ensure.go).
use modeld_go.Common.{
  ℕ, ◌≡◌, ◌∙◌, refl, sym, Option, none, some, List, [], ◌∷◌, Text, ℤ, arith, Option-cases, inl, inr,
}
use modeld_go.Types.{Model}
use modeld_go.Errors.{Error, Result, ok, err}
use modeld_go.Process.{SubprocessAdapter, ProcInfo, get_proc_info}
use modeld_go.Manager.{Manager, Instance, Adapter, absent, server, subprocess, custom}
use modeld_go.Manager.Instances.{update_at}
use modeld_go.Manager.Load.{
  EnsureEnv, note_process, announce_process, after_info, after_spawn, spawn_runtime,
}

-- A change of an instance's port and pid.
abbrev pub Quiet : (Instance → Instance) → Type 0
Quiet g =
    (i : Instance)
    → ((g i).id ≡ i.id)
      × ((g i).ref ≡ i.ref)
      × ((g i).est_vram_mb ≡ i.est_vram_mb)
      × ((g i).state ≡ i.state)

-- What a spawning leaves, if it returns.
abbrev pub Spawned : ℕ → Manager → Option (Manager × Option Error) → Type 0
Spawned ref m none = Unit
Spawned ref m (some (n, r)) =
    (n.used_est_mb ≡ m.used_est_mb)
    × ((g : Instance → Instance) × Quiet g × (n.instances ≡ update_at ref g m.instances))

update_at-id : (ref : ℕ) (is : List Instance) → update_at ref (λ i. i) is ≡ is
unfolding update_at
update_at-id ref [] = refl
update_at-id ref (i ∷ is) = ground (arith, update_at-id ref is)

still_id : Quiet (λ i. i)
still_id i = (refl, refl, refl, refl)

note_process_lem :
    (url_port : Text → Option ℤ) (ref : ℕ) (p : Option ProcInfo) (m : Manager)
    → Spawned ref m (some (note_process url_port ref p m, none))
unfolding note_process
note_process_lem url_port ref none m =
    (refl, ((λ i. i), still_id, sym (update_at-id ref m.instances)))
note_process_lem url_port ref (some p) m = elim (Option-cases (url_port p.base_url)) [
  | inl e ↦ rw (e, note_process) (refl, ((λ i. i), still_id, sym (update_at-id ref m.instances)))
  | inr (n, e) ↦
      rw (e, note_process)
        (refl, ((λ j. record j { port = n; pid = p.pid }), (λ i. (refl, refl, refl, refl)), refl))
]

announce_process-frame :
    (id : Text) (ref : ℕ) (m : Manager)
    → ((announce_process id ref m).used_est_mb ≡ m.used_est_mb)
      × ((announce_process id ref m).instances ≡ m.instances)
unfolding announce_process
announce_process-frame id ref m = ground arith

after_info_lem :
    (env : EnsureEnv) (id : Text) (ref : ℕ) (m : Manager)
    (o : Option (Option ProcInfo × SubprocessAdapter))
    → Spawned ref m (after_info env id ref m o)
unfolding after_info
after_info_lem env id ref m none = tt
after_info_lem env id ref m (some (p, c)) =
    let held = record m { adapter = subprocess c } in
    let noted = note_process env.url_port ref p held in
    let (used, instances) = announce_process-frame id ref noted in
    let (used', (g, quiet, instances')) = note_process_lem env.url_port ref p held in
    (used ∙ used', (g, quiet, instances ∙ instances'))

after_spawn_lem :
    (env : EnsureEnv) (id : Text) (x : Model) (ref : ℕ) (m : Manager)
    (o : Option (Result Text × SubprocessAdapter))
    → Spawned ref m (after_spawn env id x ref m o)
unfolding after_spawn
after_spawn_lem env id x ref m none = tt
after_spawn_lem env id x ref m (some (err e, b)) =
    (refl, ((λ i. i), still_id, sym (update_at-id ref m.instances)))
after_spawn_lem env id x ref m (some (ok url, b)) =
    after_info_lem env id ref m (get_proc_info x.path b)

pub spawn_runtime_lem :
    (env : EnsureEnv) (id : Text) (x : Model) (ref : ℕ) (ad : Adapter) (m : Manager)
    → Spawned ref m (spawn_runtime env id x ref ad m)
unfolding spawn_runtime
spawn_runtime_lem env id x ref (subprocess a) m = after_spawn_lem env id x ref m _
spawn_runtime_lem env id x ref absent m =
    (refl, ((λ i. i), still_id, sym (update_at-id ref m.instances)))
spawn_runtime_lem env id x ref (server s) m =
    (refl, ((λ i. i), still_id, sym (update_at-id ref m.instances)))
spawn_runtime_lem env id x ref custom m =
    (refl, ((λ i. i), still_id, sym (update_at-id ref m.instances)))
