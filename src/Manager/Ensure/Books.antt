-- ===== src/Manager/Ensure/Books.antt =====
-- The books of VRAM under EnsureInstance (internal/manager/instance_ensure.go): what `used_est_mb`
-- says, against the sum of the estimates of the instances.
use mathlib.Core.Path.{subst}
use modeld_go.Common.{
  ltb_ℤ, ℕ, ◌+◌, ◌≡◌, ◌≢◌, ◌∙◌, refl, sym, true, false, Option, none, some, List, [], Text, codes,
  pos, pos_part, neg_part, ap, ◌+ℤ◌, int_laws, arith, Option-cases, Bool-cases, ◌⊎◌, inl, inr,
  is_empty,
}
use modeld_go.Types.{Model}
use modeld_go.Errors.{Error}
use modeld_go.Manager.{Manager, Instance, ready, loading, announce}
use modeld_go.Manager.Instances.{
  find, put, update_at, total_est, total_est-put_new, total_est-update_at, find-update_at, find-put,
  get_model_by_id, estimate_vram_mb, Distinct,
}
use modeld_go.Config.{second}
use modeld_go.Manager.Evict.{IsFree}
use modeld_go.Manager.Evict.Outcome.{Returns, evict_until_fits_lem}
use modeld_go.Manager.Load.{EnsureEnv, begin_load, warm_up, after_runtime, load}
use modeld_go.Manager.Ensure.{
  make_room, after_room, ensure_registered, ensure_named, ensure_instance, has_ready,
}
use modeld_go.Manager.Ensure.Runtime.{Quiet, Spawned, spawn_runtime_lem}

-- `used_est_mb` changes as the sum of the estimates does.
abbrev pub Balanced : Manager → Manager → Type 0
Balanced m n =
    n.used_est_mb +ℤ pos (total_est m.instances) ≡ m.used_est_mb +ℤ pos (total_est n.instances)

-- The instance stands in the map, ready.
abbrev pub IsUp : Text → Manager → Type 0
IsUp id m = (i : Instance) × (find id m.instances ≡ some i) × (i.state ≡ ready)

-- What a load of a new instance leaves, if it returns: on success the instance is ready and booked; on
-- an error it stays in the map, and its estimate is in the sum but not in the books.
abbrev pub Loaded : Text → ℕ → Manager → Option (Manager × Option Error) → Type 0
Loaded id required m none = Unit
Loaded id required m (some (n, none)) = Balanced m n × IsUp id n
Loaded id required m (some (n, some e)) =
    (n.used_est_mb ≡ m.used_est_mb)
    × (total_est n.instances ≡ total_est m.instances + required)
    × (find id n.instances ≢ none)

abbrev ready_at : ℕ → Instance → Instance
ready_at now i = record i { state = ready; last_used = now }

find_ready :
    (id : Text) (ref now : ℕ) (is : List Instance) (i : Instance)
    → find id is ≡ some i
    → i.ref ≡ ref
    → (j : Instance) × (find id (update_at ref (ready_at now) is) ≡ some j) × (j.state ≡ ready)
find_ready id ref now is i here at = (
  ready_at now i,
  ground (arith, find-update_at ref (ready_at now) (λ j. (refl, refl)) id is),
  refl,
)

module _ (env : EnsureEnv) (id : Text) (required : ℕ) (m : Manager)
    (gone : find id m.instances ≡ none) where
  abbrev fresh : Instance
  fresh = record {
    ref = m.next_ref;
    id = id;
    state = loading;
    last_used = env.load_time;
    est_vram_mb = required;
    gen_len = 0;
    queue_len = 0;
    queue_cap = m.max_queue_depth;
    port = pos 0;
    pid = 0;
  }

  -- The map with the new entry, after a change of its port and pid.
  entered :
      (g : Instance → Instance) (is : List Instance)
      → Quiet g
      → is ≡ update_at m.next_ref g (put fresh m.instances)
      → (total_est is ≡ total_est m.instances + required) × (find id is ≡ some (g fresh))
  entered g is quiet e = rw e (
    total_est-update_at m.next_ref g (λ i. (quiet i).2) (put fresh m.instances)
        ∙ total_est-put_new fresh m.instances gone,
    ground (
      arith,
      find-update_at m.next_ref g (λ i. ((quiet i).0, (quiet i).1)) id (put fresh m.instances),
      find-put id fresh m.instances,
    ),
  )

  after_runtime-Loaded :
      (loaded : Manager) (o : Option (Manager × Option Error))
      → loaded.instances ≡ put fresh m.instances
      → loaded.used_est_mb ≡ m.used_est_mb
      → Spawned m.next_ref loaded o
      → Loaded id required m (after_runtime env id required m.next_ref true o)
  unfolding after_runtime
  after_runtime-Loaded loaded none is used sp = tt
  after_runtime-Loaded loaded (some (n, some e)) is used (used', (g, quiet, is')) =
      let (sum, here) = entered g n.instances quiet (is' ∙ ap (update_at m.next_ref g) is) in
      (used' ∙ used, sum, λ lost. cc)
  after_runtime-Loaded loaded (some (n, none)) is used (used', (g, quiet, is')) =
      let (sum, here) = entered g n.instances quiet (is' ∙ ap (update_at m.next_ref g) is) in
      warm n (used' ∙ used) sum (g fresh) here ((quiet fresh).1) env.warmup
    where
      warm :
          (n : Manager)
          → n.used_est_mb ≡ m.used_est_mb
          → total_est n.instances ≡ total_est m.instances + required
          → (i : Instance) → find id n.instances ≡ some i
          → i.ref ≡ m.next_ref
          → (w : Option Error)
          → Loaded id required m (some (warm_up env id required m.next_ref true n w))
      warm n used sum i here at (some e) = unfold warm_up in (used, sum, λ lost. cc)
      warm n used sum i here at none =
          unfold warm_up in
          (
            omega (
              int_laws,
              ap pos_part used,
              ap neg_part used,
              sum,
              total_est-update_at m.next_ref (ready_at env.commit_time) (λ j. refl) n.instances,
            ),
            find_ready id m.next_ref env.commit_time n.instances i here at,
          )

  load_new-Loaded : (x : Model) → Loaded id required m (load env id x required m)
  unfolding load
  load_new-Loaded x =
      rw (started, load)
        (after_runtime-Loaded begun _ refl refl
          (spawn_runtime_lem env id x m.next_ref m.adapter begun))
    where
      begun : Manager
      begun = record m {
        state = loading;
        err = [];
        instances = put fresh m.instances;
        next_ref = m.next_ref + 1;
      }

      started : begin_load env.load_time id required m ≡ (begun, m.next_ref, true)
      started = unfold begin_load in rw (gone, begin_load)

-- What making room leaves for an instance that is not in the map.
abbrev Roomy : Text → Manager → Option (Manager × Option Error) → Type 0
Roomy id m none = Unit
Roomy id m (some (n, r)) = Balanced m n × (find id n.instances ≡ none)

Returns-Roomy :
    (clock : ℕ → ℕ) (deadline required : ℕ) (id : Text) (m : Manager)
    (o : Option (Manager × Option Error))
    → find id m.instances ≡ none
    → Returns clock deadline required m o
    → Roomy id m o
Returns-Roomy clock deadline required id m none gone h = absurd h
Returns-Roomy clock deadline required id m (some (n, r)) gone (ev, _) = (
  ev.books,
  elim (Option-cases (find id n.instances)) [ inl e ↦ e | inr (i, e) ↦ cc (ev.nothing_new id i e) ],
)

make_room-Roomy :
    (env : EnsureEnv) (id : Text) (required : ℕ) (m : Manager)
    → Distinct m.instances
    → IsFree m.adapter
    → find id m.instances ≡ none
    → Roomy id m (make_room env required m)
unfolding make_room
make_room-Roomy env id required m d f gone = elim (Bool-cases (ltb_ℤ (pos 0) m.budget_mb)) [
  | inl limited ↦ rw limited (
      Returns-Roomy env.evict_clock (env.evict_start + second) required id m _ gone
        (evict_until_fits_lem env.evict_start env.evict_clock required m d f))
  | inr unlimited ↦ rw unlimited (refl, gone)
]

-- What a call leaves for an instance that was not in the map, if it returns. Either it is still not
-- there, with an error, and the books changed as the sum of the estimates did; or it is there, ready,
-- with no error, and the books changed so too; or it is there, with an error, and its estimate is
-- missing from the books.
abbrev pub Accounts : Text → ℕ → Manager → Option (Manager × Option Error) → Type 0
Accounts id required m none = Unit
Accounts id required m (some (n, none)) = Balanced m n × IsUp id n
Accounts id required m (some (n, some e)) =
    ((find id n.instances ≡ none) × Balanced m n)
    ⊎ ((find id n.instances ≢ none)
        × (n.used_est_mb +ℤ pos (total_est m.instances) +ℤ pos required
            ≡ m.used_est_mb +ℤ pos (total_est n.instances)))

Loaded-Accounts :
    (id : Text) (required : ℕ) (m n : Manager) (o : Option (Manager × Option Error))
    → Balanced m n
    → Loaded id required n o
    → Accounts id required m o
Loaded-Accounts id required m n none b h = tt
Loaded-Accounts id required m n (some (k, none)) b (b', up) =
    (omega (int_laws, ap pos_part b, ap neg_part b, ap pos_part b', ap neg_part b'), up)
Loaded-Accounts id required m n (some (k, some e)) b (used, sum, here) =
    inr (
      here,
      omega (int_laws, ap pos_part b, ap neg_part b, ap pos_part used, ap neg_part used, sum),
    )

after_room-Accounts :
    (env : EnsureEnv) (id : Text) (x : Model) (required : ℕ) (m : Manager)
    (o : Option (Manager × Option Error))
    → Roomy id m o
    → Accounts id required m (after_room env id x required o)
unfolding after_room
after_room-Accounts env id x required m none h = tt
after_room-Accounts env id x required m (some (n, some e)) (b, gone) = inl (gone, b)
after_room-Accounts env id x required m (some (n, none)) (b, gone) =
    Loaded-Accounts id required m n _ b (load_new-Loaded env id required n gone x)

-- The slow path, in one equation.
pub ensure_instance_slow :
    (env : EnsureEnv) (id : Text) (x : Model) (m : Manager)
    → is_empty id ≡ false
    → has_ready id m ≡ false
    → get_model_by_id id m.registry ≡ some x
    → let required = estimate_vram_mb (env.stat x.path) in
      ensure_instance env id m
      ≡ after_room env id x required
          (make_room env required (announce (codes "ensure_start") id [] m))
unfolding ensure_instance ensure_named ensure_registered has_ready announce
ensure_instance_slow env id x m named cold known = ground arith

has_ready_gone : (id : Text) (m : Manager) → find id m.instances ≡ none → has_ready id m ≡ false
unfolding has_ready
has_ready_gone id m gone = ground arith

-- EnsureInstance, for a model of the registry with no instance, when the keys of the map are distinct
-- and the adapter's mutex is free: whenever the call returns, success means that the instance is
-- ready and that `used_est_mb` moved with the sum of the estimates; a failure with no instance left
-- behind moves the two alike; and a failure that leaves the new instance in the map leaves its
-- estimate out of `used_est_mb`.
pub ensure_instance_books :
    (env : EnsureEnv) (id : Text) (x : Model) (m : Manager)
    → Distinct m.instances
    → IsFree m.adapter
    → is_empty id ≡ false
    → find id m.instances ≡ none
    → get_model_by_id id m.registry ≡ some x
    → Accounts id (estimate_vram_mb (env.stat x.path)) m (ensure_instance env id m)
unfolding announce
ensure_instance_books env id x m d f named gone known =
    let required = estimate_vram_mb (env.stat x.path) in
    let begun = announce (codes "ensure_start") id [] m in
    subst (Accounts id required m)
      (sym (ensure_instance_slow env id x m named (has_ready_gone id m gone) known))
      (after_room-Accounts env id x required m _ (make_room-Roomy env id required begun d f gone))
