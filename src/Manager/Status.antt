-- ===== src/Manager/Status.antt =====
-- Ready of internal/manager/manager.go, and internal/manager/status_report.go.
use modeld_go.Common.{
  is_empty, ◌∙◌, Option-cases, ℕ, suc, ◌+◌, ◌/◌, ◌≡◌, refl, Bool, true, false, ◌&&◌, ◌||◌, not,
  Option, none, some, List, [], ◌∷◌, Text, codes, pos, if◌then◌else◌, length, count_if, arith, inl,
  inr, ap,
}
use modeld_go.Types.{InstanceStatus, StatusResponse}
use modeld_go.Events.{Field}
use modeld_go.Config.{second}
use modeld_go.Manager.{
  Manager, Instance, ModelInfo, Snapshot, State, ready, loading, errored, draining, announce,
}
use modeld_go.Manager.Instances.{
  is_ready, is_loading, is_draining, is_errored, find, find-update_at,
}
use modeld_go.Manager.Load.{EnsureEnv}
use modeld_go.Manager.Ensure.{has_ready, ensure_instance, ensure_named, touch}

abbrev pub any_ready : List Instance → Bool
any_ready [] = false
any_ready (i ∷ is) = is_ready i.state || any_ready is

abbrev has_current : Option ModelInfo → Bool
has_current none = false
has_current (some c) = true

-- Ready
unfoldable pub is_up : Manager → Bool
is_up m =
    if is_errored m.state
    then false
    else if any_ready m.instances
    then true
    else is_ready m.state && has_current m.cur

-- The words of `State`.
unfoldable pub state_text : State → Text
state_text ready = codes "ready"
state_text loading = codes "loading"
state_text errored = codes "error"
state_text draining = codes "draining"

-- Snapshot. (The method; the type is in Manager.)
unfoldable pub snapshot : Manager → Snapshot
snapshot m = record { state = m.state; current_model = m.cur; err = m.err }

unfoldable pub instance_status : Instance → InstanceStatus
unfolding state_text
instance_status i = record {
  model_id = i.id;
  state = state_text i.state;
  last_used = i.last_used / second;
  est_vram_mb = i.est_vram_mb;
  queue_len = i.queue_len;
  inflight = i.gen_len;
  max_queue_depth = i.queue_cap;
  port = i.port;
  pid = pos i.pid;
}

-- The loop of Status over the instances: the summaries so far, the warm-ups and the drains.
unfoldable pub collect : List Instance → List InstanceStatus × ℕ × ℕ
collect [] = ([], 0, 0)
collect (i ∷ is) =
    let (rest, warmups, drains) = collect is in
    (
      instance_status i ∷ rest,
      if is_loading i.state then warmups + 1 else warmups,
      if is_draining i.state then drains + 1 else drains,
    )

-- Status
unfoldable pub status : Manager → StatusResponse
unfolding collect state_text
status m =
    let (instances, warmups, drains) = collect m.instances in
    record {
      instances = instances;
      budget_mb = m.budget_mb;
      used_mb = m.used_est_mb;
      margin_mb = m.margin_mb;
      error = m.err;
      last_error = [];
      uptime_seconds = pos 0;
      server_time_unix = pos 0;
      evictions_total = 0;
      loads_total = 0;
      state = state_text m.state;
      warmups_in_progress = warmups;
      draining_count = drains;
    }

collect_lem :
    (is : List Instance)
    → (length (collect is).0 ≡ length is)
      × ((collect is).1 ≡ count_if (λ i. is_loading i.state) is)
      × ((collect is).2 ≡ count_if (λ i. is_draining i.state) is)
unfolding collect
collect_lem [] = (refl, refl, refl)
collect_lem (i ∷ is) =
    let (a, b, c) = collect_lem is in (ap suc a, ground (arith, b), ground (arith, c))

-- Status lists every instance once, and counts those that load and those that drain.
pub status_counts :
    (m : Manager)
    → (length (status m).instances ≡ length m.instances)
      × ((status m).warmups_in_progress ≡ count_if (λ i. is_loading i.state) m.instances)
      × ((status m).draining_count ≡ count_if (λ i. is_draining i.state) m.instances)
unfolding status
status_counts m = collect_lem m.instances

any_ready-find :
    (id : Text) (is : List Instance) (i : Instance)
    → find id is ≡ some i
    → is_ready i.state ≡ true
    → any_ready is ≡ true
unfolding find
any_ready-find id [] i e r = cc
any_ready-find id (j ∷ is) i e r = ground (arith, any_ready-find id is i)

-- A manager with a ready instance is ready, unless its own state is the error state, and then it is
-- not, whatever instances it has.
pub is_up-has_ready :
    (id : Text) (m : Manager) → has_ready id m ≡ true → is_up m ≡ not (is_errored m.state)
unfolding is_up has_ready
is_up-has_ready id m h = elim (Option-cases (find id m.instances)) [
  | inl e ↦ absurd (ground arith)
  | inr (i, e) ↦ ground (arith, any_ready-find id m.instances i e)
]

has_ready-announce :
    (name k : Text) (fields : List (Text × Field)) (id : Text) (m : Manager)
    → has_ready id (announce name k fields m) ≡ has_ready id m
unfolding has_ready announce
has_ready-announce name k fields id m = refl

is_up-errored : (m : Manager) → m.state ≡ errored → is_up m ≡ false
unfolding is_up
is_up-errored m e = ground arith

has_ready-touch :
    (now : ℕ) (id : Text) (m : Manager)
    → has_ready id m ≡ true
    → has_ready id (touch now id m) ≡ true
unfolding has_ready touch
has_ready-touch now id m h = elim (Option-cases (find id m.instances)) [
  | inl e ↦ absurd (ground arith)
  | inr (i, e) ↦ ground (
    arith,
    find-update_at i.ref (λ j. record j { last_used = now }) (λ j. (refl, refl)) id m.instances,
  )
]

touch-state : (now : ℕ) (id : Text) (m : Manager) → (touch now id m).state ≡ m.state
unfolding touch
touch-state now id m = ground arith

-- EnsureInstance for an instance that is ready succeeds at once and leaves it ready, but it does not
-- leave the error state: the server stays not ready for as long as only such calls are made.
pub ready_call_keeps_error :
    (env : EnsureEnv) (id : Text) (m : Manager)
    → is_empty id ≡ false
    → has_ready id m ≡ true
    → m.state ≡ errored
    → (n : Manager) × (ensure_instance env id m ≡ some (n, none))
      × (has_ready id n ≡ true)
      × (n.state ≡ errored)
      × (is_up n ≡ false)
unfolding ensure_instance ensure_named announce
ready_call_keeps_error env id m named here bad =
    let begun = announce (codes "ensure_start") id [] m in
    let n = touch env.fast_time id begun in
    let here' : has_ready id begun ≡ true =
      has_ready-announce (codes "ensure_start") id [] id m ∙ here in
    let bad' : n.state ≡ errored = touch-state env.fast_time id begun ∙ bad in
    (
      n,
      ground arith,
      has_ready-touch env.fast_time id begun here',
      bad',
      ground (arith, is_up-errored n bad'),
    )
