-- ===== src/Process/Stopping.antt =====
-- Stop and StopAll of internal/manager/adapter_llama_subprocess.go: what they leave, and what
-- happens when Stop is called with the mutex held.
use modeld_go.Common.{
  ◌≡◌, ◌∙◌, ◌⊎◌, text_dec, subst, mem, true, refl, Bool, false, ◌||◌, Option, none, some, List, [],
  ◌∷◌, Text, codes, text_eq, arith, inl, inr, Option-cases, if◌then◌else◌, ℕ,
}
use modeld_go.Events.{publish}
use modeld_go.Process.{
  ProcInfo, SubprocessAdapter, lookup, erase, stop, stop_all, stop_each, >>=-some, paths,
}
use modeld_go.Process.Table.{lookup-erase}
use modeld_go.Process.Spawn.{SpawnEnv, is_healthy, ensure_process}

-- The state after a process was stopped.
abbrev stopped : Text → ProcInfo → SubprocessAdapter → SubprocessAdapter
stopped path p a = record a {
  locked = false;
  procs = erase path a.procs;
  terminated = p.pid ∷ a.terminated;
  publisher =
      publish a.publisher (record { name = codes "spawn_stop"; model_id = path; fields = [] });
}

-- Every entry of `a` is still there in `b`, or its process has been terminated and waited for; and what
-- has been terminated stays so.
abbrev pub Stops : SubprocessAdapter → SubprocessAdapter → Type 0
Stops a b =
    ((j : Text) (p : ProcInfo)
      → lookup j a.procs ≡ some p
      → (lookup j b.procs ≡ some p) ⊎ (mem p.pid b.terminated ≡ true))
    × ((q : ℕ) → mem q a.terminated ≡ true → mem q b.terminated ≡ true)

Stops-trans : (a b c : SubprocessAdapter) → Stops a b → Stops b c → Stops a c
Stops-trans a b c (kept, more) (kept', more') = (
  (λ j p e. elim (kept j p e) [ inl here ↦ kept' j p here | inr gone ↦ inr (more' p.pid gone) ]),
  (λ q h. more' q (more q h)),
)

same_process :
    (p q : ProcInfo) {x : Option ProcInfo} (pids : List ℕ)
    → x ≡ some p
    → x ≡ some q
    → mem q.pid (p.pid ∷ pids) ≡ true
same_process p q pids e e' = let same : p.pid ≡ q.pid = cc in ground arith

stopped-Stops :
    (path : Text) (a : SubprocessAdapter) (p : ProcInfo)
    → lookup path a.procs ≡ some p
    → Stops a (stopped path p a)
stopped-Stops path a p e = (
  (λ j q at. elim (text_dec path j) [
    | yes same ↦
        inr (same_process p q a.terminated (subst (λ k. lookup k a.procs ≡ some p) same e) at)
    | no differ ↦ inl (ground (arith, lookup-erase j path a.procs))
  ]),
  (λ q h. ground arith),
)

-- What Stop leaves, when the mutex is free.
stop_leaves :
    (path : Text) (a : SubprocessAdapter)
    → a.locked ≡ false
    → (b : SubprocessAdapter) × (stop path a ≡ some (tt, b))
      × (b.locked ≡ false)
      × ((j : Text) → lookup j b.procs ≡ (if text_eq path j then none else lookup j a.procs))
      × Stops a b
unfolding stop
stop_leaves path a h = elim (Option-cases (lookup path a.procs)) [
  | inl e ↦ (
    record a { locked = false },
    ground arith,
    refl,
    (λ j. ground arith),
    ((λ j p e. inl e), (λ q h. h)),
  )
  | inr (p, e) ↦ (
    stopped path p a,
    ground arith,
    refl,
    (λ j. lookup-erase j path a.procs),
    stopped-Stops path a p e,
  )
]

-- Stop returns when the mutex is free; afterwards the path has no entry, every other path has the one
-- it had, and the mutex is free.
pub stop_lem :
    (path : Text) (a : SubprocessAdapter)
    → a.locked ≡ false
    → (b : SubprocessAdapter) × (stop path a ≡ some (tt, b))
      × (b.locked ≡ false)
      × ((j : Text) → lookup j b.procs ≡ (if text_eq path j then none else lookup j a.procs))
stop_lem path a h = let (b, e, free, at, ends) = stop_leaves path a h in (b, e, free, at)

abbrev listed : Text → List Text → Bool
listed j [] = false
listed j (k ∷ ks) = text_eq k j || listed j ks

stop_each_lem :
    (ks : List Text) (a : SubprocessAdapter)
    → a.locked ≡ false
    → (b : SubprocessAdapter) × (stop_each ks a ≡ some (tt, b))
      × (b.locked ≡ false)
      × ((j : Text) → lookup j b.procs ≡ (if listed j ks then none else lookup j a.procs))
      × Stops a b
unfolding stop_each
stop_each_lem [] a h = (a, refl, h, (λ j. refl), ((λ j p e. inl e), (λ q h. h)))
stop_each_lem (k ∷ ks) a h =
    let (b, e, free, at, ends) = stop_leaves k a h in
    let (c, e', free', at', ends') = stop_each_lem ks b free in
    (
      c,
      (>>=-some (stop k) (λ _. stop_each ks) a e ∙ e'),
      free',
      (λ j. ground (arith, at j, at' j)),
      Stops-trans a b c ends ends',
    )

lookup-paths :
    (j : Text) (m : List (Text × ProcInfo))
    → (if listed j (paths m) then none else lookup j m) ≡ none
unfolding lookup
lookup-paths j [] = refl
lookup-paths j ((k, p) ∷ m) = ground (arith, lookup-paths j m)

gone_or_kept :
    {x : Option ProcInfo} (p : ProcInfo) (pids : List ℕ)
    → x ≡ none
    → (x ≡ some p) ⊎ (mem p.pid pids ≡ true)
    → mem p.pid pids ≡ true
gone_or_kept p pids e (inl h) = absurd cc
gone_or_kept p pids e (inr h) = h

-- StopAll returns when the mutex is free: there is no entry at all, and every process that had one has
-- been terminated and waited for.
pub stop_all_lem :
    (a : SubprocessAdapter)
    → a.locked ≡ false
    → (b : SubprocessAdapter) × (stop_all a ≡ some (tt, b))
      × (b.locked ≡ false)
      × ((j : Text) → lookup j b.procs ≡ none)
      × ((j : Text) (p : ProcInfo) → lookup j a.procs ≡ some p → mem p.pid b.terminated ≡ true)
unfolding stop_all
stop_all_lem a h =
    let (b, e, free, at, (kept, more)) =
      stop_each_lem (paths a.procs) (record a { locked = false }) refl in
    let empty : (j : Text) → lookup j b.procs ≡ none = λ j. at j ∙ lookup-paths j a.procs in
    (
      b,
      rw (h, stop_all) e,
      free,
      empty,
      (λ j p e'. gone_or_kept p b.terminated (empty j) (kept j p e')),
    )

-- A process that does not answer is stopped with the mutex held, and Stop takes that mutex: the call,
-- made when the mutex is free, never returns, however many rounds it is given.
pub ensure_process_deadlock :
    (fuel : ℕ) (env : SpawnEnv) (path : Text) (a : SubprocessAdapter) (p : ProcInfo)
    → a.locked ≡ false
    → lookup path a.procs ≡ some p
    → is_healthy env.health ≡ false
    → ensure_process fuel env path a ≡ none
unfolding ensure_process stop
ensure_process_deadlock fuel env path a p free here sick = ground arith
