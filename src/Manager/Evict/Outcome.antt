-- ===== src/Manager/Evict/Outcome.antt =====
-- What evictUntilFits leaves (internal/manager/instance_evict.go).
use mathlib.Core.Path.{subst}
use modeld_go.Common.{
  Bool-cases, Option-cases, ℕ, zero, suc, ◌+◌, ◌<◌, ◌≡◌, ◌∙◌, refl, true, false, Option, none, some,
  ◌⊎◌, inl, inr, arith, All, Text, ltb, ltb→lt, ap, length, pos, ◌+ℤ◌, int_laws, pos_part, neg_part,
}
use modeld_go.Errors.{Error}
use modeld_go.Config.{second}
use modeld_go.Manager.{Manager, Instance, Adapter}
use modeld_go.Manager.Instances.{
  find, Distinct, total_est, get_model_by_id, find-erase, erase-Distinct, total_est-erase,
  length-erase,
}
use modeld_go.Manager.Evict.{
  is_busy, pick_lru, stop_runtime_lem, IsFree, fits, remove_victim, no_room, evict_loop,
  evict_until_fits,
}
use modeld_go.Manager.Evict.Victim.{IsVictim, pick_lru-IsVictim}

-- How eviction may change the manager: only the map, the books and the adapter; nothing enters the
-- map, busy instances stay, and the books change by what left the map.
pub record Evicts (m n : Manager) : Type 0 where
  pub frame :
      n ≡ record m { instances = n.instances; used_est_mb = n.used_est_mb; adapter = n.adapter }
  pub books :
      n.used_est_mb +ℤ pos (total_est m.instances) ≡ m.used_est_mb +ℤ pos (total_est n.instances)
  pub kept :
      (j : Text) (i : Instance)
      → find j m.instances ≡ some i
      → is_busy i ≡ true
      → find j n.instances ≡ some i
  pub nothing_new :
      (j : Text) (i : Instance) → find j n.instances ≡ some i → find j m.instances ≡ some i
  pub distinct : Distinct n.instances
  pub free : IsFree n.adapter

Evicts-refl : (m : Manager) → Distinct m.instances → IsFree m.adapter → Evicts m m
Evicts-refl m d f = record {
  frame = refl;
  books = refl;
  kept = λ j i e _. e;
  nothing_new = λ j i e. e;
  distinct = d;
  free = f;
}

Evicts-trans : {m n o : Manager} → Evicts m n → Evicts n o → Evicts m o
Evicts-trans {m} {n} {o} a b = record {
  frame =
      b.frame
      ∙ ap
          (λ (x : Manager). record x {
            instances = o.instances;
            used_est_mb = o.used_est_mb;
            adapter = o.adapter;
          })
          a.frame;
  books = omega (
    int_laws,
    ap pos_part a.books,
    ap neg_part a.books,
    ap pos_part b.books,
    ap neg_part b.books,
  );
  kept = λ j i e busy. b.kept j i (a.kept j i e busy) busy;
  nothing_new = λ j i e. a.nothing_new j i (b.nothing_new j i e);
  distinct = b.distinct;
  free = b.free;
}

remove_victim-Evicts :
    (m : Manager) (l : Instance) (ad : Adapter)
    → Distinct m.instances
    → find l.id m.instances ≡ some l
    → is_busy l ≡ false
    → IsFree ad
    → Evicts m (remove_victim l (record m { adapter = ad }))
unfolding remove_victim
remove_victim-Evicts m l ad d here idle f = record {
  frame = refl;
  books = omega (int_laws, total_est-erase l.id m.instances l here);
  kept = λ j i e busy. ground (arith, find-erase j l.id m.instances d);
  nothing_new = λ j i e. ground (arith, find-erase j l.id m.instances d);
  distinct = erase-Distinct l.id m.instances d;
  free = f;
}

-- What the call returns: on success the required amount fits, or the deadline has passed; on failure
-- it does not fit, and every instance that is left runs or queues a request.
abbrev pub Answers : (ℕ → ℕ) → ℕ → ℕ → Manager → Option Error → Type 0
Answers clock deadline required n none = (fits n required ≡ true) ⊎ ((k : ℕ) × (deadline < clock k))
Answers clock deadline required n (some e) =
    (e ≡ no_room) × (fits n required ≡ false) × All (λ i. is_busy i ≡ true) n.instances

abbrev pub Returns : (ℕ → ℕ) → ℕ → ℕ → Manager → Option (Manager × Option Error) → Type 0
Returns clock deadline required m none = ⊥
Returns clock deadline required m (some (n, r)) = Evicts m n × Answers clock deadline required n r

module _ (clock : ℕ → ℕ) (deadline required : ℕ) where
  Returns-trans :
      {m n : Manager} (r : Option (Manager × Option Error))
      → Evicts m n
      → Returns clock deadline required n r
      → Returns clock deadline required m r
  Returns-trans none ev h = h
  Returns-trans (some (o, e)) ev (h, a) = (Evicts-trans ev h, a)

  -- One round in which something is evicted; `later` is what the next rounds give.
  evict_round :
      (fuel k : ℕ) (m : Manager) (l : Instance)
      → Distinct m.instances
      → IsFree m.adapter
      → IsVictim m.instances (some l)
      → fits m required ≡ false
      → pick_lru none m.instances ≡ some l
      → ((n : Manager)
          → Evicts m n
          → length n.instances + 1 ≡ length m.instances
          → Returns clock deadline required n (evict_loop clock deadline required fuel (k + 1) n))
      → Returns clock deadline required m (evict_loop clock deadline required (suc fuel) k m)
  unfolding evict_loop
  evict_round fuel k m l d f (here, idle, _) full picked later =
      let (ad, e, free) = stop_runtime_lem m.adapter (get_model_by_id l.id m.registry) f in
      let ev = remove_victim-Evicts m l ad d here idle free in
      let len = removed m l ad here in
      elim (Bool-cases (ltb deadline (clock k))) [
        | inl late ↦ rw (full, picked, e, late, evict_loop) (ev, inr (k, ltb→lt _ _ late))
        | inr early ↦ rw (full, picked, e, early, evict_loop) (Returns-trans _ ev (later _ ev len))
      ]
    where
      removed :
          (m : Manager) (l : Instance) (ad : Adapter)
          → find l.id m.instances ≡ some l
          → length (remove_victim l (record m { adapter = ad })).instances + 1 ≡ length m.instances
      removed m l ad here = unfold remove_victim in length-erase l.id m.instances l here

  evict_loop-Returns :
      (fuel k : ℕ) (m : Manager)
      → Distinct m.instances
      → IsFree m.adapter
      → length m.instances < fuel
      → Returns clock deadline required m (evict_loop clock deadline required fuel k m)
  unfolding evict_loop
  evict_loop-Returns zero k m d f lt = elim lt [ ]
  evict_loop-Returns (suc fuel) k m d f lt = elim (Bool-cases (fits m required)) [
    | inl room ↦ rw (room, evict_loop) (Evicts-refl m d f, inl room)
    | inr full ↦ elim (Option-cases (pick_lru none m.instances)) [
      | inl nobody ↦
          rw (full, nobody, evict_loop)
            (
              Evicts-refl m d f,
              (refl, full, subst (IsVictim m.instances) nobody (pick_lru-IsVictim m.instances d)),
            )
      | inr (l, picked) ↦
          evict_round fuel k m l d f
            (subst (IsVictim m.instances) picked (pick_lru-IsVictim m.instances d)) full picked
            λ n ev len. evict_loop-Returns fuel (k + 1) n ev.distinct ev.free (omega arith)
    ]
  ]

-- evictUntilFits returns, whatever the clock does, when the keys of the map are distinct and the
-- adapter's mutex is free. Only idle instances leave the map, each with its estimate taken off the
-- books. On success the required amount fits or the deadline has passed; an error means that it does
-- not fit and no idle instance is left.
pub evict_until_fits_lem :
    (start : ℕ) (clock : ℕ → ℕ) (required : ℕ) (m : Manager)
    → Distinct m.instances
    → IsFree m.adapter
    → Returns clock (start + second) required m (evict_until_fits start clock required m)
unfolding evict_until_fits
evict_until_fits_lem start clock required m d f =
    evict_loop-Returns clock (start + second) required (suc (length m.instances)) 0 m d f
      (omega arith)
