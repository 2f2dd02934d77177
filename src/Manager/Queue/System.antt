-- ===== src/Manager/Queue/System.antt =====
-- Any number of requests at one instance, in any interleaving of their steps
-- (internal/manager/queue_admission.go): one generation at a time, no more requests than the queue has
-- slots, and no slot lost.
use modeld_go.Common.{
  replicate, sym, ◌∙◌, ℕ, zero, suc, ◌+◌, ◌≤◌, ◌≡◌, refl, Bool, true, false, Option, none, some,
  List, [], ◌∷◌, Text, arith, count_if, All,
}
use modeld_go.Manager.Queue.{
  Slots, Phase, arriving, waiting, running, abandoning, leaving, done, Wake, advance,
}

pub record System : Type 0 where
  pub slots : Slots
  pub requests : List Phase

abbrev pub runs : Phase → Bool
runs running = true
runs _ = false

-- The request has a queue slot.
abbrev pub holds : Phase → Bool
holds waiting = true
holds running = true
holds (abandoning e) = true
holds leaving = true
holds _ = false

-- One step of the request at a position.
unfoldable pub step_in : Text → ℕ → Wake → Slots → List Phase → Option (Slots × List Phase)
step_in id n w s [] = none
step_in id zero w s (p ∷ ps) = elim (advance id w s p) [
  | none ↦ none
  | some (t, q) ↦ some (t, q ∷ ps)
]
step_in id (suc n) w s (p ∷ ps) = elim (step_in id n w s ps) [
  | none ↦ none
  | some (t, qs) ↦ some (t, p ∷ qs)
]

-- A schedule names a request and what wakes it; a step that cannot be made is passed over.
abbrev pub after : System → Option (Slots × List Phase) → System
after c none = c
after c (some (t, qs)) = record { slots = t; requests = qs }

unfoldable pub run : Text → List (ℕ × Wake) → System → System
unfolding step_in
run id [] c = c
run id ((n, w) ∷ ws) c = run id ws (after c (step_in id n w c.slots c.requests))

-- The channels hold one item for each slot that a request has, within their capacities.
pub record Inv (c : System) : Type 0 where
  pub queue : c.slots.queue_len ≡ count_if holds c.requests
  pub gen : c.slots.gen_len ≡ count_if runs c.requests
  pub queue_bound : c.slots.queue_len ≤ c.slots.queue_cap
  pub gen_bound : c.slots.gen_len ≤ 1

abbrev weight : Bool → ℕ
weight true = 1
weight false = 0

-- How one step moves the channels.
record Moves (s t : Slots) (a b c d : ℕ) : Type 0 where
  queue : t.queue_len + a ≡ s.queue_len + b
  gen : t.gen_len + c ≡ s.gen_len + d
  cap : t.queue_cap ≡ s.queue_cap
  queue_bound : s.queue_len ≤ s.queue_cap → t.queue_len ≤ t.queue_cap
  gen_bound : s.gen_len ≤ 1 → t.gen_len ≤ 1

advance-Moves :
    (id : Text) (w : Wake) (s t : Slots) (p q : Phase)
    → advance id w s p ≡ some (t, q)
    → Moves s t (weight (holds p)) (weight (holds q)) (weight (runs p)) (weight (runs q))
unfolding advance
advance-Moves id w s t p q e = ground arith

-- What a step of one request, and of one of a list, leaves, if it can be made.
abbrev FitsOne : Slots → Phase → Option (Slots × Phase) → Type 0
FitsOne s p none = Unit
FitsOne s p (some (t, q)) =
    Moves s t (weight (holds p)) (weight (holds q)) (weight (runs p)) (weight (runs q))

abbrev FitsAll : Slots → List Phase → Option (Slots × List Phase) → Type 0
FitsAll s ps none = Unit
FitsAll s ps (some (t, qs)) =
    Moves s t (count_if holds ps) (count_if holds qs) (count_if runs ps) (count_if runs qs)

advance-FitsOne :
    (id : Text) (w : Wake) (s : Slots) (p : Phase) (r : Option (Slots × Phase))
    → advance id w s p ≡ r
    → FitsOne s p r
advance-FitsOne id w s p none e = tt
advance-FitsOne id w s p (some (t, q)) e = advance-Moves id w s t p q e

count_weight :
    (f : Phase → Bool) (p : Phase) (ps : List Phase)
    → count_if f (p ∷ ps) ≡ weight (f p) + count_if f ps
count_weight f p ps = ground arith

first_goes :
    (s t : Slots) (p q : Phase) (ps : List Phase)
    → Moves s t (weight (holds p)) (weight (holds q)) (weight (runs p)) (weight (runs q))
    → FitsAll s (p ∷ ps) (some (t, q ∷ ps))
first_goes s t p q ps m = record {
  queue = omega (arith, m.queue, count_weight holds p ps, count_weight holds q ps);
  gen = omega (arith, m.gen, count_weight runs p ps, count_weight runs q ps);
  cap = m.cap;
  queue_bound = m.queue_bound;
  gen_bound = m.gen_bound;
}

tail_moves :
    (s t : Slots) (p : Phase) (ps qs : List Phase)
    → FitsAll s ps (some (t, qs))
    → FitsAll s (p ∷ ps) (some (t, p ∷ qs))
tail_moves s t p ps qs m = record {
  queue = omega (arith, m.queue, count_weight holds p ps, count_weight holds p qs);
  gen = omega (arith, m.gen, count_weight runs p ps, count_weight runs p qs);
  cap = m.cap;
  queue_bound = m.queue_bound;
  gen_bound = m.gen_bound;
}

step_in-FitsAll :
    (id : Text) (n : ℕ) (w : Wake) (s : Slots) (ps : List Phase)
    → FitsAll s ps (step_in id n w s ps)
unfolding step_in
step_in-FitsAll id n w s [] = tt
step_in-FitsAll id zero w s (p ∷ ps) = go (advance id w s p) (advance-FitsOne id w s p _ refl)
  where
    go :
        (r : Option (Slots × Phase))
        → FitsOne s p r
        → FitsAll s (p ∷ ps) (elim r [ none ↦ none | some (t, q) ↦ some (t, q ∷ ps) ])
    go none m = tt
    go (some (t, q)) m = first_goes s t p q ps m
step_in-FitsAll id (suc n) w s (p ∷ ps) = go (step_in id n w s ps) (step_in-FitsAll id n w s ps)
  where
    go :
        (r : Option (Slots × List Phase))
        → FitsAll s ps r
        → FitsAll s (p ∷ ps) (elim r [ none ↦ none | some (t, qs) ↦ some (t, p ∷ qs) ])
    go none m = tt
    go (some (t, qs)) m = tail_moves s t p ps qs m

after-Inv :
    (c : System) (o : Option (Slots × List Phase))
    → Inv c
    → FitsAll c.slots c.requests o
    → Inv (after c o)
after-Inv c none v m = v
after-Inv c (some (t, qs)) v m = record {
  queue = omega (arith, v.queue, m.queue);
  gen = omega (arith, v.gen, m.gen);
  queue_bound = m.queue_bound v.queue_bound;
  gen_bound = m.gen_bound v.gen_bound;
}

-- Whatever requests there are and however their steps interleave, the channels hold exactly the slots
-- that the requests have, so that at most one generation runs and the queue keeps to its capacity.
pub run-Inv : (id : Text) (ws : List (ℕ × Wake)) (c : System) → Inv c → Inv (run id ws c)
unfolding run
run-Inv id [] c v = v
run-Inv id ((n, w) ∷ ws) c v =
    run-Inv id ws _ (after-Inv c _ v (step_in-FitsAll id n w c.slots c.requests))

-- A system in which every request is still to come and the channels are empty.
abbrev pub starts : ℕ → ℕ → System
starts cap n = record {
  slots = record { queue_len = 0; queue_cap = cap; gen_len = 0 };
  requests = replicate n arriving;
}

starts-Inv : (cap n : ℕ) → Inv (starts cap n)
starts-Inv cap n = record {
  queue = sym (none_count holds refl n);
  gen = sym (none_count runs refl n);
  queue_bound = omega arith;
  gen_bound = omega arith;
}
  where
    none_count :
        (f : Phase → Bool) → f arriving ≡ false → (n : ℕ) → count_if f (replicate n arriving) ≡ 0
    none_count f e zero = refl
    none_count f e (suc n) = rw e (none_count f e n)

abbrev pub is_done : Phase → Bool
is_done (done r) = true
is_done _ = false

done_counts :
    (ps : List Phase)
    → All (λ p. is_done p ≡ true) ps
    → (count_if holds ps ≡ 0) × (count_if runs ps ≡ 0)
done_counts [] h = (refl, refl)
done_counts (p ∷ ps) h = ground (arith, done_counts ps h.1)

run-cap :
    (id : Text) (ws : List (ℕ × Wake)) (c : System)
    → (run id ws c).slots.queue_cap ≡ c.slots.queue_cap
unfolding run
run-cap id [] c = refl
run-cap id ((n, w) ∷ ws) c =
    run-cap id ws _ ∙ cap_after c _ (step_in-FitsAll id n w c.slots c.requests)
  where
    cap_after :
        (c : System) (o : Option (Slots × List Phase))
        → FitsAll c.slots c.requests o
        → (after c o).slots.queue_cap ≡ c.slots.queue_cap
    cap_after c none m = refl
    cap_after c (some (t, qs)) m = m.cap

-- From empty channels, after any schedule: at most one of the requests generates, and those that have
-- a queue slot are no more than the capacity.
pub admission :
    (id : Text) (cap n : ℕ) (ws : List (ℕ × Wake))
    → let c = run id ws (starts cap n) in
      (count_if runs c.requests ≤ 1) × (count_if holds c.requests ≤ cap)
admission id cap n ws =
    let v = run-Inv id ws (starts cap n) (starts-Inv cap n) in
    (
      omega (arith, v.gen, v.gen_bound),
      omega (arith, v.queue, v.queue_bound, run-cap id ws (starts cap n)),
    )

-- From empty channels, whatever the schedule was: once all requests are done, with an error or without,
-- both channels are empty again.
pub released_at_end :
    (id : Text) (cap n : ℕ) (ws : List (ℕ × Wake))
    → All (λ p. is_done p ≡ true) (run id ws (starts cap n)).requests
    → let c = run id ws (starts cap n) in (c.slots.queue_len ≡ 0) × (c.slots.gen_len ≡ 0)
released_at_end id cap n ws over =
    let v = run-Inv id ws (starts cap n) (starts-Inv cap n) in
    let (a, b) = done_counts _ over in (v.queue ∙ a, v.gen ∙ b)
