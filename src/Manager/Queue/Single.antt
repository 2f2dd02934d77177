-- ===== src/Manager/Queue/Single.antt =====
-- One call of beginGeneration and its release, with no other call in between
-- (internal/manager/queue_admission.go).
use modeld_go.Common.{
  ℕ, ◌+◌, ◌-◌, ◌<◌, ◌≡◌, refl, Option, none, some, Text, arith, ltb, ltb→lt, Option-cases,
  Bool-cases, ◌⊎◌, inl, inr,
}
use modeld_go.Errors.{Error, too_busy, Result, ok, err}
use modeld_go.Manager.{Manager, Instance}
use modeld_go.Manager.Instances.{find, update_at, is_draining, find-update_at_self}
use modeld_go.Manager.Queue.{
  Slots, Phase, arriving, waiting, running, abandoning, leaving, done, Wake, slot, timer, context,
  finish, advance, GenEnv, select, abandon, wake_of, request, slots_of, with_slots, answer,
  begin_generation, release,
}

-- A call ends with both slots, or with an error and the channels as they were.
abbrev pub Admitted : Slots → Slots × Phase → Type 0
Admitted s (t, running) =
    (t.queue_len ≡ s.queue_len + 1)
    × (t.gen_len ≡ s.gen_len + 1)
    × (t.queue_cap ≡ s.queue_cap)
    × (s.queue_len < s.queue_cap)
    × (s.gen_len ≡ 0)
Admitted s (t, done (some e)) = t ≡ s
Admitted s (t, p) = ⊥

abbrev queued : Slots → Slots
queued s = record s { queue_len = s.queue_len + 1 }

first_half :
    (id : Text) (w : Wake) (s : Slots)
    → ((select id w s arriving ≡ (queued s, waiting)) × (s.queue_len < s.queue_cap))
      ⊎ ((e : Error) × (select id w s arriving ≡ (s, done (some e))))
unfolding advance
first_half id slot s = elim (Bool-cases (ltb s.queue_len s.queue_cap)) [
  | inl room ↦ inl (ground arith, ltb→lt _ _ room)
  | inr full ↦ inr (too_busy id, ground arith)
]
first_half id timer s = inr (too_busy id, refl)
first_half id (context e) s = inr (e, refl)
first_half id finish s = inr (too_busy id, refl)

second_half :
    (id : Text) (w : Wake) (s : Slots)
    → ((abandon id (select id w (queued s) waiting)
          ≡ (record (queued s) { gen_len = s.gen_len + 1 }, running))
        × (s.gen_len ≡ 0))
      ⊎ ((e : Error) × (abandon id (select id w (queued s) waiting) ≡ (s, done (some e))))
unfolding advance
second_half id slot s = elim (Bool-cases (ltb s.gen_len 1)) [
  | inl idle ↦ inl (ground arith, ground arith)
  | inr busy ↦ inr (too_busy id, ground arith)
]
second_half id timer s = inr (too_busy id, ground arith)
second_half id (context e) s = inr (e, ground arith)
second_half id finish s = inr (too_busy id, ground arith)

-- Every call of the two halves ends admitted or refused. A refused one leaves the channels as they
-- were; an admitted one has put one item into each, where there was room.
pub request-Admitted : (id : Text) (env : GenEnv) (s : Slots) → Admitted s (request id env s)
unfolding request
request-Admitted id env s = elim (first_half id (wake_of env.first_check env.first) s) [
  | inr (e, q) ↦ rw q refl
  | inl (q, room) ↦ elim (second_half id (wake_of env.second_check env.second) s) [
    | inr (e, q') ↦ rw (q, q') refl
    | inl (q', idle) ↦ rw (q, q') (refl, refl, refl, room, idle)
  ]
]

-- The channels of the instance of an id.
abbrev pub channels : Text → Manager → Option Slots
channels id m = elim (find id m.instances) [ none ↦ none | some i ↦ some (slots_of i) ]

-- What a call leaves of the channels: with an error, nothing has changed; with no error, the instance
-- had a free slot of each kind, and giving both back restores its channels.
abbrev pub Balanced : Text → Manager → Manager × Result ℕ → Type 0
Balanced id m (n, err e) = channels id n ≡ channels id m
Balanced id m (n, ok ref) = channels id (release ref n) ≡ channels id m

answer-Balanced :
    (id : Text) (now : ℕ) (m : Manager) (i : Instance) (r : Slots × Phase)
    → find id m.instances ≡ some i
    → Admitted (slots_of i) r
    → Balanced id m (answer now i.ref m r)
unfolding answer release
answer-Balanced id now m i (t, running) here (a, b, c, d, e) =
    let given = record (with_slots t i) { last_used = now } in
    let first =
      find-update_at_self (λ j. record (with_slots t j) { last_used = now }) (λ j. (refl, refl)) id
        m.instances i here in
    let second =
      find-update_at_self (λ j. record j { gen_len = j.gen_len - 1; queue_len = j.queue_len - 1 })
        (λ j. (refl, refl)) id
        (update_at i.ref (λ j. record (with_slots t j) { last_used = now }) m.instances) given
        first in
    ground (arith, second)
answer-Balanced id now m i (t, done (some e)) here same =
    ground (arith, find-update_at_self (with_slots t) (λ j. (refl, refl)) id m.instances i here)
answer-Balanced id now m i (t, done none) here h = absurd h
answer-Balanced id now m i (t, arriving) here h = absurd h
answer-Balanced id now m i (t, waiting) here h = absurd h
answer-Balanced id now m i (t, abandoning e) here h = absurd h
answer-Balanced id now m i (t, leaving) here h = absurd h

-- A call of beginGeneration that fails leaves the instance's channels as they were, and one that
-- succeeds leaves them so that its release restores them.
pub begin_generation-Balanced :
    (env : GenEnv) (id : Text) (m : Manager) → Balanced id m (begin_generation env id m)
unfolding begin_generation
begin_generation-Balanced env id m = elim (Option-cases (find id m.instances)) [
  | inl gone ↦ rw (gone, begin_generation) refl
  | inr (i, here) ↦ elim (Bool-cases (is_draining i.state)) [
    | inl drains ↦ rw (here, drains, begin_generation) refl
    | inr open_ ↦
        rw (here, open_, begin_generation)
          (answer-Balanced id env.now m i _ here (request-Admitted id env (slots_of i)))
  ]
]
