-- ===== src/Manager/Queue.antt =====
-- internal/manager/queue_admission.go: a request takes one of the queue slots of an instance, then its
-- only generation slot, and gives both back. The steps of one request are a function, so that both a
-- single call and any interleaving of calls are made of them.
pub mod System
pub mod Progress
pub mod Single
use modeld_go.Common.{
  ℕ, zero, suc, ◌+◌, ◌-◌, ◌≡◌, refl, Bool, true, false, Option, none, some, Text, if◌then◌else◌,
  ltb,
}
use modeld_go.Errors.{Error, too_busy, model_not_found, Result, ok, err}
use modeld_go.Manager.{Manager, Instance}
use modeld_go.Manager.Instances.{find, update_at, is_draining}

-- The channels of an instance: `queueCh`, with its capacity, and `genCh`, whose capacity is 1.
pub record Slots : Type 0 where
  pub queue_len : ℕ
  pub queue_cap : ℕ
  pub gen_len : ℕ

-- Where a request stands: before the first select; with a queue slot, before the second; with both
-- slots; with an error, its queue slot not yet given back; after the first receive of the release; and
-- at the end, with the error if there was one.
pub data Phase : Type 0 where
  arriving : Phase
  waiting : Phase
  running : Phase
  abandoning : Error → Phase
  leaving : Phase
  done : Option Error → Phase

-- Which case a select takes, or that the generation is over.
pub data Wake : Type 0 where
  slot : Wake
  timer : Wake
  context : Error → Wake
  finish : Wake

-- One step of a request; `none` if it cannot be made now.
unfoldable pub advance : Text → Wake → Slots → Phase → Option (Slots × Phase)
advance id slot s arriving =
    if ltb s.queue_len s.queue_cap
    then some (record s { queue_len = s.queue_len + 1 }, waiting)
    else none
advance id timer s arriving = some (s, done (some (too_busy id)))
advance id (context e) s arriving = some (s, done (some e))
advance id slot s waiting =
    if ltb s.gen_len 1 then some (record s { gen_len = s.gen_len + 1 }, running) else none
advance id timer s waiting = some (s, abandoning (too_busy id))
advance id (context e) s waiting = some (s, abandoning e)
advance id finish s (abandoning e) =
    if ltb 0 s.queue_len
    then some (record s { queue_len = s.queue_len - 1 }, done (some e))
    else none
advance id finish s running =
    if ltb 0 s.gen_len then some (record s { gen_len = s.gen_len - 1 }, leaving) else none
advance id finish s leaving =
    if ltb 0 s.queue_len then some (record s { queue_len = s.queue_len - 1 }, done none) else none
advance id _ s _ = none

-- What meets one call of beginGeneration when no other call runs meanwhile: ctx.Err() at its two
-- checks, the case that each select takes, and the clock.
pub record GenEnv : Type 0 where
  pub first_check : Option Error
  pub first : Wake
  pub second_check : Option Error
  pub second : Wake
  pub now : ℕ

-- A select whose send cannot be made waits for the timer.
abbrev pub select : Text → Wake → Slots → Phase → Slots × Phase
select id w s p = elim (advance id w s p) [
  | some r ↦ r
  | none ↦ elim (advance id timer s p) [ some r ↦ r | none ↦ (s, p) ]
]

-- The deferred receive of the queue slot.
abbrev pub abandon : Text → Slots × Phase → Slots × Phase
abandon id (s, abandoning e) = elim (advance id finish s (abandoning e)) [
  | some r ↦ r
  | none ↦ (s, abandoning e)
]
abandon id (s, p) = (s, p)

abbrev pub wake_of : Option Error → Wake → Wake
wake_of none w = w
wake_of (some e) w = context e

-- The second half of beginGeneration, for a request that has a queue slot.
abbrev pub take_gen : Text → GenEnv → Slots × Phase → Slots × Phase
take_gen id env (s, waiting) =
    abandon id (select id (wake_of env.second_check env.second) s waiting)
take_gen id env (s, p) = (s, p)

-- Both halves, after the first check of the context.
unfoldable pub request : Text → GenEnv → Slots → Slots × Phase
request id env s = take_gen id env (select id (wake_of env.first_check env.first) s arriving)

abbrev pub slots_of : Instance → Slots
slots_of i = record { queue_len = i.queue_len; queue_cap = i.queue_cap; gen_len = i.gen_len }

abbrev pub with_slots : Slots → Instance → Instance
with_slots s i = record i { queue_len = s.queue_len; queue_cap = s.queue_cap; gen_len = s.gen_len }

-- The end of beginGeneration: on success `LastUsed` is set, and the answer is the instance's address,
-- which the release function closes over.
unfoldable pub answer : ℕ → ℕ → Manager → Slots × Phase → Manager × Result ℕ
answer now ref m (s, running) = (
  record m {
    instances = update_at ref (λ j. record (with_slots s j) { last_used = now }) m.instances;
  },
  ok ref,
)
answer now ref m (s, done (some e)) =
    (record m { instances = update_at ref (with_slots s) m.instances }, err e)
answer now ref m (s, _) =
    (record m { instances = update_at ref (with_slots s) m.instances }, ok ref)

-- beginGeneration, with no other call in between.
unfoldable pub begin_generation : GenEnv → Text → Manager → Manager × Result ℕ
begin_generation env id m = elim (find id m.instances) [
  | none ↦ (m, err (model_not_found id))
  | some i ↦ elim (is_draining i.state) [
    | true ↦ (m, err (too_busy id))
    | false ↦ answer env.now i.ref m (request id env (slots_of i))
  ]
]

-- The release function: a receive from `genCh`, then one from `queueCh`.
unfoldable pub release : ℕ → Manager → Manager
release ref m = record m {
  instances =
      update_at ref (λ j. record j { gen_len = j.gen_len - 1; queue_len = j.queue_len - 1 })
        m.instances;
}
