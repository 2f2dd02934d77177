-- ===== src/Manager/Queue/Progress.antt =====
-- No request at an instance is stuck (internal/manager/queue_admission.go).
use native.Mathlib.Decide.{dec_lt}
use modeld_go.Common.{
  ◌⊎◌, inl, inr, ◌≤◌, ℕ, zero, suc, ◌+◌, ◌-◌, ◌≡◌, refl, none, some, List, [], ◌∷◌, Text, arith,
  count_if, get_elem?, count_if_pos,
}
use modeld_go.Manager.Queue.{
  Slots, Phase, arriving, waiting, running, abandoning, leaving, done, Wake, slot, finish, advance,
}
use modeld_go.Manager.Queue.System.{System, Inv, holds, runs, step_in}

abbrev CanAdvance : Text → Wake → Slots → Phase → Type 0
CanAdvance id w s p = (t : Slots) × (q : Phase) × (advance id w s p ≡ some (t, q))

-- The request at position `n` can make the step that `w` wakes it for.
abbrev pub CanStep : Text → ℕ → Wake → System → Type 0
CanStep id n w c = (r : Slots × List Phase) × (step_in id n w c.slots c.requests ≡ some r)

step_in-CanStep :
    (id : Text) (w : Wake) (s : Slots) (p : Phase) (n : ℕ) (ps : List Phase)
    → CanAdvance id w s p
    → get_elem? ps n ≡ some p
    → (r : Slots × List Phase) × (step_in id n w s ps ≡ some r)
unfolding step_in
step_in-CanStep id w s p n [] can e = absurd (ground arith)
step_in-CanStep id w s p zero (x ∷ ps) (t, q, go) e = ((t, q ∷ ps), ground arith)
step_in-CanStep id w s p (suc n) (x ∷ ps) can e =
    let ((t, qs), go) = step_in-CanStep id w s p n ps can e in ((t, x ∷ qs), ground arith)

-- What a request may do where it stands.
abbrev pub MayGoOn : Text → ℕ → System → Phase → Type 0
MayGoOn id n c arriving = (c.slots.queue_cap ≤ count_if holds c.requests) ⊎ CanStep id n slot c
MayGoOn id n c waiting = (1 ≤ count_if runs c.requests) ⊎ CanStep id n slot c
MayGoOn id n c running = CanStep id n finish c
MayGoOn id n c (abandoning e) = CanStep id n finish c
MayGoOn id n c leaving = CanStep id n finish c
MayGoOn id n c (done r) = Unit

-- While the channels hold what the requests have, a request that arrives can take a queue slot unless as
-- many requests as the capacity have one; one that waits can start unless one generates; and the
-- receives that give slots back never block.
pub progress :
    (id : Text) (c : System) (n : ℕ) (p : Phase)
    → Inv c
    → get_elem? c.requests n ≡ some p
    → MayGoOn id n c p
unfolding advance
progress id c n arriving v e = elim (dec_lt (count_if holds c.requests) c.slots.queue_cap) [
  | no full ↦ inl (omega arith)
  | yes room ↦ inr (
      step_in-CanStep id slot c.slots arriving n c.requests
        (record c.slots { queue_len = c.slots.queue_len + 1 }, waiting, ground (arith, v.queue)) e)
]
progress id c n waiting v e = elim (dec_lt (count_if runs c.requests) 1) [
  | no busy ↦ inl (omega arith)
  | yes idle ↦ inr (
      step_in-CanStep id slot c.slots waiting n c.requests
        (record c.slots { gen_len = c.slots.gen_len + 1 }, running, ground (arith, v.gen)) e)
]
progress id c n running v e =
    step_in-CanStep id finish c.slots running n c.requests
      (
        record c.slots { gen_len = c.slots.gen_len - 1 },
        leaving,
        ground (arith, v.gen, count_if_pos runs c.requests n running e refl),
      )
      e
progress id c n (abandoning x) v e =
    step_in-CanStep id finish c.slots (abandoning x) n c.requests
      (
        record c.slots { queue_len = c.slots.queue_len - 1 },
        done (some x),
        ground (arith, v.queue, count_if_pos holds c.requests n (abandoning x) e refl),
      )
      e
progress id c n leaving v e =
    step_in-CanStep id finish c.slots leaving n c.requests
      (
        record c.slots { queue_len = c.slots.queue_len - 1 },
        done (none),
        ground (arith, v.queue, count_if_pos holds c.requests n leaving e refl),
      )
      e
progress id c n (done r) v e = tt
