-- ===== src/Testctl/Waiting.antt =====
-- The wait for a server (waitHTTP of internal/testctl/ports.go): when it returns, and with what.
use mathlib.Core.Path.{subst}
use modeld_go.Common.{
  ◌∙◌, append_assoc, ℕ, zero, suc, ◌+◌, ◌*◌, ◌/◌, ◌≤◌, ◌<◌, ◌≡◌, ◌≢◌, refl, sym, true, false,
  Option, none, some, List, [], ◌∷◌, ◌++◌, Text, ℤ, pos, negsuc, arith, All, Bool-cases, inl, inr,
  ap,
}
use modeld_go.Errors.{Result, ok, err}
use modeld_go.Testctl.{
  Machine, Event, ran, started, killed, dialed, fetched, printed, Shell, pure, fail, gets, ◌>>=◌,
}
use modeld_go.Testctl.Ports.{
  second, fetch, wait_second, is_code, wait_rounds, ended, wait_http, timed_out,
}

is_code_lem : (want : ℤ) (code : Option ℤ) → is_code want code ≡ true → code ≡ some want
is_code_lem want none h = cc
is_code_lem (pos a) (some (pos b)) h = ground arith
is_code_lem (pos a) (some (negsuc b)) h = ground arith
is_code_lem (negsuc a) (some (pos b)) h = ground arith
is_code_lem (negsuc a) (some (negsuc b)) h = ground arith

is_code_refl : (want : ℤ) → is_code want (some want) ≡ true
is_code_refl (pos a) = ground arith
is_code_refl (negsuc a) = ground arith

is_code_ne : (want : ℤ) (code : Option ℤ) → is_code want code ≡ false → code ≢ some want
is_code_ne want code h e = cc (is_code_refl want, ap (is_code want) e)

All-append : {A : Type 0} (P : A → Type 0) (xs ys : List A) → All P xs → All P ys → All P (xs ++ ys)
All-append P [] ys h k = k
All-append P (x ∷ xs) ys (p, h) k = (p, All-append P xs ys h k)

-- A request that did not get the status that was wanted.
abbrev pub IsMiss : ℤ → Event → Type 0
IsMiss want (fetched url code) = code ≢ some want
IsMiss want (ran c e) = ⊥
IsMiss want (started p c) = ⊥
IsMiss want (killed p) = ⊥
IsMiss want (dialed p b) = ⊥
IsMiss want (printed t) = ⊥

-- What a wait has done: only requests, all of them in vain but the last one, if it succeeded; or else
-- all of them, until the deadline was over.
abbrev pub Waited :
    {A W : Type 0} → Machine W → Text → ℤ → ℕ → Shell W → Shell W × Result A → Type 0
Waited m url want deadline s (s', ok _) =
    (misses : List Event) × (s'.trace ≡ fetched url (some want) ∷ (misses ++ s.trace))
    × All (IsMiss want) misses
Waited m url want deadline s (s', err e) =
    (misses : List Event) × (s'.trace ≡ misses ++ s.trace)
    × All (IsMiss want) misses
    × (e ≡ timed_out url want)
    × (deadline ≤ m.now s'.world)

abbrev Ended :
    {W : Type 0}
    → Machine W
    → Text
    → ℤ
    → ℕ
    → Shell W
    → Shell W × Result (Option (Unit {0}))
    → Type 0
Ended m url want deadline s (s', ok none) = ⊥
Ended m url want deadline s (s', ok (some u)) =
    Waited {A = Unit {0}} m url want deadline s (s', ok u)
Ended m url want deadline s (s', err e) = Waited {A = Unit {0}} m url want deadline s (s', err e)

-- The clock goes on, a second passes in a wait that the deadline has not ended, a wait after the deadline
-- ends, and a wait that the deadline has ended is over no sooner.
module _ {W : Type 0} (m : Machine W)
    (get_forward : (url : Text) (w : W) → m.now w ≤ m.now (m.get url w).0)
    (wait_forward : (deadline : ℕ) (w : W)
      → (m.wait deadline w).1 ≡ false
      → m.now w + second ≤ m.now (m.wait deadline w).0)
    (wait_over : (deadline : ℕ) (w : W) → deadline ≤ m.now w → (m.wait deadline w).1 ≡ true)
    (wait_done : (deadline : ℕ) (w : W)
      → (m.wait deadline w).1 ≡ true
      → deadline ≤ m.now (m.wait deadline w).0)
    (url : Text) (want : ℤ) (deadline : ℕ) where
  -- After a miss.
  after_miss :
      (code : Option ℤ) (t : List Event) (w : W) (s : Shell W)
      (r : Shell W × Result (Option (Unit {0})))
      → code ≢ some want
      → Ended m url want deadline (record s { world = w; trace = fetched url code ∷ t }) r
      → Ended m url want deadline (record s { trace = t }) r
  after_miss code t w s (s', ok none) miss h = absurd h
  after_miss code t w s (s', ok (some u)) miss (misses, e, all) = (
    misses ++ fetched url code ∷ [],
    e ∙ ap (λ l. fetched url (some want) ∷ l) (sym (append_assoc misses (fetched url code ∷ []) t)),
    All-append _ misses (fetched url code ∷ []) all (miss, tt),
  )
  after_miss code t w s (s', err x) miss (misses, e, all, q, late) = (
    misses ++ fetched url code ∷ [],
    e ∙ sym (append_assoc misses (fetched url code ∷ []) t),
    All-append _ misses (fetched url code ∷ []) all (miss, tt),
    q,
    late,
  )

  -- The shell after a round that got nothing.
  abbrev next_shell : Shell W → Shell W
  next_shell s = record s {
    world = (m.wait deadline (m.get url s.world).0).0;
    trace = fetched url (m.get url s.world).1 ∷ s.trace;
  }

  one_round :
      (fuel : ℕ) (s : Shell W)
      → ((m.wait deadline (m.get url s.world).0).1 ≡ false
          → Ended m url want deadline
              (next_shell s)
              (wait_rounds m fuel url want deadline (next_shell s)))
      → Ended m url want deadline s (wait_rounds m (suc fuel) url want deadline s)
  unfolding wait_rounds fetch wait_second ◌>>=◌ pure fail
  one_round fuel s ih = elim (Bool-cases (is_code want (m.get url s.world).1)) [
    | inl hit ↦ rw hit ([], ap (λ c. fetched url c ∷ s.trace) (is_code_lem want _ hit), tt)
    | inr miss ↦ rw miss (elim (Bool-cases (m.wait deadline (m.get url s.world).0).1) [
      | inl done ↦ rw done (
        fetched url (m.get url s.world).1 ∷ [],
        refl,
        (is_code_ne want _ miss, tt),
        refl,
        wait_done deadline _ done,
      )
      | inr more ↦ rw more (
          after_miss (m.get url s.world).1 s.trace (m.wait deadline (m.get url s.world).0).0 s
            (wait_rounds m fuel url want deadline (next_shell s)) (is_code_ne want _ miss)
            (ih more))
    ])
  ]

  rounds-Ended :
      (fuel : ℕ) (s : Shell W)
      → deadline < m.now s.world + fuel * second
      → Ended m url want deadline s (wait_rounds m (suc fuel) url want deadline s)
  rounds-Ended zero s lt = one_round zero s (λ more.
      cc (more, wait_over deadline (m.get url s.world).0 (omega (arith, get_forward url s.world))))
  rounds-Ended (suc fuel) s lt = one_round (suc fuel) s (λ more.
      rounds-Ended fuel (next_shell s)
        (omega (arith, get_forward url s.world, wait_forward deadline (m.get url s.world).0 more)))

two_more : (n : ℕ) → suc (n + 1) ≡ n + 2
two_more n = omega arith

module _ {W : Type 0} (m : Machine W) (url : Text) (want : ℤ) (deadline : ℕ) where
  finish-Waited :
      (s : Shell W) (r : Shell W × Result (Option (Unit {0})))
      → Ended m url want deadline s r
      → Waited m url want deadline s (((λ _. r) >>= ended m url want) s)
  unfolding ◌>>=◌ pure fail
  finish-Waited s (s', ok none) h = absurd h
  finish-Waited s (s', ok (some tt)) h = h
  finish-Waited s (s', err e) h = h

-- waitHTTP returns: either with no error, after a response with the status that was wanted, which is the
-- first such; or with the error that names the URL and the status, no response had it, and the time limit
-- is over. The clock does not go back in a request, each wait that the deadline has not ended takes a
-- second, a wait after the deadline ends, and a wait that the deadline has ended is over no sooner.
pub wait_http-Waited :
    {W : Type 0} (m : Machine W)
    → ((url : Text) (w : W) → m.now w ≤ m.now (m.get url w).0)
    → ((deadline : ℕ) (w : W)
        → (m.wait deadline w).1 ≡ false
        → m.now w + second ≤ m.now (m.wait deadline w).0)
    → ((deadline : ℕ) (w : W) → deadline ≤ m.now w → (m.wait deadline w).1 ≡ true)
    → ((deadline : ℕ) (w : W)
        → (m.wait deadline w).1 ≡ true
        → deadline ≤ m.now (m.wait deadline w).0)
    → (url : Text) (want : ℤ) (timeout : ℕ) (s : Shell W)
    → Waited m url want (m.now s.world + timeout) s (wait_http m url want timeout s)
unfolding wait_http ◌>>=◌ gets
wait_http-Waited m forward ticks over done url want timeout s =
    let start = m.now s.world in
    let deadline = start + timeout in
    finish-Waited m url want deadline s (wait_rounds m (timeout / second + 2) url want deadline s) (
      subst (λ fuel. Ended m url want deadline s (wait_rounds m fuel url want deadline s))
        (two_more (timeout / second))
        (rounds-Ended m forward ticks over done url want deadline (timeout / second + 1) s
          (omega arith)))
