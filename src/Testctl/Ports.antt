-- ===== src/Testctl/Ports.antt =====
-- The ports that the tests use (internal/testctl/ports.go).
use modeld_go.Common.{
  ℕ, zero, suc, ◌+◌, ◌*◌, ◌/◌, Bool, false, Option, none, some, List, [], ◌∷◌, ◌++◌, Text, codes,
  decimal, ℤ, pos, leb_ℤ, if◌then◌else◌,
}
use modeld_go.Errors.{Error, plain, ok}
use modeld_go.Testctl.{Machine, dialed, fetched, Script, pure, fail, gets, ◌>>=◌, ◌>>◌, ◌>>?◌}
use modeld_go.Testctl.Run.{info, warn, run_cmd_verbose}

abbrev pub millisecond : ℕ
millisecond = 1000000

abbrev pub second : ℕ
second = 1000000000

abbrev pub timed_out : Text → ℤ → Error
timed_out url want =
    plain (codes "timed out waiting for " ++ (url ++ (codes " to return " ++ decimal want)))

-- In the place of a result where the fuel of a loop has run out: no error of the code has this text.
abbrev pub not_returned : Error
not_returned = plain (codes "waitHTTP has not returned")

abbrev pub is_code : ℤ → Option ℤ → Bool
is_code want none = false
is_code want (some code) = if leb_ℤ code want then leb_ℤ want code else false

module _ {W : Type 0} (m : Machine W) where
  unfoldable pub choose_free_port : Script W ℤ
  choose_free_port s = let (w, r) = m.listen s.world in (record s { world = w }, r)

  unfoldable pub is_port_busy : ℤ → Script W Bool
  is_port_busy port s =
      let (w, busy) = m.dial port s.world in
      (record s { world = w; trace = dialed port busy ∷ s.trace }, ok busy)

  unfoldable pub pause : ℕ → Script W (Unit {0})
  pause d s = (record s { world = m.sleep d s.world }, ok tt)

  -- The listeners of a port have been killed.
  unfoldable pub recheck : ℤ → Script W (Unit {0})
  recheck p = do
    pause (300 * millisecond)
    busy2 ← is_port_busy p
    if busy2
        then fail (plain (codes "could not free port " ++ (decimal p ++ codes "; still in use")))
        else info m (codes "[ports] Freed port " ++ decimal p)

  -- A port that is busy.
  unfoldable pub occupied : Bool → ℤ → Script W (Unit {0})
  occupied force p = do
    warn m (codes "[ports] Port " ++ (decimal p ++ codes " is busy: tcp listener detected"))
    if force
        then (do
          info m (codes "[ports] --force set; attempting to kill listeners on :" ++ decimal p)
          run_cmd_verbose m (codes "fuser") (codes "-k" ∷ (decimal p ++ codes "/tcp") ∷ []) >>? λ _.
              recheck p)
        else fail (
            plain
              (codes "port " ++ (decimal p ++ codes " is in use; re-run with --force or free it")))

  -- The body of the loop of ensurePorts.
  unfoldable pub ensure_port : Bool → ℤ → Script W (Unit {0})
  ensure_port force p = do
    busy ← is_port_busy p
    if busy
        then occupied force p
        else info m (codes "[ports] Port " ++ (decimal p ++ codes " is free"))

  unfoldable pub ensure_ports : List ℤ → Bool → Script W (Unit {0})
  ensure_ports [] force = pure tt
  ensure_ports (p ∷ ps) force = do ensure_port force p; ensure_ports ps force

  unfoldable pub prefer_or_free : ℤ → Script W ℤ
  prefer_or_free desired = if leb_ℤ desired (pos 0) then choose_free_port else do
    busy ← is_port_busy desired
    if busy
        then (do
          p ← choose_free_port
          warn m (
              codes "[ports] "
              ++ (decimal desired ++ (codes " busy; using free port " ++ decimal p)))
          pure p)
        else pure desired

  -- One request: its status, if there was a response.
  unfoldable pub fetch : Text → Script W (Option ℤ)
  fetch url s =
      let (w, code) = m.get url s.world in
      (record s { world = w; trace = fetched url code ∷ s.trace }, ok code)

  -- The select: whether the context was done before a second had passed.
  unfoldable pub wait_second : ℕ → Script W Bool
  wait_second deadline s =
      let (w, done) = m.wait deadline s.world in (record s { world = w }, ok done)

  -- The rounds of the loop of waitHTTP; `none` is a loop that has not ended.
  unfoldable pub wait_rounds : ℕ → Text → ℤ → ℕ → Script W (Option (Unit {0}))
  wait_rounds zero url want deadline = pure none
  wait_rounds (suc fuel) url want deadline = do
    code ← fetch url
    if is_code want code then pure (some tt) else do
      done ← wait_second deadline
      if done then fail (timed_out url want) else wait_rounds fuel url want deadline

  -- A loop that has not ended gives no result of the code; `not_returned` stands for that.
  abbrev pub ended : Text → ℤ → Option (Unit {0}) → Script W (Unit {0})
  ended url want (some _) = pure tt
  ended url want none = fail not_returned

  -- Each round that does not end the loop takes a second.
  unfoldable pub wait_http : Text → ℤ → ℕ → Script W (Unit {0})
  wait_http url want timeout = do
    start ← gets m.now
    done ← wait_rounds (timeout / second + 2) url want (start + timeout)
    ended url want done
