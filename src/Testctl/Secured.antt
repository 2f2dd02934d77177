-- ===== src/Testctl/Secured.antt =====
-- What ensurePorts promises of its ports (internal/testctl/ports.go).
use modeld_go.Common.{
  ℕ, ◌≡◌, ◌∙◌, refl, ap, Bool, true, false, ◌&&◌, Option, none, some, List, [], ◌∷◌, ◌++◌, Text, ℤ,
  pos, negsuc, leb_ℤ, ltb, ◌*◌, arith, All, Bool-cases, inl, inr, if◌then◌else◌,
}
use modeld_go.Errors.{Result, ok, err}
use modeld_go.Testctl.{
  Machine, Event, ran, started, killed, dialed, fetched, printed, Shell, pure, fail, ◌>>=◌, ◌>>?◌,
}
use modeld_go.Testctl.Run.{logf, info, warn, run_cmd, run_cmd_verbose}
use modeld_go.Testctl.Steps.{after_log}
use modeld_go.Testctl.Ports.{
  millisecond, is_port_busy, pause, recheck, occupied, ensure_port, ensure_ports,
}

abbrev eq_ℤ : ℤ → ℤ → Bool
eq_ℤ a b = leb_ℤ a b && leb_ℤ b a

eq_ℤ_refl : (a : ℤ) → eq_ℤ a a ≡ true
eq_ℤ_refl (pos n) = ground arith
eq_ℤ_refl (negsuc n) = ground arith

eq_ℤ_sound : (a b : ℤ) → eq_ℤ a b ≡ true → a ≡ b
eq_ℤ_sound (pos a) (pos b) h = ground arith
eq_ℤ_sound (pos a) (negsuc b) h = ground arith
eq_ℤ_sound (negsuc a) (pos b) h = ground arith
eq_ℤ_sound (negsuc a) (negsuc b) h = ground arith

-- What the last connection to a port found: whether the port was busy.
abbrev pub last_dial : ℤ → List Event → Option Bool
last_dial p [] = none
last_dial p (dialed q busy ∷ t) = let rest = last_dial p t in if eq_ℤ q p then some busy else rest
last_dial p (ran c e ∷ t) = last_dial p t
last_dial p (started n c ∷ t) = last_dial p t
last_dial p (killed n ∷ t) = last_dial p t
last_dial p (fetched url code ∷ t) = last_dial p t
last_dial p (printed text ∷ t) = last_dial p t

-- That a port was free when it was last tried.
abbrev pub WasFree : List Event → ℤ → Type 0
WasFree t p = last_dial p t ≡ some false

abbrev Stays : List Event → List Event → Type 0
Stays t t' = (q : ℤ) → WasFree t q → WasFree t' q

-- The same, but for one port.
abbrev StaysBut : ℤ → List Event → List Event → Type 0
StaysBut p t t' = (q : ℤ) → eq_ℤ p q ≡ false → WasFree t q → WasFree t' q

-- One port has been seen to.
abbrev Checked : {W : Type 0} → ℤ → Shell W → Shell W × Result (Unit {0}) → Type 0
Checked p s (s', ok _) = WasFree s'.trace p × Stays s.trace s'.trace
Checked p s (s', err e) = last_dial p s'.trace ≡ some true

module _ {W : Type 0} (m : Machine W) where
  last-logf :
      (q : ℤ) (lvl : Text) (min : ℕ) (text : Text) (s : Shell W)
      → last_dial q (logf m lvl min text s).0.trace ≡ last_dial q s.trace
  unfolding logf
  last-logf q lvl min text s = elim (Bool-cases (ltb min s.level)) [ inl h ↦ rw h | inr h ↦ rw h ]

  logged_last :
      (p : ℤ) (lvl : Text) (min : ℕ) (text : Text) (s t : Shell W)
      → WasFree t.trace p
      → Stays s.trace t.trace
      → Checked p s (logf m lvl min text t)
  unfolding logf
  logged_last p lvl min text s t free stays = elim (Bool-cases (ltb min t.level)) [
    | inl h ↦ rw h (free, stays)
    | inr h ↦ rw h (free, stays)
  ]

  -- A port that was dialed and found to be free, or to be busy.
  dialed_free : (p : ℤ) (t : List Event) → WasFree (dialed p false ∷ t) p
  dialed_free p t = ground (arith, eq_ℤ_refl p)

  dialed_busy : (p : ℤ) (t : List Event) → last_dial p (dialed p true ∷ t) ≡ some true
  dialed_busy p t = ground (arith, eq_ℤ_refl p)

  dialed-Stays : (p : ℤ) (t t' : List Event) → StaysBut p t t' → Stays t (dialed p false ∷ t')
  dialed-Stays p t t' stays q free = elim (Bool-cases (eq_ℤ p q)) [
    | inl same ↦ rw same
    | inr other ↦ rw other (stays q other free)
  ]

  busy-StaysBut : (p : ℤ) (t : List Event) → StaysBut p t (dialed p true ∷ t)
  busy-StaysBut p t q other free = rw other free

  recheck-Checked :
      (p : ℤ) (s t : Shell W) → StaysBut p s.trace t.trace → Checked p s (recheck m p t)
  unfolding recheck pause is_port_busy info ◌>>=◌ fail
  recheck-Checked p s t stays =
      elim (Bool-cases (m.dial p (m.sleep (300 * millisecond) t.world)).1) [
        | inl busy ↦ rw busy (dialed_busy p t.trace)
        | inr free ↦ rw free (
            logged_last p _ _ _ s
              (record t {
                world = (m.dial p (m.sleep (300 * millisecond) t.world)).0;
                trace = dialed p false ∷ t.trace;
              })
              (dialed_free p t.trace) (dialed-Stays p s.trace t.trace stays))
      ]

  forced-Checked :
      (force : Bool) (p : ℤ) (s t : Shell W)
      → StaysBut p s.trace t.trace
      → last_dial p t.trace ≡ some true
      → Checked p s (occupied m force p t)
  unfolding occupied warn info run_cmd_verbose run_cmd ◌>>?◌ fail
  forced-Checked false p s t stays busy = rw (after_log m) (last-logf p _ _ _ t ∙ busy)
  forced-Checked true p s t stays busy = rw (after_log m) (
      rw (after_log m) (
        recheck-Checked p s _
          (λ q other free. last-logf q _ _ _ _ ∙ (last-logf q _ _ _ t ∙ stays q other free))))

  ensure_port-Checked : (force : Bool) (p : ℤ) (s : Shell W) → Checked p s (ensure_port m force p s)
  unfolding ensure_port is_port_busy info ◌>>=◌
  ensure_port-Checked force p s = elim (Bool-cases (m.dial p s.world).1) [
    | inl busy ↦ rw busy (
        forced-Checked force p s
          (record s { world = (m.dial p s.world).0; trace = dialed p true ∷ s.trace })
          (busy-StaysBut p s.trace) (dialed_busy p s.trace))
    | inr free ↦ rw free (
        logged_last p _ _ _ s
          (record s { world = (m.dial p s.world).0; trace = dialed p false ∷ s.trace })
          (dialed_free p s.trace) (dialed-Stays p s.trace s.trace (λ q other h. h)))
  ]

-- What ensurePorts leaves for some ports.
abbrev pub Secured : {W : Type 0} → List ℤ → Shell W × Result (Unit {0}) → Type 0
Secured ps (s, ok _) = All (WasFree s.trace) ps
Secured ps (s, err e) =
    (before : List ℤ) × (p : ℤ) × (after : List ℤ) × (ps ≡ before ++ p ∷ after)
    × (last_dial p s.trace ≡ some true)

-- The ports so far stay free, if there was no error.
abbrev Held : {W : Type 0} → Shell W → Shell W × Result (Unit {0}) → Type 0
Held s (s', ok _) = Stays s.trace s'.trace
Held s (s', err e) = Unit

both :
    {W : Type 0} (p : ℤ) (ps : List ℤ) (s t : Shell W)
    → WasFree t.trace p
    → Stays s.trace t.trace
    → (r : Shell W × Result (Unit {0})) → Secured ps r
    → Held t r
    → Secured (p ∷ ps) r × Held s r
both p ps s t free stays (u, ok _) all held = ((held p free, all), λ q h. held q (stays q h))
both p ps s t free stays (u, err e) (before, q, after, e', busy) held =
    ((p ∷ before, q, after, ap (λ l. p ∷ l) e', busy), tt)

module _ {W : Type 0} (m : Machine W) (force : Bool) where
  after_one :
      (p : ℤ) (ps : List ℤ) (s : Shell W) (r : Shell W × Result (Unit {0}))
      → Checked p s r
      → ((t : Shell W)
          → Secured ps (ensure_ports m ps force t) × Held t (ensure_ports m ps force t))
      → Secured (p ∷ ps) (((λ _. r) >>= λ _. ensure_ports m ps force) s)
        × Held s (((λ _. r) >>= λ _. ensure_ports m ps force) s)
  unfolding ◌>>=◌
  after_one p ps s (t, err e) busy rest = (([], p, ps, refl, busy), tt)
  after_one p ps s (t, ok _) (free, stays) rest =
      let (secured, held) = rest t in
      both p ps s t free stays (ensure_ports m ps force t) secured held

  secured_and_held :
      (ps : List ℤ) (s : Shell W)
      → Secured ps (ensure_ports m ps force s) × Held s (ensure_ports m ps force s)
  unfolding ensure_ports ◌>>=◌ pure
  secured_and_held [] s = (tt, λ q h. h)
  secured_and_held (p ∷ ps) s =
      after_one p ps s (ensure_port m force p s) (ensure_port-Checked m force p s)
        (secured_and_held ps)

-- ensurePorts, with force or without: with no error, each of the ports was free when it was last tried;
-- with an error, one of them was busy when it was last tried.
pub ensure_ports-Secured :
    {W : Type 0} (m : Machine W) (ps : List ℤ) (force : Bool) (s : Shell W)
    → Secured ps (ensure_ports m ps force s)
ensure_ports-Secured m ps force s = (secured_and_held m force ps s).0
