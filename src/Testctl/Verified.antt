-- ===== src/Testctl/Verified.antt =====
-- What has been verified when the installers for CI succeed (ci.go, install_host.go and verify.go of
-- internal/testctl).
use modeld_go.Common.{
  ◌≡◌, ◌⊎◌, inl, inr, refl, Bool, true, false, Option, none, some, List, [], ◌∷◌, Text, codes,
  if◌then◌else◌,
}
use modeld_go.Errors.{Error, Result, ok, err}
use modeld_go.Testctl.{
  Cmd, Machine, Event, ran, started, killed, dialed, fetched, printed, Shell, Script, or_error,
  rewrap, failing_as, ◌>>=◌, ◌>>?◌,
}
use modeld_go.Testctl.Keeps.{Keeps, IsStable}
use modeld_go.Testctl.Quiet.{quiet_rules}
use modeld_go.Testctl.Run.{run_cmd, run_cmd_verbose}
use modeld_go.Testctl.Install.{succeeded, run_maybe_sudo, verify_host_docker, verify_host_act}
use modeld_go.Testctl.Ci.{run_ci_installers_act, run_ci_installers_docker, run_ci_installers_all}

-- A command that is run in the foreground.
abbrev pub foreground : Text → List Text → Cmd
foreground name args = record { path = name; args = args; env = []; dir = []; stream = false }

-- That a command has been run without an error.
abbrev pub Did : Cmd → List Event → Type 0
Did c [] = ⊥
Did c (ran d e ∷ t) = ((d ≡ c) × (e ≡ none)) ⊎ Did c t
Did c (started p d ∷ t) = Did c t
Did c (killed p ∷ t) = Did c t
Did c (dialed p b ∷ t) = Did c t
Did c (fetched u r ∷ t) = Did c t
Did c (printed x ∷ t) = Did c t

-- The same of a command that may need the rights of root.
abbrev pub DidPrivileged : Text → List Text → List Event → Type 0
DidPrivileged name args t =
    Did (foreground name args) t ⊎ Did (foreground (codes "sudo") (name ∷ args)) t

later : (c : Cmd) (e : Event) (t : List Event) → Did c t → Did c (e ∷ t)
later c (ran d e) t h = inr h
later c (started p d) t h = h
later c (killed p) t h = h
later c (dialed p b) t h = h
later c (fetched u r) t h = h
later c (printed x) t h = h

later_either :
    (a b : Cmd) (e : Event) (t : List Event) → Did a t ⊎ Did b t → Did a (e ∷ t) ⊎ Did b (e ∷ t)
later_either a b e t (inl h) = inl (later a e t h)
later_either a b e t (inr h) = inr (later b e t h)

unwrapped :
    {A : Type 0} (r : Result A) (f : Error → Error)
    → succeeded (rewrap f r) ≡ true
    → succeeded r ≡ true
unwrapped (ok a) f h = refl
unwrapped (err e) f h = cc

-- If a script succeeds, then `P` holds.
record Ensures {W A : Type 0} (P : Shell W → Type 0) (m : Script W A) : Type 0 where
  at : (s : Shell W) → succeeded (m s).1 ≡ true → P (m s).0

module _ {W : Type 0} where
  abbrev DidShell : Cmd → Shell W → Type 0
  DidShell c s = Did c s.trace

  abbrev PrivilegedShell : Text → List Text → Shell W → Type 0
  PrivilegedShell name args s = DidPrivileged name args s.trace

  did_stable : (c : Cmd) → IsStable (DidShell c)
  did_stable c = record {
    at_world = λ s w h. h;
    at_event = λ s e h. later c e s.trace h;
    at_level = λ s l h. h;
  }

  privileged_stable : (name : Text) (args : List Text) → IsStable (PrivilegedShell name args)
  privileged_stable name args = record {
    at_world = λ s w h. h;
    at_event = λ s e h. later_either _ _ e s.trace h;
    at_level = λ s l h. h;
  }

module _ {W A : Type 0} {P : Shell W → Type 0} where
  Ensures-failing_as :
      (f : Error → Error) (m : Script W A) → Ensures P m → Ensures P (failing_as f m)
  unfolding failing_as
  Ensures-failing_as f m k = record { at = λ s h. k.at s (unwrapped (m s).1 f h) }

module _ {W A B : Type 0} {P : Shell W → Type 0} where
  first_at :
      (f : A → Script W B) (r : Shell W × Result A)
      → (succeeded r.1 ≡ true → P r.0)
      → ((a : A) → Keeps P (f a))
      → (s : Shell W) → succeeded (((λ _. r) >>= f) s).1 ≡ true
      → P (((λ _. r) >>= f) s).0
  unfolding ◌>>=◌
  first_at f (t, ok a) p k s h = (k a).at t (p refl)
  first_at f (t, err e) p k s h = cc

  Ensures-first :
      (m : Script W A) (f : A → Script W B)
      → Ensures P m
      → ((a : A) → Keeps P (f a))
      → Ensures P (m >>= f)
  unfolding ◌>>=◌
  Ensures-first m f e k = record { at = λ s. first_at f (m s) (e.at s) k s }

  last_at :
      (f : A → Script W B) (r : Shell W × Result A)
      → ((a : A) → Ensures P (f a))
      → (s : Shell W) → succeeded (((λ _. r) >>= f) s).1 ≡ true
      → P (((λ _. r) >>= f) s).0
  unfolding ◌>>=◌
  last_at f (t, ok a) k s h = (k a).at t h
  last_at f (t, err e) k s h = cc

  Ensures-last :
      (m : Script W A) (f : A → Script W B) → ((a : A) → Ensures P (f a)) → Ensures P (m >>= f)
  unfolding ◌>>=◌
  Ensures-last m f k = record { at = λ s. last_at f (m s) k s }

  Ensures-try :
      (m : Script W A) (f : Result A → Script W B)
      → ((r : Result A) → Ensures P (f r))
      → Ensures P (m >>? f)
  unfolding ◌>>?◌
  Ensures-try m f k = record { at = λ s. let (t, r) = m s in (k r).at t }

module _ {W A : Type 0} {P : Shell W → Type 0} where
  Ensures-if :
      (b : Bool) (m n : Script W A) → Ensures P m → Ensures P n → Ensures P (if b then m else n)
  Ensures-if true m n km kn = km
  Ensures-if false m n km kn = kn

ruleset ensures_rules = (Ensures-failing_as, Ensures-first, Ensures-last)

module _ {W : Type 0} (m : Machine W) where
  ran_lem :
      (c : Cmd) (e : Option Error) (t : List Event)
      → succeeded (or_error e) ≡ true
      → Did c (ran c e ∷ t)
  ran_lem c none t h = inl (refl, refl)
  ran_lem c (some e) t h = cc

  Ensures-verbose :
      (name : Text) (args : List Text)
      → Ensures (DidShell (foreground name args)) (run_cmd_verbose m name args)
  unfolding run_cmd_verbose run_cmd
  Ensures-verbose name args = record { at = λ s h. ran_lem (foreground name args) _ s.trace h }

  Ensures-direct :
      (name : Text) (args : List Text)
      → Ensures (PrivilegedShell name args) (run_cmd_verbose m name args)
  Ensures-direct name args = record { at = λ s h. inl ((Ensures-verbose name args).at s h) }

  Ensures-by_sudo :
      (name : Text) (args : List Text)
      → Ensures (PrivilegedShell name args) (run_cmd_verbose m (codes "sudo") (name ∷ args))
  Ensures-by_sudo name args = record {
    at = λ s h. inr ((Ensures-verbose (codes "sudo") (name ∷ args)).at s h);
  }

  Ensures-maybe_sudo :
      (name : Text) (args : List Text)
      → Ensures (PrivilegedShell name args) (run_maybe_sudo m name args)
  unfolding run_maybe_sudo
  Ensures-maybe_sudo name args =
      search (Ensures-last, Ensures-try, Ensures-if, Ensures-direct, Ensures-by_sudo) depth 12

-- The checks that Docker is there.
abbrev pub DockerChecked : List Event → Type 0
DockerChecked t =
    Did (foreground (codes "docker") (codes "--version" ∷ [])) t
    × DidPrivileged (codes "systemctl") (codes "is-enabled" ∷ codes "docker" ∷ []) t
    × DidPrivileged (codes "systemctl") (codes "is-active" ∷ codes "docker" ∷ []) t
    × Did (foreground (codes "getent") (codes "group" ∷ codes "docker" ∷ [])) t

abbrev pub ActChecked : List Event → Type 0
ActChecked = Did (foreground (codes "act") (codes "--version" ∷ []))

module _ {W : Type 0} (m : Machine W) where
  docker-version :
      Ensures
        (DidShell (foreground (codes "docker") (codes "--version" ∷ [])))
        (verify_host_docker m)
  unfolding verify_host_docker
  docker-version = search (ensures_rules, Ensures-verbose, quiet_rules, did_stable) depth 14

  docker-enabled :
      Ensures
        (PrivilegedShell (codes "systemctl") (codes "is-enabled" ∷ codes "docker" ∷ []))
        (verify_host_docker m)
  unfolding verify_host_docker
  docker-enabled =
      search (ensures_rules, Ensures-maybe_sudo, quiet_rules, privileged_stable) depth 14

  docker-active :
      Ensures
        (PrivilegedShell (codes "systemctl") (codes "is-active" ∷ codes "docker" ∷ []))
        (verify_host_docker m)
  unfolding verify_host_docker
  docker-active =
      search (ensures_rules, Ensures-maybe_sudo, quiet_rules, privileged_stable) depth 14

  docker-group :
      Ensures
        (DidShell (foreground (codes "getent") (codes "group" ∷ codes "docker" ∷ [])))
        (verify_host_docker m)
  unfolding verify_host_docker
  docker-group = search (ensures_rules, Ensures-verbose, quiet_rules) depth 14

  act-version :
      Ensures (DidShell (foreground (codes "act") (codes "--version" ∷ []))) (verify_host_act m)
  unfolding verify_host_act
  act-version = search (ensures_rules, Ensures-verbose, quiet_rules) depth 14

  docker_first :
      (P : Shell W → Type 0)
      → IsStable P
      → Ensures P (verify_host_docker m)
      → Ensures P (run_ci_installers_all m)
  unfolding run_ci_installers_all run_ci_installers_docker
  docker_first P stable e = search (ensures_rules, quiet_rules) depth 12

  act_last :
      (P : Shell W → Type 0) → Ensures P (verify_host_act m) → Ensures P (run_ci_installers_all m)
  unfolding run_ci_installers_all run_ci_installers_act
  act_last P e = search ensures_rules depth 12

-- If `testctl test ci installers all` succeeds, then Docker's version, service and group have been checked and the
-- version of act, each by a command that has been run without an error; the two checks of the service may have been run
-- by sudo.
pub installers-Checked :
    {W : Type 0} (m : Machine W) (s : Shell W)
    → succeeded (run_ci_installers_all m s).1 ≡ true
    → DockerChecked (run_ci_installers_all m s).0.trace
      × ActChecked (run_ci_installers_all m s).0.trace
installers-Checked m s h = (
  (
    (docker_first m _ (did_stable _) (docker-version m)).at s h,
    (docker_first m _ (privileged_stable _ _) (docker-enabled m)).at s h,
    (docker_first m _ (privileged_stable _ _) (docker-active m)).at s h,
    (docker_first m _ (did_stable _) (docker-group m)).at s h,
  ),
  (act_last m _ (act-version m)).at s h,
)
