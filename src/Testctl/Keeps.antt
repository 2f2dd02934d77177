-- ===== src/Testctl/Keeps.antt =====
-- What scripts keep about the processes that run and those that are tracked: one rule for each way to
-- build a script (internal/testctl).
use modeld_go.Common.{
  ℕ, Bool, true, false, List, ◌∷◌, Text, codes, if◌then◌else◌, ℤ, Bool-cases, inl, inr, ltb,
}
use modeld_go.Errors.{Error, Result, ok, err}
use modeld_go.Testctl.{
  Cmd, Event, Machine, Shell, Script, pure, fail, gets, lift, failing_as, ◌>>=◌, ◌>>?◌,
}
use modeld_go.Testctl.Install.{look_path, make_dirs, remove_file, run_maybe_sudo, reported}
use modeld_go.Testctl.Ports.{choose_free_port, is_port_busy, fetch, wait_second, prefer_or_free}
use modeld_go.Testctl.Run.{
  level_info, level_warn, logf, info, warn, run_cmd, run_cmd_verbose, run_cmd_streaming,
  run_env_cmd_streaming,
}

-- `m` keeps `P`, whether it fails or not.
pub record Keeps {W A : Type 0} (P : Shell W → Type 0) (m : Script W A) : Type 0 where
  pub at : (s : Shell W) → P s → P (m s).0

-- A predicate that what the machine does, and the trace of it, keep, but for the start and the end of
-- processes.
pub record IsStable {W : Type 0} (P : Shell W → Type 0) : Type 0 where
  pub at_world : (s : Shell W) (w : W) → P s → P (record s { world = w })
  pub at_event : (s : Shell W) (e : Event) → P s → P (record s { trace = e ∷ s.trace })
  pub at_level : (s : Shell W) (level : ℕ) → P s → P (record s { level = level })

module _ {W A : Type 0} {P : Shell W → Type 0} where
  pub Keeps-pure : (a : A) → Keeps P (pure a)
  unfolding pure
  Keeps-pure a = record { at = λ s h. h }

  pub Keeps-fail : (e : Error) → Keeps P (fail {W = W} {A = A} e)
  unfolding fail
  Keeps-fail e = record { at = λ s h. h }

  pub Keeps-gets : (f : W → A) → Keeps P (gets f)
  unfolding gets
  Keeps-gets f = record { at = λ s h. h }

  pub Keeps-failing_as : (f : Error → Error) (m : Script W A) → Keeps P m → Keeps P (failing_as f m)
  unfolding failing_as
  Keeps-failing_as f m k = record { at = k.at }

  pub Keeps-if :
      (b : Bool) (m n : Script W A) → Keeps P m → Keeps P n → Keeps P (if b then m else n)
  Keeps-if true m n km kn = km
  Keeps-if false m n km kn = kn

module _ {W A B : Type 0} {P : Shell W → Type 0} where
  continued :
      (f : A → Script W B) (s : Shell W) (r : Result A)
      → ((a : A) → Keeps P (f a))
      → P s
      → P ((lift r >>= f) s).0
  unfolding ◌>>=◌
  continued f s (ok a) kf h = (kf a).at s h
  continued f s (err e) kf h = h

  pub Keeps-bind :
      (m : Script W A) (f : A → Script W B)
      → Keeps P m
      → ((a : A) → Keeps P (f a))
      → Keeps P (m >>= f)
  unfolding ◌>>=◌
  Keeps-bind m f km kf = record { at = λ s h. let (s', r) = m s in continued f s' r kf (km.at s h) }

  pub Keeps-try :
      (m : Script W A) (f : Result A → Script W B)
      → Keeps P m
      → ((r : Result A) → Keeps P (f r))
      → Keeps P (m >>? f)
  unfolding ◌>>?◌
  Keeps-try m f km kf = record { at = λ s h. let (s', r) = m s in (kf r).at s' (km.at s h) }

module _ {W : Type 0} {P : Shell W → Type 0} (stable : IsStable P) (m : Machine W) where
  pub Keeps-logf : (lvl : Text) (min : ℕ) (text : Text) → Keeps P (logf m lvl min text)
  unfolding logf
  Keeps-logf lvl min text = record {
    at = λ s h. elim (Bool-cases (ltb min s.level)) [
      | inl quiet ↦ rw quiet h
      | inr loud ↦ rw loud (stable.at_event s _ h)
    ];
  }

  pub Keeps-info : (text : Text) → Keeps P (info m text)
  unfolding info
  Keeps-info = Keeps-logf (codes "INFO") level_info

  pub Keeps-warn : (text : Text) → Keeps P (warn m text)
  unfolding warn
  Keeps-warn = Keeps-logf (codes "WARN") level_warn

  pub Keeps-run_cmd : (c : Cmd) → Keeps P (run_cmd m c)
  unfolding run_cmd
  Keeps-run_cmd c = record { at = λ s h. stable.at_event _ _ (stable.at_world s _ h) }

  pub Keeps-verbose : (name : Text) (args : List Text) → Keeps P (run_cmd_verbose m name args)
  unfolding run_cmd_verbose run_cmd
  Keeps-verbose name args = record { at = λ s h. stable.at_event _ _ (stable.at_world s _ h) }

  pub Keeps-streaming : (name : Text) (args : List Text) → Keeps P (run_cmd_streaming m name args)
  unfolding run_cmd_streaming run_cmd
  Keeps-streaming name args = record { at = λ s h. stable.at_event _ _ (stable.at_world s _ h) }

  pub Keeps-env_streaming :
      (env : List (Text × Text)) (name : Text) (args : List Text)
      → Keeps P (run_env_cmd_streaming m env name args)
  unfolding run_env_cmd_streaming run_cmd
  Keeps-env_streaming env name args = record {
    at = λ s h. stable.at_event _ _ (stable.at_world s _ h);
  }

  pub Keeps-look_path : (name : Text) → Keeps P (look_path m name)
  unfolding look_path
  Keeps-look_path name = record { at = λ s h. h }

  pub Keeps-make_dirs : (path : Text) → Keeps P (make_dirs m path)
  unfolding make_dirs
  Keeps-make_dirs path = record { at = λ s h. stable.at_world s _ h }

  pub Keeps-remove_file : (path : Text) → Keeps P (remove_file m path)
  unfolding remove_file
  Keeps-remove_file path = record { at = λ s h. stable.at_world s _ h }

  pub Keeps-choose_free_port : Keeps P (choose_free_port m)
  unfolding choose_free_port
  Keeps-choose_free_port = record { at = λ s h. stable.at_world s _ h }

  pub Keeps-is_port_busy : (port : ℤ) → Keeps P (is_port_busy m port)
  unfolding is_port_busy
  Keeps-is_port_busy port = record { at = λ s h. stable.at_event _ _ (stable.at_world s _ h) }

  pub Keeps-fetch : (url : Text) → Keeps P (fetch m url)
  unfolding fetch
  Keeps-fetch url = record { at = λ s h. stable.at_event _ _ (stable.at_world s _ h) }

  pub Keeps-wait_second : (deadline : ℕ) → Keeps P (wait_second m deadline)
  unfolding wait_second
  Keeps-wait_second deadline = record { at = λ s h. stable.at_world s _ h }

pub ruleset script_rules = (
  Keeps-pure, Keeps-fail, Keeps-gets, Keeps-failing_as, Keeps-if, Keeps-bind, Keeps-try, Keeps-info,
  Keeps-warn, Keeps-verbose, Keeps-streaming, Keeps-env_streaming, Keeps-look_path, Keeps-make_dirs,
  Keeps-remove_file, Keeps-choose_free_port, Keeps-is_port_busy, Keeps-fetch, Keeps-wait_second,
)

module _ {W : Type 0} {P : Shell W → Type 0} (stable : IsStable P) (m : Machine W) where
  pub Keeps-maybe_sudo : (name : Text) (args : List Text) → Keeps P (run_maybe_sudo m name args)
  unfolding run_maybe_sudo
  Keeps-maybe_sudo name args = search script_rules

  pub Keeps-reported : (text : Text) (r : Result (Unit {0})) → Keeps P (reported m text r)
  unfolding reported
  Keeps-reported text (ok _) = search script_rules
  Keeps-reported text (err e) = search script_rules

  pub Keeps-prefer_or_free : (desired : ℤ) → Keeps P (prefer_or_free m desired)
  unfolding prefer_or_free
  Keeps-prefer_or_free desired = search script_rules depth 12
