-- ===== src/Testctl/Arguments.antt =====
-- What testctl makes of its arguments and of the environment (internal/testctl/cobra_root.go and logenv.go).
use modeld_go.Common.{
  ℕ, zero, suc, ◌+◌, ◌/◌, ◌%◌, ◌^◌, ◌<◌, ◌≡◌, ◌∙◌, refl, sym, ap, true, false, some, List, [], ◌∷◌,
  ◌++◌, Text, codes, text_eq, text_dec, is_empty, is_space, ℤ, pos, negsuc, decimal, digits, ◌==◌,
  ==_iff, All, Bool-cases, inl, inr, arith,
}
use modeld_go.Testctl.{Machine, Shell}
use modeld_go.Testctl.Env.{
  is_digit, scan_digits, scan_unsigned, scan_signed, sscanf_int, env_int, signed,
}
use modeld_go.Testctl.Ci.{run_ci_all, run_ci_workflow}
use modeld_go.Testctl.Cli.{split_extra, use_cat, ci_all, ci_one, workflow_path}

abbrev pub NoDash : Text → Type 0
NoDash t = text_eq t (codes "--") ≡ false

split_extra_lem :
    (tail extra : List Text)
    → All NoDash tail
    → split_extra (tail ++ codes "--" ∷ extra) ≡ (tail, extra)
unfolding split_extra text_dec
split_extra_lem [] extra h = refl
split_extra_lem (t ∷ tail) extra (h, hs) = rw (h, split_extra_lem tail extra hs) refl

split_extra_none : (args : List Text) → All NoDash args → split_extra args ≡ (args, [])
unfolding split_extra
split_extra_none [] h = refl
split_extra_none (t ∷ args) (h, hs) = rw (h, split_extra_none args hs) refl

-- `test ci all` with the arguments `tail -- extra`, with no `--` in `tail`, runs all workflows for the runner that
-- `tail` names and hands exactly `extra` on to act; with the arguments `tail` alone it hands nothing on. `test
-- ci one` does the same with its workflow.
pub ci-extra :
    {W : Type 0} (m : Machine W) (wf : Text) (tail extra : List Text) (s : Shell W)
    → All NoDash tail
    → (ci_all m (tail ++ codes "--" ∷ extra) s ≡ run_ci_all m (use_cat tail) extra s)
      × (ci_all m tail s ≡ run_ci_all m (use_cat tail) [] s)
      × (ci_one m wf (tail ++ codes "--" ∷ extra) s
          ≡ run_ci_workflow m (workflow_path wf) (use_cat tail) extra s)
      × (ci_one m wf tail s ≡ run_ci_workflow m (workflow_path wf) (use_cat tail) [] s)
unfolding ci_all ci_one
ci-extra m wf tail extra s h =
    let all = λ (x : List Text × List Text). run_ci_all m (use_cat x.0) x.1 s in
    let one =
      λ (x : List Text × List Text). run_ci_workflow m (workflow_path wf) (use_cat x.0) x.1 s in
    (
      ap all (split_extra_lem tail extra h),
      ap all (split_extra_none tail h),
      ap one (split_extra_lem tail extra h),
      ap one (split_extra_none tail h),
    )

digits_end : (fuel n : ℕ) (out : Text) → (n == 0) ≡ true → digits (suc fuel) n out ≡ out
unfolding digits
digits_end fuel n out h = ground arith

digits_more :
    (fuel n : ℕ) (out : Text)
    → (n == 0) ≡ false
    → digits (suc fuel) n out ≡ digits fuel (n / 10) ((b'0' + n % 10) ∷ out)
unfolding digits
digits_more fuel n out h = ground arith

scan_step : (n : ℕ) (t : Text) → scan_digits (n / 10) ((b'0' + n % 10) ∷ t) ≡ scan_digits n t
unfolding scan_digits
scan_step n t = ground arith

scan-digits :
    (fuel n : ℕ) (out rest : Text)
    → n < fuel
    → scan_digits 0 (digits fuel n out ++ rest) ≡ scan_digits n (out ++ rest)
scan-digits zero n out rest h = elim h [ ]
scan-digits (suc fuel) n out rest h = elim (Bool-cases (n == 0)) [
  | inl z ↦ rw (digits_end fuel n out z) (ap (λ k. scan_digits k (out ++ rest)) (ground arith))
  | inr p ↦ rw (digits_more fuel n out p) (
      scan-digits fuel (n / 10) ((b'0' + n % 10) ∷ out) rest (ground arith)
      ∙ scan_step n (out ++ rest))
]

abbrev Starts : Text → Type 0
Starts [] = ⊥
Starts (c ∷ t) = is_digit c ≡ true

last_digit : (n : ℕ) → is_digit (b'0' + n % 10) ≡ true
last_digit n = ground arith

Starts-digits : (fuel n : ℕ) (out : Text) → n < fuel → Starts out → Starts (digits fuel n out)
Starts-digits zero n out h st = elim h [ ]
Starts-digits (suc fuel) n out h st = elim (Bool-cases (n == 0)) [
  | inl z ↦ rw (digits_end fuel n out z) st
  | inr p ↦
      rw (digits_more fuel n out p) (Starts-digits fuel (n / 10) _ (ground arith) (last_digit n))
]

-- A text that does not go on with a digit.
abbrev pub NoDigit : Text → Type 0
NoDigit [] = Unit
NoDigit (c ∷ t) = is_digit c ≡ false

scan_digits_end : (n : ℕ) (rest : Text) → NoDigit rest → scan_digits n rest ≡ n
unfolding scan_digits
scan_digits_end n [] h = refl
scan_digits_end n (c ∷ rest) h = rw h refl

scan_unsigned_lem : (t : Text) → Starts t → scan_unsigned t ≡ some (scan_digits 0 t)
unfolding scan_unsigned
scan_unsigned_lem [] h = absurd h
scan_unsigned_lem (c ∷ t) h = rw h refl

digit_space : (c : ℕ) → is_digit c ≡ true → is_space c ≡ false
unfolding is_space
digit_space c h = ground arith

sscanf_digits : (t : Text) → Starts t → sscanf_int t ≡ signed false (some (scan_digits 0 t))
unfolding sscanf_int scan_signed
sscanf_digits [] h = absurd h
sscanf_digits (c ∷ t) h = ground (arith, digit_space c h, scan_unsigned_lem (c ∷ t) h)

sscanf_minus : (t : Text) → Starts t → sscanf_int (b'-' ∷ t) ≡ signed true (some (scan_digits 0 t))
unfolding sscanf_int scan_signed is_space
sscanf_minus t h = rw (scan_unsigned_lem t h) refl

-- The range of a 64-bit int.
abbrev pub InRange : ℤ → Type 0
InRange (pos n) = n < 2 ^ 63
InRange (negsuc n) = n < 2 ^ 63

Starts-append : (t rest : Text) → Starts t → Starts (t ++ rest)
Starts-append [] rest h = absurd h
Starts-append (c ∷ t) rest h = h

-- The digits of a number, printed and read.
printed_digits :
    (fuel n : ℕ) (rest : Text)
    → n < fuel
    → (n == 0) ≡ false
    → NoDigit rest
    → Starts (digits fuel n [] ++ rest) × (scan_digits 0 (digits fuel n [] ++ rest) ≡ n)
printed_digits zero n rest h p stop = elim h [ ]
printed_digits (suc fuel) n rest h p stop = (
  Starts-append (digits (suc fuel) n []) rest
      (rw (digits_more fuel n [] p) (Starts-digits fuel (n / 10) _ (ground arith) (last_digit n))),
  scan-digits (suc fuel) n [] rest h ∙ scan_digits_end n rest stop,
)

in_range_pos : (n : ℕ) → n < 2 ^ 63 → signed false (some n) ≡ some (pos n)
in_range_pos n h = ground arith

in_range_neg : (n : ℕ) → n < 2 ^ 63 → signed true (some (suc n)) ≡ some (negsuc n)
in_range_neg n h = ground arith

scan_zero : (rest : Text) → NoDigit rest → scan_digits 0 (b'0' ∷ rest) ≡ 0
unfolding scan_digits
scan_zero rest stop = scan_digits_end 0 rest stop

sscanf_decimal :
    (n : ℤ) (rest : Text) → InRange n → NoDigit rest → sscanf_int (decimal n ++ rest) ≡ some n
unfolding decimal
sscanf_decimal (pos n) rest h stop = elim (Bool-cases (n == 0)) [
  | inl z ↦ rw z (
      sscanf_digits (b'0' ∷ rest) refl
      ∙ (ap (λ k. signed false (some k)) (scan_zero rest stop)
          ∙ ap (λ k. some (pos k)) (sym ((==_iff n 0).0 z))))
  | inr p ↦
      let (st, value) = printed_digits (suc n) n rest (omega arith) p stop in
      rw p (sscanf_digits _ st ∙ (ap (λ k. signed false (some k)) value ∙ in_range_pos n h))
]
sscanf_decimal (negsuc n) rest h stop =
    let (st, value) = printed_digits (suc (suc n)) (suc n) rest (omega arith) (ground arith) stop in
    sscanf_minus _ st ∙ (ap (λ k. signed true (some k)) value ∙ in_range_neg n h)

is_empty-sscanf : (v : Text) (n : ℤ) → sscanf_int v ≡ some n → is_empty v ≡ false
unfolding sscanf_int
is_empty-sscanf [] n h = cc
is_empty-sscanf (c ∷ v) n h = refl

-- A 64-bit number that is printed into a variable of the environment is read back by envInt, whatever
-- follows it that is no digit.
pub env_int-decimal :
    {W : Type 0} (m : Machine W) (key rest : Text) (n def : ℤ) (w : W)
    → InRange n
    → NoDigit rest
    → m.getenv key w ≡ decimal n ++ rest
    → env_int m key def w ≡ n
unfolding env_int
env_int-decimal m key rest n def w h stop here =
    let e = sscanf_decimal n rest h stop in
    rw (here, is_empty-sscanf (decimal n ++ rest) n e, e) refl
