-- ===== src/Decimal.antt =====
-- The two integer printers that fill a buffer from its end: fmtUint of internal/manager/manager.go and
-- itoa of internal/httpapi/metrics.go. `none` is the panic of an index below 0.
use native.Mathlib.Decide.{dec_lt}
use native.Mathlib.Nat.{pow-suc}
use modeld_go.Common.{
  false, ℕ, zero, suc, ◌+◌, ◌-◌, ◌*◌, ◌/◌, ◌%◌, ◌^◌, ◌≤◌, ◌<◌, ◌≡◌, ◌≢◌, ◌∙◌, refl, ap, Option,
  none, some, [], ◌∷◌, Text, codes, if◌then◌else◌, ◌==◌, arith, parse_unsigned, parse_digits,
}

-- The loop `for n > 0`, with `room` bytes of the buffer left before the digits in `out`.
unfoldable pub fill : ℕ → ℕ → Text → Option Text
fill room zero out = some out
fill zero (suc n) out = none
fill (suc room) (suc n) out = fill room (suc n / 10) ((b'0' + suc n % 10) ∷ out)

-- fmtUint, of a uint64.
unfoldable pub fmt_uint : ℕ → Option Text
fmt_uint n = if n == 0 then some (b'0' ∷ []) else fill 20 n []

-- itoa, of a status code.
unfoldable pub itoa : ℕ → Option Text
itoa n = if n == 0 then some (b'0' ∷ []) else fill 4 n []

itoa_runs : (itoa 507 ≡ some (codes "507")) × (itoa 10000 ≡ none)
unfolding itoa fill
itoa_runs = (refl, refl)

div-lt : (room n : ℕ) → n < 10 ^ suc room → n / 10 < 10 ^ room
div-lt room n lt = omega (arith, pow-suc 10 room)

le-div : (room n : ℕ) → 10 ^ suc room ≤ n → 10 ^ room ≤ n / 10
le-div room n le = omega (arith, pow-suc 10 room)

pow-pos : (room : ℕ) → 10 ^ room ≤ 0 → ⊥
pow-pos zero le = omega arith
pow-pos (suc room) le = pow-pos room (omega (arith, pow-suc 10 room))

div_mod_ten : (n : ℕ) → n / 10 * 10 + n % 10 ≡ n
div_mod_ten n = omega arith

-- Reading one digit that the loop has written.
parse_digits-digit :
    (n acc : ℕ) (out : Text)
    → parse_digits acc ((b'0' + n % 10) ∷ out) ≡ parse_digits (acc * 10 + n % 10) out
unfolding parse_digits
parse_digits-digit n acc out =
    ground (arith, ap (λ (d : ℕ). parse_digits (acc * 10 + d) out) (cancel (n % 10)))
  where
    cancel : (d : ℕ) → b'0' + d - b'0' ≡ d
    cancel d = omega arith

fill_lem :
    (room n : ℕ) (out : Text)
    → n < 10 ^ room
    → (t : Text) × (fill room n out ≡ some t)
      × (parse_digits 0 t ≡ parse_digits n out)
      × ((t ≡ []) → (n ≡ 0) × (out ≡ []))
unfolding fill
fill_lem room zero out lt = (out, refl, refl, λ e. (refl, e))
fill_lem zero (suc n) out lt = absurd (omega arith)
fill_lem (suc room) (suc n) out lt =
    let (t, e, v, ne) =
      fill_lem room (suc n / 10) ((b'0' + suc n % 10) ∷ out) (div-lt room (suc n) lt) in
    (
      t,
      e,
      v
          ∙ parse_digits-digit (suc n) (suc n / 10) out
          ∙ ap (λ (k : ℕ). parse_digits k out) (div_mod_ten (suc n)),
      λ q. cc ((ne q).1),
    )

fill_panic : (room n : ℕ) (out : Text) → 10 ^ room ≤ n → fill room n out ≡ none
unfolding fill
fill_panic room zero out le = absurd (pow-pos room le)
fill_panic zero (suc n) out le = refl
fill_panic (suc room) (suc n) out le = fill_panic room (suc n / 10) _ (le-div room (suc n) le)

-- What a printer with `room` bytes gives: the digits of the number, which read back as it, if it has at
-- most that many; otherwise the panic.
abbrev pub Prints : ℕ → ℕ → Option Text → Type 0
Prints room n none = 10 ^ room ≤ n
Prints room n (some t) = (n < 10 ^ room) × (parse_unsigned t ≡ some n)

read_back :
    (t : Text) {n : ℕ} → (t ≡ [] → ⊥) → parse_digits 0 t ≡ some n → parse_unsigned t ≡ some n
unfolding parse_unsigned
read_back [] ne e = absurd (ne refl)
read_back (c ∷ t) ne e = e

fill-Prints : (room n : ℕ) → n ≢ 0 → Prints room n (fill room n [])
fill-Prints room n pos = elim (dec_lt n (10 ^ room)) [
  | yes lt ↦
      let (t, e, v, ne) = fill_lem room n [] lt in
      rw e (lt, read_back t (λ q. pos (ne q).0) (v ∙ unfold parse_digits in refl))
  | no ge ↦ rw (fill_panic room n [] (omega arith)) (omega arith)
]

nonzero : (n : ℕ) → (suc n == 0) ≡ false
nonzero n = ground arith

-- fmtUint never panics on a uint64, and its text reads back as the number.
pub fmt_uint_lem :
    (n : ℕ) → n < 2 ^ 64 → (t : Text) × (fmt_uint n ≡ some t) × (parse_unsigned t ≡ some n)
unfolding fmt_uint parse_unsigned
fmt_uint_lem zero lt = (codes "0", refl, refl)
fmt_uint_lem (suc n) lt =
    rw (nonzero n) (printed (fill 20 (suc n) []) refl (fill-Prints 20 (suc n) (λ e. omega arith)))
  where
    printed :
        (o : Option Text)
        → fill 20 (suc n) [] ≡ o
        → Prints 20 (suc n) o
        → (t : Text) × (fill 20 (suc n) [] ≡ some t) × (parse_unsigned t ≡ some (suc n))
    printed none e p = absurd (omega arith)
    printed (some t) e p = (t, e, p.1)

-- itoa prints a status below 10000, as digits that read back, and panics on every other.
pub itoa-Prints : (n : ℕ) → Prints 4 n (itoa n)
unfolding itoa parse_unsigned
itoa-Prints zero = (omega arith, refl)
itoa-Prints (suc n) = rw (nonzero n) (fill-Prints 4 (suc n) (λ e. omega arith))
