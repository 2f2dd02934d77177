-- ===== src/Common/Strings.antt =====
-- Go strings, as lists of code points, with what the program uses of `strings` and `strconv`.
use Prim.Native.Nat.{ℕ, zero, suc, ◌+◌, ◌-◌, ◌*◌, ◌/◌, ◌%◌, ◌^◌}
use Prim.Native.Char.{code}
use Prim.Native.String.{String}
use mathlib.Core.Path.{◌≡◌, refl}
use mathlib.Core.Logic.{ite, dite}
use mathlib.Core.Bool.{Bool, true, false, ◌&&◌, ◌||◌, Bool-discrete}
use mathlib.Core.List.{List, [], ◌∷◌, map, reverse}
use mathlib.Core.Option.{Option, none, some}
use native.Mathlib.Omega.{arith}
use modeld_go.Common.Tests.{ltb, leb, ◌==◌, if◌then◌else◌}
use modeld_go.Common.Int.{ℤ, pos, negsuc}

abbrev pub Text : Type 0
Text = List ℕ

-- The code points of a literal.
abbrev pub codes : String → Text
codes String.[] = []
codes (String.◌∷◌ c s) = code c ∷ codes s

same : Text → Text → Bool
same [] [] = true
same [] (_ ∷ _) = false
same (_ ∷ _) [] = false
same (a ∷ s) (b ∷ t) = a == b && same s t

same_sound : (s t : Text) → same s t ≡ true → s ≡ t
unfolding same
same_sound [] [] h = refl
same_sound [] (_ ∷ _) h = cc
same_sound (_ ∷ _) [] h = cc
same_sound (a ∷ s) (b ∷ t) h = ground (arith, same_sound s t)

same_refl : (s : Text) → same s s ≡ true
unfolding same
same_refl [] = refl
same_refl (a ∷ s) = ground (arith, same_refl s)

same_complete : (s t : Text) → s ≡ t → same s t ≡ true
same_complete s t e = rw e (same_refl t)

-- Shut in proofs, where a split on it yields the equation or its negation.
unfoldable pub text_dec : Discrete Text
unfolding same same_sound same_refl same_complete
text_dec s t =
    dite (Bool-discrete (same s t) true) (λ h. yes (same_sound s t h))
      (λ h. no (λ e. h (same_complete s t e)))

-- Go's `s == t`.
abbrev pub text_eq : Text → Text → Bool
text_eq s t = ite (text_dec s t) true false

abbrev pub is_empty : Text → Bool
is_empty [] = true
is_empty (_ ∷ _) = false

-- `unicode.IsSpace`.
unfoldable pub is_space : ℕ → Bool
is_space c =
    (leb 9 c && leb c 13)
    || c == 32
    || c == 0x85
    || c == 0xa0
    || c == 0x1680
    || (leb 0x2000 c && leb c 0x200a)
    || c == 0x2028
    || c == 0x2029
    || c == 0x202f
    || c == 0x205f
    || c == 0x3000

unfoldable pub trim_left : Text → Text
trim_left [] = []
trim_left (c ∷ s) = if is_space c then trim_left s else c ∷ s

-- `strings.TrimSpace`.
unfoldable pub trim_space : Text → Text
unfolding trim_left
trim_space s = reverse (trim_left (reverse (trim_left s)))

-- `unicode.ToLower`, as far as the program can see: it compares the results with ASCII texts only.
-- Two code points beyond ASCII have a lower case in ASCII.
unfoldable pub lower : ℕ → ℕ
lower c =
    if leb b'A' c && leb c b'Z'
    then c + 32
    else if c == 0x130
    then b'i'
    else if c == 0x212a
    then b'k'
    else c

unfoldable pub to_lower : Text → Text
to_lower = map lower

unfoldable pub has_prefix : Text → Text → Bool
has_prefix s [] = true
has_prefix [] (_ ∷ _) = false
has_prefix (c ∷ s) (d ∷ t) = c == d && has_prefix s t

unfoldable pub has_suffix : Text → Text → Bool
unfolding has_prefix
has_suffix s t = has_prefix (reverse s) (reverse t)

-- Decimal digits of a positive number; `fuel` above the number is enough.
unfoldable pub digits : ℕ → ℕ → Text → Text
digits zero n out = out
digits (suc fuel) n out = elim (n == 0) [
  | true ↦ out
  | false ↦ digits fuel (n / 10) ((b'0' + n % 10) ∷ out)
]

-- `fmt.Sprint` and `strconv.Itoa` of an `int`.
unfoldable pub decimal : ℤ → Text
unfolding digits
decimal (pos n) = if n == 0 then b'0' ∷ [] else digits (suc n) n []
decimal (negsuc n) = b'-' ∷ digits (suc (suc n)) (suc n) []

-- The value of a run of decimal digits; `none` at any other character.
unfoldable pub parse_digits : ℕ → Text → Option ℕ
parse_digits n [] = some n
parse_digits n (c ∷ s) =
    let rest = parse_digits (n * 10 + (c - b'0')) s in
    if leb b'0' c && leb c b'9' then rest else none

unfoldable pub parse_unsigned : Text → Option ℕ
unfolding parse_digits
parse_unsigned [] = none
parse_unsigned (c ∷ s) = parse_digits 0 (c ∷ s)

-- `strconv.Atoi`, on a 64-bit machine.
unfoldable pub atoi : Text → Option ℤ
unfolding parse_unsigned
atoi [] = none
atoi (c ∷ s) =
    if c == b'-'
    then elim (parse_unsigned s) [
      | none ↦ none
      | some n ↦ if leb n (2 ^ 63) then some (if n == 0 then pos 0 else negsuc (n - 1)) else none
    ]
    else elim (parse_unsigned (if c == b'+' then s else c ∷ s)) [
      | none ↦ none
      | some n ↦ if ltb n (2 ^ 63) then some (pos n) else none
    ]

-- What follows the last `:`, if there is one (`strings.LastIndex` and the slice after it).
unfoldable pub after_last_colon : Text → Option Text
after_last_colon [] = none
after_last_colon (c ∷ s) = elim (after_last_colon s) [
  | some t ↦ some t
  | none ↦ if c == b':' then some s else none
]

decimal_runs : (decimal (pos 8080) ≡ codes "8080") × (decimal (negsuc 41) ≡ codes "-42")
unfolding decimal
decimal_runs = (refl, refl)

trim_runs : trim_space (codes "  a b ") ≡ codes "a b"
unfolding trim_space is_space
trim_runs = refl

text_eq_runs : text_eq (codes "ab") (codes "ab") ≡ true
unfolding text_dec
text_eq_runs = refl
