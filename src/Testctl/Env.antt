-- ===== src/Testctl/Env.antt =====
-- The helpers for environment variables of internal/testctl/logenv.go, with the `%d` of fmt.Sscanf.
use modeld_go.Common.{
  ℕ, zero, suc, ◌-◌, ◌*◌, ◌+◌, ◌^◌, Bool, true, false, ◌&&◌, ◌||◌, Option, none, some, [], ◌∷◌,
  Text, codes, text_eq, is_empty, is_space, to_lower, ℤ, pos, negsuc, ltb, leb, ◌==◌, if◌then◌else◌,
}
use modeld_go.Testctl.{Machine}

abbrev pub is_digit : ℕ → Bool
is_digit c = leb b'0' c && leb c b'9'

-- The number that a text starts with, after `n`.
unfoldable pub scan_digits : ℕ → Text → ℕ
scan_digits n [] = n
scan_digits n (c ∷ s) =
    let rest = scan_digits (n * 10 + (c - b'0')) s in if is_digit c then rest else n

unfoldable pub scan_unsigned : Text → Option ℕ
unfolding scan_digits
scan_unsigned [] = none
scan_unsigned (c ∷ s) = if is_digit c then some (scan_digits 0 (c ∷ s)) else none

abbrev pub negated : ℕ → Option ℤ
negated zero = some (pos 0)
negated (suc n) = if ltb n (2 ^ 63) then some (negsuc n) else none

abbrev pub signed : Bool → Option ℕ → Option ℤ
signed minus none = none
signed true (some n) = negated n
signed false (some n) = if ltb n (2 ^ 63) then some (pos n) else none

unfoldable pub scan_signed : Text → Option ℤ
unfolding scan_unsigned
scan_signed [] = none
scan_signed (c ∷ s) =
    if c == b'-'
    then signed true (scan_unsigned s)
    else if c == b'+'
    then signed false (scan_unsigned s)
    else signed false (scan_unsigned (c ∷ s))

-- fmt.Sscanf with "%d": spaces, a sign and digits; what follows them is not read. A new line among the
-- spaces is an error.
unfoldable pub sscanf_int : Text → Option ℤ
unfolding scan_signed is_space
sscanf_int [] = none
sscanf_int (c ∷ s) =
    if c == 10 then none else if is_space c then sscanf_int s else scan_signed (c ∷ s)

module _ {W : Type 0} (m : Machine W) where
  unfoldable pub env_str : Text → Text → W → Text
  env_str key def w = let v = m.getenv key w in if is_empty v then def else v

  unfoldable pub env_bool : Text → Bool → W → Bool
  env_bool key def w =
      let v = m.getenv key w in
      let s = to_lower v in
      if is_empty v
      then def
      else text_eq s (codes "1") || text_eq s (codes "true") || text_eq s (codes "yes")

  abbrev pub or_default : Option ℤ → ℤ → ℤ
  or_default none def = def
  or_default (some n) def = n

  unfoldable pub env_int : Text → ℤ → W → ℤ
  unfolding sscanf_int
  env_int key def w =
      let v = m.getenv key w in if is_empty v then def else or_default (sscanf_int v) def
