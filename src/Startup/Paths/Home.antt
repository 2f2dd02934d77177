-- ===== src/Startup/Paths/Home.antt =====
-- The two expansions of the home directory, one after the other as main.go and the registry do them.
use modeld_go.Common.{
  ℕ, true, false, ◌≡◌, ◌∙◌, refl, sym, ap, [], ◌∷◌, Text, text_dec, has_prefix, ◌==◌, Bool-cases,
  inl, inr, arith,
}
use modeld_go.Errors.{Result, ok}
use modeld_go.Startup.Paths.{clean, join_path, expand_home, expand_models_dir}

-- A path joined to an absolute one is absolute.
rooted : (r b : Text) → (s : Text) × (join_path (b'/' ∷ r) b ≡ b'/' ∷ s)
unfolding join_path clean
rooted r [] = (_, refl)
rooted r (c ∷ b) = (_, refl)

stays : (home : Result Text) (s : Text) → expand_home home (b'/' ∷ s) ≡ ok (b'/' ∷ s)
unfolding expand_home
stays home s = refl

joined_stays :
    (home : Result Text) (r b : Text)
    → expand_home home (join_path (b'/' ∷ r) b) ≡ ok (join_path (b'/' ∷ r) b)
joined_stays home r b = let (s, e) = rooted r b in rw e (stays home s)

abbrev absolute : Text → Result Text
absolute r = ok (b'/' ∷ r)

alone :
    (r : Text)
    → expand_home (absolute r) (expand_models_dir (absolute r) (b'~' ∷ []))
      ≡ expand_home (absolute r) (b'~' ∷ [])
unfolding expand_home expand_models_dir has_prefix text_dec
alone r = refl

below_models :
    (r s : Text) → expand_models_dir (absolute r) (b'~' ∷ b'/' ∷ s) ≡ join_path (b'/' ∷ r) s
unfolding expand_models_dir has_prefix text_dec
below_models r s = refl

below_home : (r s : Text) → expand_home (absolute r) (b'~' ∷ b'/' ∷ s) ≡ ok (join_path (b'/' ∷ r) s)
unfolding expand_home has_prefix
below_home r s = refl

other_models :
    (r : Text) (d : ℕ) (s : Text)
    → (d == b'/') ≡ false
    → expand_models_dir (absolute r) (b'~' ∷ d ∷ s) ≡ b'~' ∷ d ∷ s
unfolding expand_models_dir has_prefix
other_models r d s other = ground arith

no_tilde :
    (r : Text) (c : ℕ) (s : Text)
    → (c == b'~') ≡ false
    → expand_models_dir (absolute r) (c ∷ s) ≡ c ∷ s
unfolding expand_models_dir has_prefix
no_tilde r c s other = ground arith

is_char : (c d : ℕ) → (c == d) ≡ true → c ≡ d
is_char c d e = ground arith

tilde :
    (r s : Text)
    → expand_home (absolute r) (expand_models_dir (absolute r) (b'~' ∷ s))
      ≡ expand_home (absolute r) (b'~' ∷ s)
tilde r [] = alone r
tilde r (d ∷ s) = elim (Bool-cases (d == b'/')) [
  | inl slash ↦ rw (is_char d b'/' slash) (
      ap (expand_home (absolute r)) (below_models r s)
      ∙ joined_stays (absolute r) r s
      ∙ sym (below_home r s))
  | inr other ↦ ap (expand_home (absolute r)) (other_models r d s other)
]

-- That main.go has expanded the models directory before the registry expands it does not matter, if the
-- home directory is absolute.
pub expand_home-expand_models_dir :
    (r dir : Text)
    → expand_home (absolute r) (expand_models_dir (absolute r) dir) ≡ expand_home (absolute r) dir
unfolding expand_models_dir has_prefix
expand_home-expand_models_dir r [] = refl
expand_home-expand_models_dir r (c ∷ s) = elim (Bool-cases (c == b'~')) [
  | inl home ↦ rw (is_char c b'~' home) (tilde r s)
  | inr other ↦ ap (expand_home (absolute r)) (no_tilde r c s other)
]
