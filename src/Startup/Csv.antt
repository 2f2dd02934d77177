-- ===== src/Startup/Csv.antt =====
-- splitCSV of cmd/modeld/main.go, which reads what strings.Join writes.
use modeld_go.Common.{
  ℕ, false, ◌≡◌, ◌∙◌, refl, ap, List, [], ◌∷◌, ◌++◌, append_assoc, Text, codes, is_empty,
  trim_space, if◌then◌else◌, ◌==◌, All, arith,
}
use modeld_go.Startup.Paths.{split_on, into_first, join_with}

-- The loop over the parts.
unfoldable pub trimmed : List Text → List Text
trimmed [] = []
trimmed (p ∷ ps) =
    let rest = trimmed ps in if is_empty (trim_space p) then rest else trim_space p ∷ rest

unfoldable pub split_csv : Text → List Text
unfolding trimmed split_on
split_csv s = trimmed (split_on b',' s)

-- No comma in a text.
abbrev pub PlainText : Text → Type 0
PlainText = All (λ c. (c == b',') ≡ false)

-- An item that a list of this kind can carry: not empty, no space at its ends, no comma.
abbrev pub IsItem : Text → Type 0
IsItem t = (trim_space t ≡ t) × (is_empty t ≡ false) × PlainText t

split_other :
    (c : ℕ) (t : Text)
    → (c == b',') ≡ false
    → split_on b',' (c ∷ t) ≡ into_first c (split_on b',' t)
unfolding split_on
split_other c t h = ground arith

split_comma : (t : Text) → split_on b',' (b',' ∷ t) ≡ [] ∷ split_on b',' t
unfolding split_on
split_comma t = refl

split_empty : split_on b',' [] ≡ [] ∷ []
unfolding split_on
split_empty = refl

split_plain : (t : Text) → PlainText t → split_on b',' t ≡ t ∷ []
split_plain [] h = split_empty
split_plain (c ∷ t) (h, hs) = split_other c t h ∙ ap (into_first c) (split_plain t hs)

split_before : (t s : Text) → PlainText t → split_on b',' (t ++ b',' ∷ s) ≡ t ∷ split_on b',' s
split_before [] s h = split_comma s
split_before (c ∷ t) s (h, hs) =
    split_other c (t ++ b',' ∷ s) h ∙ ap (into_first c) (split_before t s hs)

join_more :
    (t u : Text) (ts : List Text)
    → join_with (codes ",") (t ∷ u ∷ ts) ≡ t ++ b',' ∷ join_with (codes ",") (u ∷ ts)
unfolding join_with
join_more t u ts = append_assoc t (codes ",") (join_with (codes ",") (u ∷ ts))

join_one : (t : Text) → join_with (codes ",") (t ∷ []) ≡ t
unfolding join_with
join_one t = refl

split_join :
    (t : Text) (ts : List Text)
    → All IsItem (t ∷ ts)
    → split_on b',' (join_with (codes ",") (t ∷ ts)) ≡ t ∷ ts
split_join t [] ((a, b, c), hs) = ap (split_on b',') (join_one t) ∙ split_plain t c
split_join t (u ∷ ts) ((a, b, c), hs) =
    ap (split_on b',') (join_more t u ts)
    ∙ split_before t (join_with (codes ",") (u ∷ ts)) c
    ∙ ap (λ us. t ∷ us) (split_join u ts hs)

trimmed_items : (ts : List Text) → All IsItem ts → trimmed ts ≡ ts
unfolding trimmed
trimmed_items [] h = refl
trimmed_items (t ∷ ts) ((a, b, c), hs) = rw (a, b, trimmed_items ts hs) refl

-- The list of a configuration file, joined by commas for the flag, is read back by splitCSV, if its
-- items are not empty, have no comma and no space at their ends.
pub split_csv-join_with :
    (ts : List Text) → All IsItem ts → split_csv (join_with (codes ",") ts) ≡ ts
unfolding split_csv join_with trim_space
split_csv-join_with [] h = refl
split_csv-join_with (t ∷ ts) h = ap trimmed (split_join t ts h) ∙ trimmed_items (t ∷ ts) h
