-- ===== src/Http/Logging/Lines.antt =====
-- The lines that a loggingLineWriter logs do not depend on how the text is cut into writes
-- (internal/httpapi/logging.go).
use modeld_go.Common.{
  ℕ, zero, suc, length, ◌≤◌, ◌<◌, ◌≡◌, ◌∙◌, refl, sym, ap, true, false, Option, none, some, List,
  [], ◌∷◌, ◌++◌, append_assoc, append-nil, Text, if◌then◌else◌, ◌==◌, arith, Bool-cases, inl, inr,
}
use modeld_go.Http.Logging.{
  LineWriter, longer, cut_line, log_line, after_cut, write_loop, line_write,
}

-- One character at a time: a line feed logs the buffer, anything else is kept.
abbrev pub push : ℕ → LineWriter → LineWriter
push c lw =
    if c == b'\n'
    then record { buf = []; logged = log_line lw.buf lw.logged }
    else record lw { buf = lw.buf ++ c ∷ [] }

abbrev pub scan : Text → LineWriter → LineWriter
scan [] lw = lw
scan (c ∷ p) lw = scan p (push c lw)

abbrev at : Text → List Text → LineWriter
at b l = record { buf = b; logged = l }

Scanned : Text → Text → List Text → Option (Text × Text) → Type 0
Scanned t b l none = scan t (at b l) ≡ at (b ++ t) l
Scanned t b l (some (line, rest)) =
    (scan t (at b l) ≡ scan rest (at [] (log_line (b ++ line) l))) × (length rest < length t)

cut_feed : (c : ℕ) (t : Text) → (c == b'\n') ≡ true → cut_line (c ∷ t) ≡ some ([], t)
unfolding cut_line
cut_feed c t e = ground arith

cut_plain : (c : ℕ) (t : Text) → (c == b'\n') ≡ false → cut_line (c ∷ t) ≡ longer c (cut_line t)
unfolding cut_line
cut_plain c t e = ground arith

push_feed :
    (c : ℕ) (b : Text) (l : List Text)
    → (c == b'\n') ≡ true
    → push c (at b l) ≡ at [] (log_line b l)
push_feed c b l e = ground arith

push_plain :
    (c : ℕ) (b : Text) (l : List Text) → (c == b'\n') ≡ false → push c (at b l) ≡ at (b ++ c ∷ []) l
push_plain c b l e = ground arith

cut_more :
    (c : ℕ) (t b : Text) (l : List Text) (r : Option (Text × Text))
    → (c == b'\n') ≡ false
    → Scanned t (b ++ c ∷ []) l r
    → Scanned (c ∷ t) b l (longer c r)
unfolding Scanned
cut_more c t b l none plain h =
    ap (scan t) (push_plain c b l plain) ∙ h ∙ ap (λ u. at u l) (append_assoc b (c ∷ []) t)
cut_more c t b l (some (line, rest)) plain (h, shorter) = (
  ap (scan t) (push_plain c b l plain)
      ∙ h
      ∙ ap (λ u. scan rest (at [] (log_line u l))) (append_assoc b (c ∷ []) line),
  omega (arith, shorter),
)

cut_nil : cut_line [] ≡ none
unfolding cut_line
cut_nil = refl

cut_line-Scanned : (t b : Text) (l : List Text) → Scanned t b l (cut_line t)
unfolding Scanned
cut_line-Scanned [] b l = rw (cut_nil, Scanned) (ap (λ u. at u l) (sym (append-nil b)))
cut_line-Scanned (c ∷ t) b l = elim (Bool-cases (c == b'\n')) [
  | inl feed ↦
      rw (cut_feed c t feed, Scanned)
        (
          ap (scan t) (push_feed c b l feed)
              ∙ ap (λ u. scan t (at [] (log_line u l))) (sym (append-nil b)),
          omega arith,
        )
  | inr plain ↦
      rw (cut_plain c t plain)
        (cut_more c t b l (cut_line t) plain (cut_line-Scanned t (b ++ c ∷ []) l))
]

after_cut-scan :
    (next : LineWriter → LineWriter) (t : Text) (l : List Text) (r : Option (Text × Text))
    → Scanned t [] l r
    → ((rest : Text) (k : List Text)
        → length rest < length t
        → next (at rest k) ≡ scan rest (at [] k))
    → after_cut next (at t l) r ≡ scan t (at [] l)
unfolding Scanned after_cut
after_cut-scan next t l none h go = sym h
after_cut-scan next t l (some (line, rest)) (h, shorter) go =
    go rest (log_line line l) shorter ∙ sym h

-- With the buffer's length as fuel, the loop does what reading one character at a time does.
loop-scan :
    (fuel : ℕ) (t : Text) (l : List Text)
    → length t ≤ fuel
    → write_loop fuel (at t l) ≡ scan t (at [] l)
unfolding write_loop
loop-scan zero [] l h = refl
loop-scan zero (c ∷ t) l h = absurd (omega (arith, h))
loop-scan (suc fuel) t l h =
    after_cut-scan (write_loop fuel) t l (cut_line t) (cut_line-Scanned t [] l)
      (λ rest. λ k. λ shorter. loop-scan fuel rest k (omega (arith, h, shorter)))

-- No whole line is in the buffer.
abbrev pub IsClean : LineWriter → Type 0
IsClean lw = cut_line lw.buf ≡ none

scan-append : (a b : Text) (lw : LineWriter) → scan (a ++ b) lw ≡ scan b (scan a lw)
scan-append [] b lw = refl
scan-append (c ∷ a) b lw = scan-append a b (push c lw)

clean_from :
    (t : Text) (l : List Text) (r : Option (Text × Text))
    → Scanned t [] l r
    → r ≡ none
    → scan t (at [] l) ≡ at t l
unfolding Scanned
clean_from t l none h e = h
clean_from t l (some x) h e = absurd cc

clean_scan : (t : Text) (l : List Text) → cut_line t ≡ none → scan t (at [] l) ≡ at t l
clean_scan t l clean = clean_from t l (cut_line t) (cut_line-Scanned t [] l) clean

cut_longer : (c : ℕ) (r : Option (Text × Text)) → longer c r ≡ none → r ≡ none
cut_longer c none e = refl
cut_longer c (some (line, rest)) e = absurd cc

clean_snoc :
    (c : ℕ) (b : Text) → (c == b'\n') ≡ false → cut_line b ≡ none → cut_line (b ++ c ∷ []) ≡ none
clean_snoc c [] plain clean = cut_plain c [] plain ∙ ap (longer c) clean
clean_snoc c (d ∷ b) plain clean = elim (Bool-cases (d == b'\n')) [
  | inl feed ↦ let e = sym (cut_feed d b feed) ∙ clean in absurd cc
  | inr other ↦
      cut_plain d (b ++ c ∷ []) other
      ∙ ap (longer d)
          (clean_snoc c b plain (cut_longer d (cut_line b) (sym (cut_plain d b other) ∙ clean)))
]

push-IsClean : (c : ℕ) (lw : LineWriter) → IsClean lw → IsClean (push c lw)
push-IsClean c lw clean = elim (Bool-cases (c == b'\n')) [
  | inl feed ↦ rw (push_feed c lw.buf lw.logged feed) cut_nil
  | inr plain ↦ rw (push_plain c lw.buf lw.logged plain) (clean_snoc c lw.buf plain clean)
]

scan-IsClean : (p : Text) (lw : LineWriter) → IsClean lw → IsClean (scan p lw)
scan-IsClean [] lw clean = clean
scan-IsClean (c ∷ p) lw clean = scan-IsClean p (push c lw) (push-IsClean c lw clean)

-- A write to a writer that holds no whole line logs what a scan of the text, one character at a time,
-- logs, and leaves what such a scan leaves in the buffer.
pub line_write_lem : (p : Text) (lw : LineWriter) → IsClean lw → line_write p lw ≡ scan p lw
unfolding line_write
line_write_lem p lw clean =
    loop-scan (length (lw.buf ++ p)) (lw.buf ++ p) lw.logged (omega arith)
    ∙ scan-append lw.buf p (at [] lw.logged)
    ∙ ap (scan p) (clean_scan lw.buf lw.logged clean)

-- Two writes log the same lines as one write of the whole text, and leave the same buffer, if the
-- writer holds no whole line before, as a new one does.
pub line_write-append :
    (p q : Text) (lw : LineWriter)
    → IsClean lw
    → line_write q (line_write p lw) ≡ line_write (p ++ q) lw
line_write-append p q lw clean =
    let first = line_write_lem p lw clean in
    ap (line_write q) first
    ∙ line_write_lem q (scan p lw) (scan-IsClean p lw clean)
    ∙ sym (line_write_lem (p ++ q) lw clean ∙ scan-append p q lw)
