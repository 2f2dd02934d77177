-- ===== src/Output/Writing.antt =====
-- writeAll of internal/manager/inference.go, against the contract of io.Writer.
use modeld_go.Common.{
  ℕ, zero, suc, ◌+◌, ◌≤◌, ◌≡◌, ◌∙◌, refl, sym, ap, Option, none, some, List, [], ◌∷◌, ◌++◌,
  append_assoc, append-nil, Text, ℤ, pos, length, drop, take, take-append-drop, length-drop, arith,
}
use modeld_go.Errors.{Error}
use modeld_go.Output.{Outcome, value, panicked, Writer, after_write, write_rounds, write_all}

module _ {W : Type 0} (text : W → Text) where
  -- What io.Writer promises of one call: some bytes from the front have been written, as many as
  -- it says. It may say 0.
  abbrev pub Wrote : Text → W → W × ℤ × Option Error → Type 0
  Wrote p w (w', n, e) = (k : ℕ) × (n ≡ pos k) × (k ≤ length p) × (text w' ≡ text w ++ take k p)

  -- All of a text has been written, or with an error some of its front; no panic.
  abbrev pub Written : Text → W → W × Outcome (Option Error) → Type 0
  Written p w (w', value none) = text w' ≡ text w ++ p
  Written p w (w', value (some e)) = (k : ℕ) × (text w' ≡ text w ++ take k p)
  Written p w (w', panicked why) = ⊥

take_more :
    {A : Type 0} (j k : ℕ) (p : List A)
    → k ≤ length p
    → take k p ++ take j (drop k p) ≡ take (k + j) p
take_more j zero p h = let e : 0 + j ≡ j = omega arith in rw e refl
take_more j (suc k) [] h = absurd (omega (arith, h))
take_more j (suc k) (x ∷ p) h =
    let e : suc k + j ≡ suc (k + j) = omega arith in rw (e, take_more j k p (omega (arith, h))) refl

module _ {W : Type 0} (text : W → Text) where
  resume :
      (k : ℕ) (p : Text) (w w' : W) (r : W × Outcome (Option Error))
      → k ≤ length p
      → text w' ≡ text w ++ take k p
      → Written text (drop k p) w' r
      → Written text p w r
  resume k p w w' (v, value none) h e written =
      written
      ∙ ap (λ t. t ++ drop k p) e
      ∙ append_assoc (text w) (take k p) (drop k p)
      ∙ ap (λ t. text w ++ t) (take-append-drop k p)
  resume k p w w' (v, value (some x)) h e (j, written) = (
    k + j,
    written
        ∙ ap (λ t. t ++ take j (drop k p)) e
        ∙ append_assoc (text w) (take k p) (take j (drop k p))
        ∙ ap (λ t. text w ++ t) (take_more j k p h),
  )
  resume k p w w' (v, panicked why) h e written = written

  round-Written :
      (next : Text → W → W × Outcome (Option Error)) (c : ℕ) (p : Text) (w : W)
      (r : W × ℤ × Option Error)
      → Wrote text (c ∷ p) w r
      → ((q : Text) (v : W) → length q ≤ length p → Written text q v (next q v))
      → Written text (c ∷ p) w (after_write next (c ∷ p) r)
  unfolding after_write
  round-Written next c p w (w', n, some x) (k, count, room, e) go = (k, e)
  round-Written next c p w (w', n, none) (zero, count, room, e) go = rw count (0, e)
  round-Written next c p w (w', n, none) (suc k, count, room, e) go =
      let q : after_write next (c ∷ p) (w', pos (suc k), none) ≡ next (drop k p) w' =
        ground (arith, room) in
      rw (count, q)
        (resume (suc k) (c ∷ p) w w' (next (drop k p) w') room e
          (go (drop k p) w' (omega (arith, length-drop (suc k) (c ∷ p) room))))

module _ {W : Type 0} (text : W → Text) (write : Writer W)
    (contract : (p : Text) (w : W) → Wrote text p w (write p w)) where
  rounds-Written :
      (fuel : ℕ) (p : Text) (w : W)
      → length p ≤ fuel
      → Written text p w (write_rounds write fuel p w)
  unfolding write_rounds
  rounds-Written fuel [] w h = sym (append-nil _)
  rounds-Written zero (c ∷ p) w h = absurd (omega (arith, h))
  rounds-Written (suc fuel) (c ∷ p) w h =
      round-Written text (write_rounds write fuel) c p w (write (c ∷ p) w) (contract (c ∷ p) w)
        (λ q. λ v. λ shorter. rounds-Written fuel q v (omega (arith, shorter, h)))

  -- With a writer that keeps the contract of io.Writer, writeAll without an error has written the whole
  -- text behind what was there, with an error a front part of it, and it does not panic.
  pub write_all-Written : (p : Text) (w : W) → Written text p w (write_all write p w)
  unfolding write_all
  write_all-Written p w = rounds-Written (length p) p w (omega arith)
