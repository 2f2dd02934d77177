-- ===== src/Manager/Evict/Victim.antt =====
-- The victim that pick_lru finds (internal/manager/instance_evict.go).
use native.Mathlib.Nat.{le_trans}
use modeld_go.Common.{
  Bool-cases, ◌≤◌, ◌≡◌, refl, true, false, Option, none, some, List, [], ◌∷◌, ◌⊎◌, inl, inr, arith,
  All, ltb, if◌then◌else◌,
}
use modeld_go.Manager.{Instance}
use modeld_go.Manager.Instances.{find, Distinct}
use modeld_go.Manager.Evict.{is_busy, older, pick_lru}

abbrev pub InList : Instance → List Instance → Type 0
InList l [] = ⊥
InList l (i ∷ is) = (i ≡ l) ⊎ InList l is

-- No idle instance of the list was used before `l`.
abbrev pub Oldest : Instance → List Instance → Type 0
Oldest l = All λ i. is_busy i ≡ false → l.last_used ≤ i.last_used

-- What the loop gives from the best so far.
abbrev Picked : Option Instance → List Instance → Option Instance → Type 0
Picked lru is none = (lru ≡ none) × All (λ i. is_busy i ≡ true) is
Picked lru is (some l) =
    ((lru ≡ some l) ⊎ (InList l is × (is_busy l ≡ false)))
    × Oldest l is
    × ((b : Instance) → lru ≡ some b → l.last_used ≤ b.last_used)

module _ (i : Instance) (is : List Instance) where
  -- The best so far stays.
  keep :
      (lru : Option Instance) (r : Option Instance)
      → (is_busy i ≡ true) ⊎ ((b : Instance) × (lru ≡ some b) × (b.last_used ≤ i.last_used))
      → Picked lru is r
      → Picked lru (i ∷ is) r
  keep lru none (inl busy) p = (p.0, (busy, p.1))
  keep lru none (inr (b, e, _)) p = ground arith
  keep lru (some l) (inl busy) (from, old, best) = (ground arith, ((λ idle. cc), old), best)
  keep lru (some l) (inr (b, e, le)) (from, old, best) =
      (ground arith, ((λ idle. le_trans (best b e) le), old), best)

  -- The instance becomes the best so far.
  take_over :
      (lru : Option Instance) (r : Option Instance)
      → is_busy i ≡ false
      → ((b : Instance) → lru ≡ some b → i.last_used ≤ b.last_used)
      → Picked (some i) is r
      → Picked lru (i ∷ is) r
  take_over lru none idle le p = ground arith
  take_over lru (some l) idle le (from, old, best) =
      (ground arith, ((λ _. best i refl), old), λ b e. le_trans (best i refl) (le b e))

Picked-step :
    (lru : Option Instance) (i : Instance) (is : List Instance) (r : Option Instance)
    → Picked (if is_busy i then lru else older i lru) is r
    → Picked lru (i ∷ is) r
Picked-step none i is r p = elim (Bool-cases (is_busy i)) [
  | inl e ↦ keep i is none r (inl e) (rw e at p)
  | inr e ↦ take_over i is none r e (λ b q. cc) (rw e at p)
]
Picked-step (some b) i is r p = elim (Bool-cases (is_busy i)) [
  | inl e ↦ keep i is (some b) r (inl e) (rw e at p)
  | inr e ↦ elim (Bool-cases (ltb i.last_used b.last_used)) [
    | inl lt ↦ take_over i is (some b) r e (λ c q. ground arith) (rw (e, lt) at p)
    | inr ge ↦ keep i is (some b) r (inr (b, refl, ground arith)) (rw (e, ge) at p)
  ]
]

pick_lru-Picked : (lru : Option Instance) (is : List Instance) → Picked lru is (pick_lru lru is)
unfolding pick_lru
pick_lru-Picked none [] = (refl, tt)
pick_lru-Picked (some b) [] = (inl refl, tt, λ c e. ground arith)
pick_lru-Picked lru (i ∷ is) =
    Picked-step lru i is _ (pick_lru-Picked (if is_busy i then lru else older i lru) is)

find_of_InList :
    (l : Instance) (is : List Instance) → Distinct is → InList l is → find l.id is ≡ some l
unfolding find Distinct
find_of_InList l [] d m = absurd m
find_of_InList l (i ∷ is) d (inl e) = ground arith
find_of_InList l (i ∷ is) d (inr m) = ground (arith, find_of_InList l is d.1 m)

-- What pick_lru promises: an idle instance of the map that no idle instance is older than, or nothing
-- if every instance is busy.
abbrev pub IsVictim : List Instance → Option Instance → Type 0
IsVictim is none = All (λ i. is_busy i ≡ true) is
IsVictim is (some l) = (find l.id is ≡ some l) × (is_busy l ≡ false) × Oldest l is

Picked-IsVictim :
    (is : List Instance) (r : Option Instance) → Distinct is → Picked none is r → IsVictim is r
Picked-IsVictim is none d p = p.1
Picked-IsVictim is (some l) d (inl e, old, _) = cc
Picked-IsVictim is (some l) d (inr (m, idle), old, _) = (find_of_InList l is d m, idle, old)

-- In a map with distinct keys, the instance that is picked stands in the map, is idle, and was used
-- no later than any other idle one; none is picked only if every instance runs or queues a request.
pub pick_lru-IsVictim : (is : List Instance) → Distinct is → IsVictim is (pick_lru none is)
pick_lru-IsVictim is d = Picked-IsVictim is _ d (pick_lru-Picked none is)
