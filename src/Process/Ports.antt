-- ===== src/Process/Ports.antt =====
-- pickPortInRange and pickFreePort of internal/manager/adapter_llama_subprocess.go.
use native.Mathlib.Decide.{ℕ_discrete}
use modeld_go.Common.{
  ◌≡◌, ◌∙◌, ap, ◌≤◌, ◌<◌, Bool-cases, inl, inr, arith, ℕ, zero, suc, ◌+◌, ◌-◌, Bool, true, false,
  Option, none, some, ◌++◌, Text, codes, decimal, ℤ, pos, atoi, after_last_colon,
}
use modeld_go.Errors.{Error, plain, Result, ok, err}

-- The loop over the ports `p`, `p + 1`, …: `rounds` of them are left. `listen` says which ports
-- net.Listen can be had on.
unfoldable pub try_ports : (ℕ → Bool) → ℕ → ℕ → Option ℕ
try_ports listen zero p = none
try_ports listen (suc rounds) p = elim (listen p) [
  | true ↦ some p
  | false ↦ try_ports listen rounds (p + 1)
]

unfoldable pub pick_port_in_range : (ℕ → Bool) → ℕ → ℕ → Result ℕ
unfolding try_ports
pick_port_in_range listen start end = elim (try_ports listen (end + 1 - start) start) [
  | some p ↦ ok p
  | none ↦ err (
      plain (
        codes "no free port in range "
        ++ (decimal (pos start) ++ (codes "-" ++ decimal (pos end)))))
]

-- pickFreePort: the address that the system gave to a listener on port 0, or the error.
unfoldable pub pick_free_port : Result Text → Result ℤ
pick_free_port (err e) = err e
pick_free_port (ok addr) = elim (after_last_colon addr) [
  | none ↦ err (plain (codes "unexpected addr: " ++ addr))
  | some digits ↦ elim (atoi digits) [
    | none ↦ err (plain (codes "strconv.Atoi: parsing " ++ digits ++ codes ": invalid"))
    | some p ↦ ok p
  ]
]

-- What the search over the rounds from `p` on gives: the first port that can be listened on.
abbrev pub First : (ℕ → Bool) → ℕ → ℕ → Option ℕ → Type 0
First listen p end (some q) =
    (p ≤ q) × (q < end) × (listen q ≡ true) × ((r : ℕ) → p ≤ r → r < q → listen r ≡ false)
First listen p end none = (r : ℕ) → p ≤ r → r < end → listen r ≡ false

least_or_later :
    (listen : ℕ → Bool) (p end : ℕ) (o : Option ℕ)
    → listen p ≡ false
    → p < end
    → First listen (p + 1) end o
    → First listen p end o
least_or_later listen p end (some q) busy lt (a, b, c, d) = (
  omega arith,
  b,
  c,
  λ r h k. elim (ℕ_discrete r p) [ yes e ↦ ap listen e ∙ busy | no ne ↦ d r (omega arith) k ],
)
least_or_later listen p end none busy lt d =
    λ r h k. elim (ℕ_discrete r p) [ yes e ↦ ap listen e ∙ busy | no ne ↦ d r (omega arith) k ]

try_ports-First :
    (listen : ℕ → Bool) (rounds p end : ℕ)
    → p + rounds ≡ end
    → First listen p end (try_ports listen rounds p)
unfolding try_ports
try_ports-First listen zero p end e = λ r h k. absurd (omega arith)
try_ports-First listen (suc rounds) p end e = elim (Bool-cases (listen p)) [
  | inl free ↦ rw (free, try_ports) (omega arith, omega arith, free, λ r h k. absurd (omega arith))
  | inr busy ↦
      rw (busy, try_ports)
        (least_or_later listen p end _ busy (omega arith)
          (try_ports-First listen rounds (p + 1) end (omega arith)))
]

-- What pickPortInRange promises of its result.
abbrev pub PicksFirst : (ℕ → Bool) → ℕ → ℕ → Result ℕ → Type 0
PicksFirst listen start end (ok q) =
    (start ≤ q) × (q ≤ end) × (listen q ≡ true) × ((r : ℕ) → start ≤ r → r < q → listen r ≡ false)
PicksFirst listen start end (err e) = (r : ℕ) → start ≤ r → r ≤ end → listen r ≡ false

First-PicksFirst :
    (listen : ℕ → Bool) (start end : ℕ) (o : Option ℕ) (e : Error)
    → First listen start (end + 1) o
    → PicksFirst listen start end (elim o [ some p ↦ ok p | none ↦ err e ])
First-PicksFirst listen start end (some q) e (a, b, c, d) = (a, omega arith, c, d)
First-PicksFirst listen start end none e d = λ r h k. d r h (omega arith)

-- For a range that is not empty, a port that pickPortInRange returns lies in the range, can be
-- listened on, and is the first such; on an error no port of the range can be listened on.
pub pick_port_in_range_lem :
    (listen : ℕ → Bool) (start end : ℕ)
    → start ≤ end
    → PicksFirst listen start end (pick_port_in_range listen start end)
unfolding pick_port_in_range
pick_port_in_range_lem listen start end h =
    First-PicksFirst listen start end _ _
      (try_ports-First listen (end + 1 - start) start (end + 1) (omega arith))
