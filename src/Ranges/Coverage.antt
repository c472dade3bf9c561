-- ===== src/Ranges/Coverage.antt =====
-- The statistics of `RangePrefetchOrder` in range-prefetch.js: how many units are covered.
use my.Base.{
  ℕ, zero, suc, ◌+◌, ◌-◌, ◌≤◌, ◌<◌, ◌≡◌, refl, inl, inr, Bool, true, false, List, [], ◌∷◌, length,
  set, arith, ◌==◌, Bool-cases, if◌then◌else◌, ltb, leb, ◌&&◌,
}
use my.Ranges.{Range, inside, flag, count_covered, units, completed_units}
use my.Ranges.Walk.{InRanges}

-- A set flag.
pub flag-set :
    (c : List Bool) (u v : ℕ)
    → u < length c
    → flag (set c u true) v ≡ (if u == v then true else flag c v)
unfolding flag
flag-set [] u v h = elim h [ ]
flag-set (b ∷ c) zero zero h = refl
flag-set (b ∷ c) zero (suc v) h = ground arith
flag-set (b ∷ c) (suc u) zero h = ground arith
flag-set (b ∷ c) (suc u) (suc v) h = ground (arith, flag-set c u v (omega arith))

pub count_covered-set :
    (c : List Bool) (u v n : ℕ)
    → u < length c
    → flag c u ≡ false
    → count_covered (set c u true) v n
      ≡ count_covered c v n + (if leb v u && ltb u (v + n) then 1 else 0)
unfolding count_covered
count_covered-set c u v zero h f = ground arith
count_covered-set c u v (suc n) h f =
    ground (arith, flag-set c u v h, count_covered-set c u (v + 1) n h f)

pub count_covered-le : (c : List Bool) (v n : ℕ) → count_covered c v n ≤ n
unfolding count_covered
count_covered-le c v zero = omega arith
count_covered-le c v (suc n) = ground (arith, count_covered-le c (v + 1) n)

-- All the units of a run are covered exactly if they are all counted.
count_covered-all :
    (c : List Bool) (v n u : ℕ) → count_covered c v n ≡ n → v ≤ u → u < v + n → flag c u ≡ true
unfolding count_covered
count_covered-all c v zero u e p q = absurd (omega arith)
count_covered-all c v (suc n) u e p q = elim (Bool-cases (v == u)) [
  | inl here ↦ ground (arith, count_covered-le c (v + 1) n)
  | inr later ↦ ground (arith, count_covered-le c (v + 1) n, count_covered-all c (v + 1) n u)
]

all-count_covered :
    (c : List Bool) (v n : ℕ)
    → ((u : ℕ) → v ≤ u → u < v + n → flag c u ≡ true)
    → count_covered c v n ≡ n
unfolding count_covered
all-count_covered c v zero all = refl
all-count_covered c v (suc n) all =
    let here : flag c v ≡ true = all v (omega arith) (omega arith) in
    let rest : count_covered c (v + 1) n ≡ n =
      all-count_covered c (v + 1) n (λ u p q. all u (omega arith) (omega arith)) in
    ground arith

pub completed-le : (c : List Bool) (rs : List Range) → completed_units c rs ≤ units rs
unfolding completed_units units
completed-le c [] = omega arith
completed-le c ((first, last) ∷ rs) =
    omega (arith, count_covered-le c first (last + 1 - first), completed-le c rs)

pub completed-all :
    (c : List Bool) (rs : List Range) (u : ℕ)
    → completed_units c rs ≡ units rs
    → InRanges u rs
    → flag c u ≡ true
unfolding completed_units units
completed-all c [] u e w = absurd w
completed-all c ((first, last) ∷ rs) u e w =
    let n = last + 1 - first in
    let here : count_covered c first n ≤ n = count_covered-le c first n in
    let rest : completed_units c rs ≤ units rs = completed-le c rs in
    elim w [
      | inl x ↦ count_covered-all c first n u (omega arith) (omega arith) (omega arith)
      | inr y ↦ completed-all c rs u (omega arith) y
    ]

pub all-completed :
    (c : List Bool) (rs : List Range)
    → ((u : ℕ) → InRanges u rs → flag c u ≡ true)
    → completed_units c rs ≡ units rs
unfolding completed_units units
all-completed c [] all = refl
all-completed c ((first, last) ∷ rs) all =
    let n = last + 1 - first in
    let here : count_covered c first n ≡ n =
      all-count_covered c first n (λ u p q. all u (inl (omega arith, omega arith))) in
    let rest : completed_units c rs ≡ units rs = all-completed c rs (λ u w. all u (inr w)) in
    omega arith

-- How many times a unit is in the ranges.
pub times_in : ℕ → List Range → ℕ
times_in u [] = 0
times_in u (r ∷ rs) = (if inside u r then 1 else 0) + times_in u rs

pub times_in-pos : (u : ℕ) (rs : List Range) → InRanges u rs → 1 ≤ times_in u rs
unfolding times_in
times_in-pos u [] w = absurd w
times_in-pos u (r ∷ rs) w = elim w [
  | inl x ↦ ground arith
  | inr y ↦ ground (arith, times_in-pos u rs y)
]

pub completed-set :
    (c : List Bool) (rs : List Range) (u : ℕ)
    → u < length c
    → flag c u ≡ false
    → completed_units (set c u true) rs ≡ completed_units c rs + times_in u rs
unfolding completed_units times_in
completed-set c [] u h f = omega arith
completed-set c ((first, last) ∷ rs) u h f =
    ground (arith, count_covered-set c u first (last + 1 - first) h f, completed-set c rs u h f)
