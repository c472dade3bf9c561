-- ===== src/Ranges/Observe.antt =====
-- `observe` of range-prefetch.js: the walk follows the guest's reads.
use native.Mathlib.Nat.{mod-eq_of_lt}
use mathlib.Core.Path.{subst}
use my.Base.{
  ℕ, zero, suc, ◌+◌, ◌-◌, ◌%◌, ◌≤◌, ◌<◌, ◌≡◌, refl, ◌∙◌, ap, sym, inl, inr, Bool, true, false,
  Option, none, some, List, [], ◌∷◌, All, set, arith, Bool-cases, if_cases,
}
use my.Ranges.{
  Range, Order, inside, flag, find_range, after, focus, observe_unit, observe_from, observe,
  scan_from, scan, next_active, range_at, next, create,
}
use my.Ranges.Walk.{Within, IsValid, after-Within}

scan_from-first :
    (c : List Bool) (first len base n k : ℕ)
    → 0 < k
    → flag c (first + (base + n) % len) ≡ false
    → scan_from c first len base n k ≡ some (first + (base + n) % len)
unfolding scan_from
scan_from-first c first len base n zero h f = elim h [ ]
scan_from-first c first len base n (suc k) h f = rw f

scan-cursor :
    (c : List Bool) (r : Range) (cursor : ℕ)
    → Within cursor r
    → flag c cursor ≡ false
    → scan c r cursor ≡ some cursor
unfolding scan
scan-cursor c (first, last) cursor w f =
    let len = last - first + 1 in
    let lt : cursor - first < len = omega arith in
    let zero_round : cursor - first + 0 ≡ cursor - first = omega arith in
    let small : (cursor - first + 0) % len ≡ cursor - first = rw zero_round (mod-eq_of_lt lt) in
    let at : first + (cursor - first + 0) % len ≡ cursor = omega arith in
    scan_from-first c first len (cursor - first) 0 len (omega arith)
      (subst (λ x. flag c x ≡ false) (sym at) f)
    ∙ ap some at

find_range-at :
    (u : ℕ) (rs : List Range) (n i : ℕ) (r : Range)
    → find_range u rs n ≡ some (i, r)
    → (k : ℕ) × (i ≡ n + k) × (range_at rs k ≡ some r) × Within u r
unfolding find_range
find_range-at u [] n i r e = cc
find_range-at u (x ∷ rs) n i r e = elim (Bool-cases (inside u x)) [
  | inl hit ↦ (0, ground arith, ground arith, ground arith)
  | inr miss ↦
      let ih = find_range-at u rs (n + 1) i r (ground arith) in
      (suc ih.0, omega (arith, ih.1), ih.2, ih.3)
]

focus-IsValid :
    (u : ℕ) (found : Option (ℕ × Range)) (o : Order)
    → IsValid o
    → find_range u o.ranges 0 ≡ found
    → IsValid (focus u found o)
focus-IsValid u none o h e = h
focus-IsValid u (some (i, r)) o h e =
    let f = find_range-at u o.ranges 0 i r e in
    let same : i ≡ f.0 = omega (arith, f.1) in
    record { ordered = h.ordered; placed = inr (r, rw same f.2, after-Within u r f.3) }

marked : ℕ → Order → Order
marked u o = record o { seen = set o.seen u true }

marked-IsValid : (u : ℕ) (o : Order) → IsValid o → IsValid (marked u o)
unfolding marked
marked-IsValid u o h = record { ordered = h.ordered; placed = h.placed }

observe_unit-IsValid : (u : ℕ) (o : Order) → IsValid o → IsValid (observe_unit u o)
unfolding observe_unit marked
observe_unit-IsValid u o h =
    if_cases IsValid (flag o.seen u) _ _ (λ _. h)
      (λ _. focus-IsValid u _ (marked u o) (marked-IsValid u o h) refl)

observe_from-IsValid : (n u : ℕ) (o : Order) → IsValid o → IsValid (observe_from n u o)
unfolding observe_from
observe_from-IsValid zero u o h = h
observe_from-IsValid (suc n) u o h =
    observe_from-IsValid n (u + 1) (observe_unit u o) (observe_unit-IsValid u o h)

ranges-observe_unit : (u : ℕ) (o : Order) → (observe_unit u o).ranges ≡ o.ranges
unfolding observe_unit
ranges-observe_unit u o = ground arith

ranges-observe_from : (n u : ℕ) (o : Order) → (observe_from n u o).ranges ≡ o.ranges
unfolding observe_from
ranges-observe_from zero u o = refl
ranges-observe_from (suc n) u o =
    ranges-observe_from n (u + 1) (observe_unit u o) ∙ ranges-observe_unit u o

-- A read of any length keeps the walk valid over the same ranges.
pub observe-IsValid :
    (offset count : ℕ) (o : Order)
    → IsValid o
    → IsValid (observe offset count o) × ((observe offset count o).ranges ≡ o.ranges)
unfolding observe
observe-IsValid offset count o h = (observe_from-IsValid _ _ o h, ranges-observe_from _ _ o)

-- The walk of a new object is valid if every range goes forwards.
pub IsValid-create :
    (ranges : List Range) (coverage : List Bool)
    → All (λ r. r.0 ≤ r.1) ranges
    → IsValid (create ranges coverage)
unfolding create
IsValid-create [] coverage h = record { ordered = h; placed = inl refl }
IsValid-create (r ∷ rs) coverage h = record {
  ordered = h;
  placed = inr (r, refl, (omega arith, omega arith));
}

-- Read-ahead: after the guest's first read of a unit in some range, the unit fetched next is the one
-- that follows it in that range, from the range's start again after its last, if it is not covered.
pub next-observe_unit :
    (c : List Bool) (u i : ℕ) (r : Range) (o : Order)
    → flag o.seen u ≡ false
    → find_range u o.ranges 0 ≡ some (i, r)
    → flag c (after u r) ≡ false
    → (next c (observe_unit u o)).1 ≡ some (after u r)
unfolding observe_unit next next_active
next-observe_unit c u i r o s f e =
    let at = find_range-at u o.ranges 0 i r f in
    let same : i ≡ at.0 = omega (arith, at.1) in
    let there : range_at o.ranges i ≡ some r = rw same at.2 in
    rw (s, f, there, scan-cursor c r (after u r) (after-Within u r at.3) e)
