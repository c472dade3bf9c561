-- ===== src/Ranges/Next.antt =====
-- What `next` of range-prefetch.js promises to the transport that fetches what it returns.
use mathlib.Core.Path.{subst}
use mathlib.Core.Option.{none-ne-some}
use mathlib.Core.Bool.{false≢true}
use my.Base.{
  ℕ, ◌<◌, ◌≡◌, refl, ◌∙◌, ap, sym, ◌↔◌, Bool, true, false, Option, none, some, List, length, set,
  arith,
}
use my.Ranges.{Order, flag, next, units, completed_units, stats}
use my.Ranges.Walk.{InRanges, IsValid, Takes, Takes-IsValid, next-lem}
use my.Ranges.Coverage.{completed-all, all-completed, completed-set, times_in-pos}

-- `next` returns -1 exactly where the statistics say that all units of the ranges are completed.
pub next-eq_none :
    (c : List Bool) (o : Order)
    → IsValid o
    → ((next c o).1 ≡ none) ↔ ((stats c o).completed_units ≡ (stats c o).units)
unfolding stats
next-eq_none c o h = (λ e. to _ refl e, λ e. from _ refl e)
  where
    to :
        (p : Order × Option ℕ)
        → next c o ≡ p
        → (next c o).1 ≡ none
        → completed_units c o.ranges ≡ units o.ranges
    to (o', none) e n = all-completed c o.ranges (subst (Takes c o.ranges 0 o) e (next-lem c o h)).1
    to (o', some u) e n = absurd (none-ne-some u (sym n ∙ ap (λ p. p.1) e))

    from :
        (p : Order × Option ℕ)
        → next c o ≡ p
        → completed_units c o.ranges ≡ units o.ranges
        → (next c o).1 ≡ none
    from (o', none) e n = ap (λ p. p.1) e
    from (o', some u) e n =
        let t = subst (Takes c o.ranges 0 o) e (next-lem c o h) in
        absurd (false≢true (sym t.1 ∙ completed-all c o.ranges u n t.0))

-- A unit that `next` returns is in the ranges and is not covered; the walk stays valid over the same
-- ranges; and once the unit is covered the count of completed units is higher.
pub next-eq_some :
    (c : List Bool) (o o' : Order) (u : ℕ)
    → IsValid o
    → next c o ≡ (o', some u)
    → InRanges u o.ranges
      × (flag c u ≡ false)
      × IsValid o'
      × (o'.ranges ≡ o.ranges)
      × (u < length c → completed_units c o.ranges < completed_units (set c u true) o.ranges)
next-eq_some c o o' u h e =
    let t = subst (Takes c o.ranges 0 o) e (next-lem c o h) in
    (
      t.0,
      t.1,
      Takes-IsValid c o (o', some u) h t,
      t.3,
      λ lt. omega (arith, completed-set c o.ranges u lt t.1, times_in-pos u o.ranges t.0),
    )
