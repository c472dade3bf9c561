-- ===== src/Ranges/Walk.antt =====
-- The walk of `RangePrefetchOrder` in range-prefetch.js: `next` returns units of the ranges that are
-- not covered, and -1 only where there are none.
use native.Mathlib.Nat.{mod-lt, mod-eq_of_lt, add-mod_right}
use mathlib.Core.Path.{subst}
use mathlib.Core.Option.{some-injective, none-ne-some}
use my.Base.{
  ℕ, zero, suc, ◌+◌, ◌-◌, ◌%◌, ◌≤◌, ◌<◌, ◌≡◌, refl, ◌∙◌, ap, sym, ◌⊎◌, inl, inr, Bool, true, false,
  Option, none, some, List, [], ◌∷◌, All, arith, ◌==◌, Bool-cases, leb,
}
use my.Ranges.{
  Range, Order, flag, after, scan_from, scan, take_unit, choose, next_from, next_active, range_at,
  next,
}

abbrev pub Within : ℕ → Range → Type 0
Within u r = (r.0 ≤ u) × (u ≤ r.1)

abbrev pub InRanges : ℕ → List Range → Type 0
InRanges u [] = ⊥
InRanges u (r ∷ rs) = Within u r ⊎ InRanges u rs

-- Each range goes forwards, and the cursor is in the active range if there is a range at all.
pub record IsValid (o : Order) : Type 0 where
  pub ordered : All (λ r. r.0 ≤ r.1) o.ranges
  pub placed :
      (o.ranges ≡ []) ⊎ ((r : Range) × (range_at o.ranges o.active ≡ some r) × Within o.cursor r)

scan_from_sound :
    (c : List Bool) (first len base n k u : ℕ)
    → 0 < len
    → scan_from c first len base n k ≡ some u
    → (first ≤ u) × (u < first + len) × (flag c u ≡ false)
unfolding scan_from
scan_from_sound c first len base n zero u h e = cc
scan_from_sound c first len base n (suc k) u h e =
    let r : (base + n) % len < len = mod-lt (base + n) h in
    ground (arith, scan_from_sound c first len base (n + 1) k u)

scan_from-none :
    (c : List Bool) (first len base n k m : ℕ)
    → scan_from c first len base n k ≡ none
    → n ≤ m
    → m < n + k
    → flag c (first + (base + m) % len) ≡ true
unfolding scan_from
scan_from-none c first len base n zero m e p q = absurd (omega arith)
scan_from-none c first len base n (suc k) m e p q = elim (Bool-cases (n == m)) [
  | inl here ↦ ground arith
  | inr later ↦ ground (arith, scan_from-none c first len base (n + 1) k m)
]

scan_sound :
    (c : List Bool) (r : Range) (cursor u : ℕ)
    → r.0 ≤ r.1
    → scan c r cursor ≡ some u
    → Within u r × (flag c u ≡ false)
unfolding scan
scan_sound c (first, last) cursor u h e =
    let s =
      scan_from_sound c first (last - first + 1) (cursor - first) 0 (last - first + 1) u
        (omega arith) e in
    ((omega arith, omega arith), s.2)

rest_of : (len x j : ℕ) → j < len → x ≡ j → x % len ≡ j
rest_of len x j h e = rw e (mod-eq_of_lt h)

turn_of : (len x j : ℕ) → j < len → x ≡ j + len → x % len ≡ j
turn_of len x j h e = rw e (add-mod_right j len ∙ mod-eq_of_lt h)

-- The round that meets position `j` of the range.
round_of : (len base j : ℕ) → base < len → j < len → (m : ℕ) × (m < len) × ((base + m) % len ≡ j)
round_of len base j b h = elim (Bool-cases (leb base j)) [
  | inl e ↦ (j - base, ground arith, rest_of len (base + (j - base)) j h (ground arith))
  | inr e ↦ (j + len - base, ground arith, turn_of len (base + (j + len - base)) j h (ground arith))
]

scan-none :
    (c : List Bool) (r : Range) (cursor u : ℕ)
    → Within cursor r
    → scan c r cursor ≡ none
    → Within u r
    → flag c u ≡ true
unfolding scan
scan-none c (first, last) cursor u h e w =
    let m = round_of (last - first + 1) (cursor - first) (u - first) (omega arith) (omega arith) in
    let f =
      scan_from-none c first (last - first + 1) (cursor - first) 0 (last - first + 1) m.0 e
        (omega arith) (omega arith) in
    let u_is : first + (u - first) ≡ u = omega arith in
    subst (λ x. flag c x ≡ true) (ap (λ (x : ℕ). first + x) m.2 ∙ u_is) f

-- What a search of the ranges `rs`, the first of them at index `i`, finds: nothing where every unit of
-- them is covered, and else a unit of one of them that is not, the cursor left in that range.
abbrev pub Takes : List Bool → List Range → ℕ → Order → Order × Option ℕ → Type 0
Takes c rs i o (o', none) = (o' ≡ o) × ((u : ℕ) → InRanges u rs → flag c u ≡ true)
Takes c rs i o (o', some u) =
    InRanges u rs
    × (flag c u ≡ false)
    × ((k : ℕ) × (r : Range) × (range_at rs k ≡ some r) × (o'.active ≡ i + k) × Within o'.cursor r)
    × (o'.ranges ≡ o.ranges)
    × (o'.seen ≡ o.seen)

pub after-Within : (u : ℕ) (r : Range) → Within u r → Within (after u r) r
after-Within u r w = ground arith

Takes-here :
    (c : List Bool) (r : Range) (rs : List Range) (i u : ℕ) (o : Order)
    → Within u r
    → flag c u ≡ false
    → Takes c (r ∷ rs) i o (take_unit i r u o)
Takes-here c r rs i u o w f = (inl w, f, (0, r, refl, omega arith, after-Within u r w), refl, refl)

Takes-later :
    (c : List Bool) (r : Range) (rs : List Range) (i : ℕ) (o : Order) (p : Order × Option ℕ)
    → ((u : ℕ) → Within u r → flag c u ≡ true)
    → Takes c rs (i + 1) o p
    → Takes c (r ∷ rs) i o p
Takes-later c r rs i o (o', none) all t = (t.0, λ u w. elim w [ inl x ↦ all u x | inr y ↦ t.1 u y ])
Takes-later c r rs i o (o', some u) all t =
    let k = t.2.0 in (inr t.0, t.1, (suc k, t.2.1, t.2.2, omega (arith, t.2.3), t.2.4), t.3, t.4)

choose-lem :
    (c : List Bool) (r : Range) (rs : List Range) (i cursor : ℕ) (o : Order) (found : Option ℕ)
    (p : Order × Option ℕ)
    → Within cursor r
    → scan c r cursor ≡ found
    → Takes c rs (i + 1) o p
    → Takes c (r ∷ rs) i o (choose i r o found p)
choose-lem c r rs i cursor o none p w e t =
    Takes-later c r rs i o p (λ u v. scan-none c r cursor u w e v) t
choose-lem c r rs i cursor o (some u) p w e t =
    let f = scan_sound c r cursor u (omega arith) e in Takes-here c r rs i u o f.0 f.1

next_from-lem :
    (c : List Bool) (rs : List Range) (i : ℕ) (o : Order)
    → All (λ r. r.0 ≤ r.1) rs
    → Takes c rs i o (next_from c rs i o)
unfolding next_from
next_from-lem c [] i o h = (refl, λ u w. absurd w)
next_from-lem c (r ∷ rs) i o h =
    choose-lem c r rs i r.0 o _ _ (omega arith) refl (next_from-lem c rs (i + 1) o h.1)

InRanges-at :
    (u : ℕ) (rs : List Range) (k : ℕ) (r : Range)
    → range_at rs k ≡ some r
    → Within u r
    → InRanges u rs
InRanges-at u [] k r e w = cc
InRanges-at u (x ∷ rs) zero r e w = inl (ground arith)
InRanges-at u (x ∷ rs) (suc k) r e w = inr (InRanges-at u rs k r e w)

pub ordered-at :
    (rs : List Range) (k : ℕ) (r : Range)
    → All (λ r. r.0 ≤ r.1) rs
    → range_at rs k ≡ some r
    → r.0 ≤ r.1
ordered-at [] k r h e = cc
ordered-at (x ∷ rs) zero r h e = ground arith
ordered-at (x ∷ rs) (suc k) r h e = ordered-at rs k r h.1 e

chosen-active :
    (c : List Bool) (r : Range) (o : Order) (found : Option ℕ)
    → range_at o.ranges o.active ≡ some r
    → Within o.cursor r
    → scan c r o.cursor ≡ found
    → Takes c o.ranges 0 o (next_from c o.ranges 0 o)
    → Takes c o.ranges 0 o (choose o.active r o found (next_from c o.ranges 0 o))
chosen-active c r o none a w e t = t
chosen-active c r o (some u) a w e t =
    let f = scan_sound c r o.cursor u (omega arith) e in
    (
      InRanges-at u o.ranges o.active r a f.0,
      f.1,
      (o.active, r, a, omega arith, after-Within u r f.0),
      refl,
      refl,
    )

next_active-lem :
    (c : List Bool) (a : Option Range) (o : Order)
    → IsValid o
    → range_at o.ranges o.active ≡ a
    → Takes c o.ranges 0 o (next_active c a o)
unfolding next_active
next_active-lem c none o h e = next_from-lem c o.ranges 0 o h.ordered
next_active-lem c (some r) o h e =
    chosen-active c r o _ e (cursor-Within r o h e) refl (next_from-lem c o.ranges 0 o h.ordered)
  where
    cursor-Within :
        (r : Range) (o : Order)
        → IsValid o
        → range_at o.ranges o.active ≡ some r
        → Within o.cursor r
    cursor-Within r o h e = elim h.placed [
      | inl n ↦ absurd (none-ne-some r (sym (ap (λ l. range_at l o.active) n) ∙ e))
      | inr p ↦ subst (Within o.cursor) (some-injective p.0 r (sym p.1 ∙ e)) p.2
    ]

-- What `next` returns: a unit of the ranges that is not covered, or nothing where all of them are.
pub next-lem : (c : List Bool) (o : Order) → IsValid o → Takes c o.ranges 0 o (next c o)
unfolding next
next-lem c o h = next_active-lem c (range_at o.ranges o.active) o h refl

pub Takes-IsValid :
    (c : List Bool) (o : Order) (p : Order × Option ℕ)
    → IsValid o
    → Takes c o.ranges 0 o p
    → IsValid p.0
Takes-IsValid c o (o', none) h t = subst IsValid (sym t.0) h
Takes-IsValid c o (o', some u) h t =
    let (k, r, at_k, active, inside_r) = t.2 in
    let same : o'.active ≡ k = omega arith in
    record {
      ordered = subst (All (λ r. r.0 ≤ r.1)) (sym t.3) h.ordered;
      placed = inr (r, rw (t.3, same) at_k, inside_r);
    }
