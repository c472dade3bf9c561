-- ===== src/Ranges/Slots.antt =====
-- What `matchingRanges` of range-prefetch.js accepts, against the profile's own slots.
use mathlib.Core.Path.{subst}
use my.Base.{
  ℕ, ◌≤◌, ◌<◌, ◌≡◌, refl, sym, ap, ◌↔◌, true, false, Option, none, some, List, [], ◌∷◌, All, length,
  arith,
}
use my.Base.Num.{Num, nat, neg, other, max_safe, safe_nat}
use my.Base.Text.{Text}
use my.Ranges.{Range, range_slots}
use my.Ranges.Profile.{
  Slot, null, malformed, pair, Profile, bounds, cons_range, read_slots, sort, overlap,
  unless_overlap, header_ok, slots_ranges, matching_ranges,
}
use my.Ranges.Accepted.{
  IsApart, IsApart-sort, All-sort, sort-IsSorted, overlap-IsApart, apart-overlap,
}

-- `rs` are the slots that are not `null`, in their order, and each of them goes forwards and ends on
-- a disk of `units` units.
abbrev pub Reads : ℕ → List Slot → List Range → Type 0
Reads units [] [] = Unit
Reads units [] (r ∷ rs) = ⊥
Reads units (null ∷ slots) rs = Reads units slots rs
Reads units (malformed ∷ slots) rs = ⊥
Reads units (pair a b ∷ slots) [] = ⊥
Reads units (pair a b ∷ slots) (r ∷ rs) =
    (a ≡ nat r.0)
    × (b ≡ nat r.1)
    × (r.0 ≤ r.1)
    × (r.1 < units)
    × (r.1 ≤ max_safe)
    × Reads units slots rs

cons_range-eq_some :
    (o : Option Range) (t : Option (List Range)) (rs : List Range)
    → cons_range o t ≡ some rs
    → (r : Range) × (l : List Range) × (o ≡ some r) × (t ≡ some l) × (rs ≡ r ∷ l)
cons_range-eq_some none t rs h = cc
cons_range-eq_some (some r) none rs h = cc
cons_range-eq_some (some r) (some l) rs h = (r, l, refl, refl, ground arith)

bounds-eq_some :
    (units : ℕ) (a b : Num) (r : Range)
    → bounds units (safe_nat a) (safe_nat b) ≡ some r
    → (a ≡ nat r.0) × (b ≡ nat r.1) × (r.0 ≤ r.1) × (r.1 < units) × (r.1 ≤ max_safe)
bounds-eq_some units (nat m) (nat n) r h = ground arith
bounds-eq_some units (nat m) (neg n) r h = ground arith
bounds-eq_some units (nat m) other r h = ground arith
bounds-eq_some units (neg m) b r h = ground arith
bounds-eq_some units other b r h = ground arith

read_slots-Reads :
    (units : ℕ) (slots : List Slot) (rs : List Range)
    → read_slots units slots ≡ some rs
    → Reads units slots rs
unfolding read_slots
read_slots-Reads units [] [] h = tt
read_slots-Reads units [] (r ∷ rs) h = cc
read_slots-Reads units (null ∷ slots) rs h = read_slots-Reads units slots rs h
read_slots-Reads units (malformed ∷ slots) rs h = cc
read_slots-Reads units (pair a b ∷ slots) rs h =
    let c =
      cons_range-eq_some (bounds units (safe_nat a) (safe_nat b)) (read_slots units slots) rs h in
    let d = bounds-eq_some units a b c.0 c.2 in
    subst (Reads units (pair a b ∷ slots)) (sym c.4)
      (d.0, d.1, d.2, d.3, d.4, read_slots-Reads units slots c.1 c.3)

Reads-read_slots :
    (units : ℕ) (slots : List Slot) (rs : List Range)
    → Reads units slots rs
    → read_slots units slots ≡ some rs
unfolding read_slots
Reads-read_slots units [] [] h = refl
Reads-read_slots units [] (r ∷ rs) h = absurd h
Reads-read_slots units (null ∷ slots) rs h = Reads-read_slots units slots rs h
Reads-read_slots units (malformed ∷ slots) rs h = absurd h
Reads-read_slots units (pair a b ∷ slots) [] h = absurd h
Reads-read_slots units (pair a b ∷ slots) ((m, n) ∷ rs) h =
    let (ea, eb, le, lt, safe, rest) = h in ground (arith, Reads-read_slots units slots rs rest)

Reads-bounds :
    (units : ℕ) (slots : List Slot) (rs : List Range)
    → Reads units slots rs
    → All (λ r. r.0 ≤ r.1) rs × (length rs ≤ length slots)
Reads-bounds units [] [] h = (tt, omega arith)
Reads-bounds units [] (r ∷ rs) h = absurd h
Reads-bounds units (null ∷ slots) rs h = let t = Reads-bounds units slots rs h in (t.0, omega arith)
Reads-bounds units (malformed ∷ slots) rs h = absurd h
Reads-bounds units (pair a b ∷ slots) [] h = absurd h
Reads-bounds units (pair a b ∷ slots) (r ∷ rs) h =
    let t = Reads-bounds units slots rs h.5 in ((h.2, t.0), omega arith)

unless_overlap_iff :
    (units : ℕ) (slots : List Slot) (rs : List Range)
    → (unless_overlap (read_slots units slots) ≡ some rs) ↔ (Reads units slots rs × IsApart rs)
unfolding unless_overlap
unless_overlap_iff units slots rs = (to (read_slots units slots) refl, from)
  where
    to :
        (o : Option (List Range))
        → read_slots units slots ≡ o
        → unless_overlap o ≡ some rs
        → Reads units slots rs × IsApart rs
    to none e h = cc
    to (some l) e h =
        let clear : overlap (sort l) ≡ false = ground arith in
        let same : l ≡ rs = ground arith in
        subst (λ x. Reads units slots x × IsApart x) same
          (
            read_slots-Reads units slots l e,
            (IsApart-sort l).0 (overlap-IsApart (sort l) (sort-IsSorted l) clear),
          )

    from : Reads units slots rs × IsApart rs → unless_overlap (read_slots units slots) ≡ some rs
    from (reads, apart) =
        let clear : overlap (sort rs) ≡ false =
          apart-overlap (sort rs) (sort-IsSorted rs)
            ((All-sort (λ r. r.0 ≤ r.1) rs).1 (Reads-bounds units slots rs reads).0)
            ((IsApart-sort rs).1 apart) in
        rw (Reads-read_slots units slots rs reads) (rw clear refl)

slots_ranges_iff :
    (units : ℕ) (o : Option (List Slot)) (rs : List Range)
    → (slots_ranges units o ≡ some rs) ↔ (
        (slots : List Slot) × (o ≡ some slots)
        × (length slots ≡ range_slots)
        × Reads units slots rs
        × IsApart rs)
unfolding slots_ranges
slots_ranges_iff units none rs = (λ h. cc, λ t. cc (t.1))
slots_ranges_iff units (some slots) rs = (
  λ h.
      let full : length slots ≡ range_slots = ground arith in
      let t = (unless_overlap_iff units slots rs).0 (ground arith) in (slots, refl, full, t.0, t.1),
  λ t.
      let same : t.0 ≡ slots = ground (arith, t.1) in
      let u = (unless_overlap_iff units slots rs).1 (subst (λ l. Reads units l rs) same t.3, t.4) in
      ground (arith, t.2, ap (λ l. length l) same),
)

-- What `matchingRanges` asks of a profile, and what it returns.
abbrev pub Accepts : Profile → Text → ℕ → List Range → Type 0
Accepts p info_hash units rs =
    (header_ok p info_hash ≡ true)
    × ((slots : List Slot) × (p.ranges ≡ some slots)
        × (length slots ≡ range_slots)
        × Reads units slots rs
        × IsApart rs)

-- A profile is accepted exactly if its version, infohash and unit size are right, it has 32 slots,
-- each of them `null` or a range that goes forwards and ends on the disk, and no two of the ranges
-- have a unit in common; and the result is then the ranges in the order of the slots.
pub matching_ranges_iff :
    (p : Profile) (info_hash : Text) (units : ℕ) (rs : List Range)
    → (matching_ranges (some p) info_hash units ≡ some rs) ↔ Accepts p info_hash units rs
unfolding matching_ranges
matching_ranges_iff p info_hash units rs = (
  λ h.
      let header : header_ok p info_hash ≡ true = ground arith in
      (header, (slots_ranges_iff units p.ranges rs).0 (ground arith)),
  λ a. rw (a.0) ((slots_ranges_iff units p.ranges rs).1 a.1),
)
