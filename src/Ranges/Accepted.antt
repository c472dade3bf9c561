-- ===== src/Ranges/Accepted.antt =====
-- Which profiles `matchingRanges` of range-prefetch.js accepts: those of disjoint ranges on the disk.
use my.Base.{
  ◌≤◌, ◌<◌, ◌≡◌, refl, ◌↔◌, ◌⊎◌, inl, inr, false, List, [], ◌∷◌, All, leb, arith, Bool-cases,
}
use my.Ranges.{Range}
use my.Ranges.Profile.{insert, sort, overlap}

abbrev pub Apart : Range → Range → Type 0
Apart r s = (r.1 < s.0) ⊎ (s.1 < r.0)

-- Any two ranges of the list have no unit in common.
abbrev pub IsApart : List Range → Type 0
IsApart [] = Unit
IsApart (r ∷ rs) = All (Apart r) rs × IsApart rs

Apart-symm : (r s : Range) → Apart r s → Apart s r
Apart-symm r s h = elim h [ inl x ↦ inr x | inr y ↦ inl y ]

All-insert :
    (P : Range → Type 0) (r : Range) (rs : List Range) → All P (insert r rs) ↔ (P r × All P rs)
unfolding insert
All-insert P r [] = (λ h. h, λ h. h)
All-insert P r (x ∷ xs) = elim (Bool-cases (leb r.0 x.0)) [
  | inl first ↦ rw first (λ h. h, λ h. h)
  | inr later ↦ rw later (
    λ h. let t = (All-insert P r xs).0 h.1 in (t.0, (h.0, t.1)),
    λ h. (h.1.0, (All-insert P r xs).1 (h.0, h.1.1)),
  )
]

pub All-sort : (P : Range → Type 0) (rs : List Range) → All P (sort rs) ↔ All P rs
unfolding sort
All-sort P [] = (λ h. h, λ h. h)
All-sort P (r ∷ rs) = (
  λ h. let t = (All-insert P r (sort rs)).0 h in (t.0, (All-sort P rs).0 t.1),
  λ h. (All-insert P r (sort rs)).1 (h.0, (All-sort P rs).1 h.1),
)

IsApart-insert :
    (r : Range) (rs : List Range) → IsApart (insert r rs) ↔ (All (Apart r) rs × IsApart rs)
unfolding insert
IsApart-insert r [] = (λ h. h, λ h. h)
IsApart-insert r (x ∷ xs) = elim (Bool-cases (leb r.0 x.0)) [
  | inl first ↦ rw first (λ h. h, λ h. h)
  | inr later ↦ rw later (
    λ h.
        let a = (All-insert (Apart x) r xs).0 h.0 in
        let b = (IsApart-insert r xs).0 h.1 in ((Apart-symm x r a.0, b.0), (a.1, b.1)),
    λ h. (
      (All-insert (Apart x) r xs).1 (Apart-symm r x h.0.0, h.1.0),
      (IsApart-insert r xs).1 (h.0.1, h.1.1),
    ),
  )
]

pub IsApart-sort : (rs : List Range) → IsApart (sort rs) ↔ IsApart rs
unfolding sort
IsApart-sort [] = (λ h. h, λ h. h)
IsApart-sort (r ∷ rs) = (
  λ h.
      let t = (IsApart-insert r (sort rs)).0 h in
      ((All-sort (Apart r) rs).0 t.0, (IsApart-sort rs).0 t.1),
  λ h. (IsApart-insert r (sort rs)).1 ((All-sort (Apart r) rs).1 h.0, (IsApart-sort rs).1 h.1),
)

abbrev pub IsSorted : List Range → Type 0
IsSorted [] = Unit
IsSorted (r ∷ rs) = All (λ s. r.0 ≤ s.0) rs × IsSorted rs

All-mono {κ} :
    {P Q : Range → Type κ} (rs : List Range) → ((r : Range) → P r → Q r) → All P rs → All Q rs
All-mono [] f h = tt
All-mono (r ∷ rs) f h = (f r h.0, All-mono rs f h.1)

IsSorted-insert : (r : Range) (rs : List Range) → IsSorted rs → IsSorted (insert r rs)
unfolding insert
IsSorted-insert r [] h = (tt, tt)
IsSorted-insert r (x ∷ xs) h = elim (Bool-cases (leb r.0 x.0)) [
  | inl first ↦
      let le : r.0 ≤ x.0 = ground arith in rw first ((le, All-mono xs (λ s p. omega arith) h.0), h)
  | inr later ↦
      let le : x.0 ≤ r.0 = ground arith in
      rw later ((All-insert (λ s. x.0 ≤ s.0) r xs).1 (le, h.0), IsSorted-insert r xs h.1)
]

pub sort-IsSorted : (rs : List Range) → IsSorted (sort rs)
unfolding sort
sort-IsSorted [] = tt
sort-IsSorted (r ∷ rs) = IsSorted-insert r (sort rs) (sort-IsSorted rs)

-- Where the ranges are sorted, only neighbours need to be compared.
pub overlap-IsApart : (rs : List Range) → IsSorted rs → overlap rs ≡ false → IsApart rs
unfolding overlap
overlap-IsApart [] s h = tt
overlap-IsApart (x ∷ []) s h = (tt, tt)
overlap-IsApart (x ∷ y ∷ rs) s h =
    let lt : x.1 < y.0 = ground arith in
    (
      (inl lt, All-mono rs (λ z p. inl (omega arith)) s.1.0),
      overlap-IsApart (y ∷ rs) s.1 (ground arith),
    )

pub apart-overlap :
    (rs : List Range) → IsSorted rs → All (λ r. r.0 ≤ r.1) rs → IsApart rs → overlap rs ≡ false
unfolding overlap
apart-overlap [] s f h = refl
apart-overlap (x ∷ []) s f h = refl
apart-overlap (x ∷ y ∷ rs) s f h = ground (arith, apart-overlap (y ∷ rs) s.1 f.1 h.1)
