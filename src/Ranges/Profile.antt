-- ===== src/Ranges/Profile.antt =====
-- `matchingRanges` of range-prefetch.js: the ranges of a profile from outside, if it fits the disk.
use my.Base.{
  ℕ, Bool, false, not, ◌&&◌, ◌||◌, Option, none, some, List, [], ◌∷◌, length, ltb, leb, ◌==◌,
  if◌then◌else◌,
}
use my.Base.Num.{Num, nat, neg, other, safe_nat}
use my.Base.Text.{Text, text_eq}
use my.Ranges.{Range, range_slots}

-- An element of `profile.ranges`: `null`, an array of two numbers, or anything else.
pub data Slot : Type 0 where
  null malformed : Slot
  pair : Num → Num → Slot

-- What the validation reads of a profile's fields; `ranges` is `none` where it is no array.
pub record Profile : Type 0 where
  pub version : Num
  pub info_hash : Text
  pub unit_bytes : Num
  pub ranges : Option (List Slot)

abbrev pub equals : Num → ℕ → Bool
equals (nat n) k = n == k
equals (neg n) k = false
equals other k = false

abbrev pub bounds : ℕ → Option ℕ → Option ℕ → Option Range
bounds units (some first) (some last) =
    if leb first last && ltb last units then some (first, last) else none
bounds units _ _ = none

abbrev pub cons_range : Option Range → Option (List Range) → Option (List Range)
cons_range (some r) (some rs) = some (r ∷ rs)
cons_range _ _ = none

-- The loop over the slots: `none` where one of them is refused.
unfoldable pub read_slots : ℕ → List Slot → Option (List Range)
read_slots units [] = some []
read_slots units (null ∷ slots) = read_slots units slots
read_slots units (malformed ∷ slots) = none
read_slots units (pair a b ∷ slots) =
    cons_range (bounds units (safe_nat a) (safe_nat b)) (read_slots units slots)

-- `ranges.slice().sort((a,b)=>a[0]-b[0])`, which is stable
unfoldable pub insert : Range → List Range → List Range
insert r [] = r ∷ []
insert r (x ∷ xs) = let rest = insert r xs in if leb r.0 x.0 then r ∷ x ∷ xs else x ∷ rest

unfoldable pub sort : List Range → List Range
sort [] = []
sort (r ∷ rs) = insert r (sort rs)

-- `sorted.some((r,i)=>i && sorted[i-1][1]>=r[0])`
unfoldable pub overlap : List Range → Bool
overlap [] = false
overlap (x ∷ []) = false
overlap (x ∷ y ∷ rs) = leb y.0 x.1 || overlap (y ∷ rs)

unfoldable pub unless_overlap : Option (List Range) → Option (List Range)
unless_overlap none = none
unless_overlap (some rs) = if overlap (sort rs) then none else some rs

unfoldable pub header_ok : Profile → Text → Bool
header_ok p info_hash =
    not (length info_hash == 0)
    && equals p.version 1
    && text_eq p.info_hash info_hash
    && equals p.unit_bytes 65536

-- The ranges of a profile whose other fields have been accepted.
unfoldable pub slots_ranges : ℕ → Option (List Slot) → Option (List Range)
slots_ranges units none = none
slots_ranges units (some slots) =
    if length slots == range_slots then unless_overlap (read_slots units slots) else none

-- matchingRanges(profile,infoHash,units), with an infohash that is a string
unfoldable pub matching_ranges : Option Profile → Text → ℕ → Option (List Range)
matching_ranges none info_hash units = none
matching_ranges (some p) info_hash units =
    if header_ok p info_hash then slots_ranges units p.ranges else none
