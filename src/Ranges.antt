-- ===== src/Ranges.antt =====
-- src/disk/web/range-prefetch.js: which 64 KiB units of the disk to fetch ahead of the guest. A
-- profile names up to 32 ranges of units; `RangePrefetchOrder` walks them from where the guest reads.
pub mod Profile
pub mod Accepted
pub mod Slots
pub mod Walk
pub mod Coverage
pub mod Next
pub mod Observe
mod Tests
use my.Base.{
  ℕ, zero, suc, ◌+◌, ◌-◌, ◌/◌, ◌%◌, min, Bool, true, false, not, ◌&&◌, ◌||◌, Option, none, some,
  List, [], ◌∷◌, length, set, replicate, ltb, leb, ◌==◌, if◌then◌else◌,
}

-- First and last unit, both in the range.
abbrev pub Range : Type 0
Range = ℕ × ℕ

abbrev pub range_slots : ℕ
range_slots = 32

abbrev pub unit_bytes : ℕ
unit_bytes = 65536

abbrev pub inside : ℕ → Range → Bool
inside u (first, last) = leb first u && leb u last

-- `a[i]` of a byte array that is read as a flag: past the end it is not set.
unfoldable pub flag : List Bool → ℕ → Bool
flag [] i = false
flag (b ∷ bs) zero = b
flag (b ∷ bs) (suc i) = flag bs i

-- The object without `coverage`, which it shares with the transport that fills it.
pub record Order : Type 0 where
  pub ranges : List Range
  pub seen : List Bool
  pub active : ℕ
  pub cursor : ℕ

abbrev first_of_all : List Range → ℕ
first_of_all [] = 0
first_of_all ((first, last) ∷ rs) = first

-- constructor(ranges,coverage)
unfoldable pub create : List Range → List Bool → Order
create ranges coverage = record {
  ranges = ranges;
  seen = replicate (length coverage) false;
  active = 0;
  cursor = first_of_all ranges;
}

-- `findIndex`, with the range that was found
unfoldable pub find_range : ℕ → List Range → ℕ → Option (ℕ × Range)
find_range u [] i = none
find_range u (r ∷ rs) i = if inside u r then some (i, r) else find_range u rs (i + 1)

-- The unit after `u` in a range, which goes on from its start.
abbrev pub after : ℕ → Range → ℕ
after u (first, last) = if u == last then first else u + 1

abbrev pub focus : ℕ → Option (ℕ × Range) → Order → Order
focus u none o = o
focus u (some (i, r)) o = record o { active = i; cursor = after u r }

unfoldable pub observe_unit : ℕ → Order → Order
observe_unit u o =
    if flag o.seen u
    then o
    else focus u (find_range u o.ranges 0) (record o { seen = set o.seen u true })

-- The loop over the units of a read, with the rounds left.
unfoldable pub observe_from : ℕ → ℕ → Order → Order
observe_from zero u o = o
observe_from (suc n) u o = observe_from n (u + 1) (observe_unit u o)

-- observe(offset,length). The last unit is `min(seen.length-1, floor((offset+length-1)/65536))`; one
-- more, where the loop stops, is never negative.
unfoldable pub observe : ℕ → ℕ → Order → Order
observe offset count o =
    let first = offset / unit_bytes in
    let stop = min (length o.seen) ((offset + count + 65535) / unit_bytes) in
    observe_from (stop - first) first o

-- The loop of `scan` over a range of `len` units from `first`, with the rounds left.
unfoldable pub scan_from : List Bool → ℕ → ℕ → ℕ → ℕ → ℕ → Option ℕ
scan_from coverage first len base n zero = none
scan_from coverage first len base n (suc k) =
    let rest = scan_from coverage first len base (n + 1) k in
    let u = first + (base + n) % len in if flag coverage u then rest else some u

-- scan(index,cursor): the first unit of the range that is not covered, from the cursor round.
unfoldable pub scan : List Bool → Range → ℕ → Option ℕ
scan coverage (first, last) cursor =
    let len = last - first + 1 in scan_from coverage first len (cursor - first) 0 len

-- What a scan of range `i` that finds `u` changes.
abbrev pub take_unit : ℕ → Range → ℕ → Order → Order × Option ℕ
take_unit i r u o = (record o { active = i; cursor = after u r }, some u)

-- The unit that a scan of range `i` found, or what the search does without one.
abbrev pub choose : ℕ → Range → Order → Option ℕ → Order × Option ℕ → Order × Option ℕ
choose i r o none rest = rest
choose i r o (some u) rest = take_unit i r u o

-- The loop over all ranges, each from its start.
unfoldable pub next_from : List Bool → List Range → ℕ → Order → Order × Option ℕ
next_from coverage [] i o = (o, none)
next_from coverage (r ∷ rs) i o =
    choose i r o (scan coverage r r.0) (next_from coverage rs (i + 1) o)

-- The scan of the active range comes first; there is none where there are no ranges.
unfoldable pub next_active : List Bool → Option Range → Order → Order × Option ℕ
next_active coverage none o = next_from coverage o.ranges 0 o
next_active coverage (some r) o =
    choose o.active r o (scan coverage r o.cursor) (next_from coverage o.ranges 0 o)

abbrev pub range_at : List Range → ℕ → Option Range
range_at [] i = none
range_at (r ∷ rs) zero = some r
range_at (r ∷ rs) (suc i) = range_at rs i

-- next(), where `none` is -1
unfoldable pub next : List Bool → Order → Order × Option ℕ
next coverage o = next_active coverage (range_at o.ranges o.active) o

-- stats()
unfoldable pub count_covered : List Bool → ℕ → ℕ → ℕ
count_covered coverage u zero = 0
count_covered coverage u (suc n) =
    (if flag coverage u then 1 else 0) + count_covered coverage (u + 1) n

unfoldable pub units : List Range → ℕ
units [] = 0
units ((first, last) ∷ rs) = (last + 1 - first) + units rs

unfoldable pub completed_units : List Bool → List Range → ℕ
completed_units coverage [] = 0
completed_units coverage ((first, last) ∷ rs) =
    count_covered coverage first (last + 1 - first) + completed_units coverage rs

pub record Stats : Type 0 where
  pub ranges : ℕ
  pub units : ℕ
  pub completed_units : ℕ

unfoldable pub stats : List Bool → Order → Stats
stats coverage o = record {
  ranges = length o.ranges;
  units = units o.ranges;
  completed_units = completed_units coverage o.ranges;
}
