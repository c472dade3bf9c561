-- ===== src/Ranges/Tests.antt =====
-- Two ranges of a disk of sixteen units: runs of the walk and the theorems at them.
use my.Base.{
  ◌<◌, ◌≡◌, ◌↔◌, refl, Bool, true, false, none, some, List, [], ◌∷◌, length, set, replicate, arith,
}
use my.Base.Num.{nat}
use my.Base.Text.{Text, text_eq}
use my.Ranges.{
  Range, Order, create, flag, find_range, observe, observe_from, observe_unit, next, next_active,
  next_from, scan, scan_from, stats, completed_units,
}
use my.Ranges.Walk.{IsValid, InRanges}
use my.Ranges.Next.{next-eq_none, next-eq_some}
use my.Ranges.Observe.{observe-IsValid, IsValid-create, next-observe_unit}
use my.Ranges.Profile.{
  null, pair, Profile, matching_ranges, slots_ranges, read_slots, unless_overlap, overlap, sort,
  insert, header_ok,
}
use my.Ranges.Slots.{Accepts, matching_ranges_iff}

abbrev ranges : List Range
ranges = (4, 6) ∷ (0, 1) ∷ []

abbrev nothing : List Bool
nothing = replicate 16 false

abbrev walk : Order
walk = create ranges nothing

walk-IsValid : IsValid walk
walk-IsValid = IsValid-create ranges nothing (omega arith)

-- The guest reads unit 5, and units 6, 4, 0 and 1 follow it.
abbrev reading : Order
reading = observe 327680 512 walk

first_unit : (next nothing reading).1 ≡ some 6
unfolding next next_active scan scan_from observe observe_from observe_unit find_range create flag
first_unit = refl

after_last : (next (set nothing 6 true) (next nothing reading).0).1 ≡ some 4
unfolding next next_active next_from scan scan_from observe observe_from observe_unit find_range
    create flag
after_last = refl

observe-IsValid_example : IsValid reading × (reading.ranges ≡ walk.ranges)
observe-IsValid_example = observe-IsValid 327680 512 walk walk-IsValid

next-observe_unit_example : (next nothing (observe_unit 5 walk)).1 ≡ some 6
unfolding create flag find_range
next-observe_unit_example = next-observe_unit nothing 5 0 (4, 6) walk refl refl refl

next-eq_none_example :
    ((next nothing walk).1 ≡ none)
    ↔ ((stats nothing walk).completed_units ≡ (stats nothing walk).units)
next-eq_none_example = next-eq_none nothing walk walk-IsValid

next-eq_some_example :
    InRanges 4 walk.ranges
    × (flag nothing 4 ≡ false)
    × IsValid (next nothing walk).0
    × ((next nothing walk).0.ranges ≡ walk.ranges)
    × (4 < length nothing
        → completed_units nothing walk.ranges < completed_units (set nothing 4 true) walk.ranges)
unfolding next next_active scan scan_from create flag
next-eq_some_example = next-eq_some nothing walk (next nothing walk).0 4 walk-IsValid refl

abbrev hash : Text
hash = replicate 40 97

abbrev profile : Profile
profile = record {
  version = nat 1;
  info_hash = hash;
  unit_bytes = nat 65536;
  ranges = some (pair (nat 4) (nat 6) ∷ null ∷ pair (nat 0) (nat 1) ∷ replicate 29 null);
}

accepted : matching_ranges (some profile) hash 16 ≡ some ranges
unfolding matching_ranges slots_ranges read_slots unless_overlap overlap sort insert header_ok
    text_eq
accepted = refl

off_the_disk : matching_ranges (some profile) hash 6 ≡ none
unfolding matching_ranges slots_ranges read_slots unless_overlap overlap sort insert header_ok
    text_eq
off_the_disk = refl

matching_ranges_iff_example :
    (matching_ranges (some profile) hash 16 ≡ some ranges) ↔ Accepts profile hash 16 ranges
matching_ranges_iff_example = matching_ranges_iff profile hash 16 ranges
