-- ===== src/LoadProfiles/Tests.antt =====
-- A published pair of profiles, and the theorems at it.
use my.Base.{◌≤◌, ◌≡◌, refl, true, false, Option, none, some, List, [], ◌∷◌, length, replicate}
use my.Base.Num.{nat}
use my.Base.Text.{Text, text_eq, is_hex}
use my.Ranges.Profile.{
  null, pair, matching_ranges, slots_ranges, read_slots, unless_overlap, overlap, sort, insert,
  header_ok,
}
use my.LoadProfiles.{
  boot, state, Origin, finite, LoadProfile, validate, profiles_ok, profile_ok, fields_ok, hashes_ok,
  numbers_ok,
}
use my.LoadProfiles.Accepted.{AllGood, validate-AllGood}

abbrev hash : Text
hash = replicate 40 97

abbrev boot_origin : Origin
boot_origin = record { kind = boot; sha256 = none }

abbrev state_origin : Origin
state_origin = record { kind = state; sha256 = some (replicate 64 48) }

abbrev profile : Origin → LoadProfile
profile o = record {
  version = nat 2;
  info_hash = hash;
  unit_bytes = nat 65536;
  ranges = some (pair (nat 4) (nat 6) ∷ replicate 31 null);
  origin = some o;
  min_utilization = some (finite false 1 1);
  observed_units = some (nat 3);
  covered_units = none;
  download_units = none;
}

abbrev published : List (Option LoadProfile)
published = some (profile boot_origin) ∷ some (profile state_origin) ∷ []

accepted : validate (some published) hash 16 ≡ true
unfolding validate profiles_ok profile_ok fields_ok hashes_ok numbers_ok matching_ranges
    slots_ranges read_slots unless_overlap overlap sort insert header_ok text_eq is_hex
accepted = refl

twice_refused :
    validate (some (some (profile boot_origin) ∷ some (profile boot_origin) ∷ [])) hash 16 ≡ false
unfolding validate profiles_ok profile_ok fields_ok hashes_ok numbers_ok matching_ranges
    slots_ranges read_slots unless_overlap overlap sort insert header_ok text_eq is_hex
twice_refused = refl

validate-AllGood_example :
    (ps : List (Option LoadProfile)) × (some published ≡ some ps)
    × (length ps ≤ 2)
    × AllGood hash 16 [] ps
validate-AllGood_example = validate-AllGood (some published) hash 16 accepted
