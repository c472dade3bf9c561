-- ===== src/LoadProfiles.antt =====
-- src/disk/web/load-profiles.js: the load profiles published beside a disk, one for a boot and one
-- for a resumed state. They are hints: what is accepted bounds what is fetched, and nothing else.
pub mod Accepted
mod Tests
use my.Base.{
  ℕ, ◌+◌, Bool, true, false, not, ◌&&◌, ◌||◌, Option, none, some, List, [], ◌∷◌, length, leb, ltb,
  ◌==◌, if◌then◌else◌,
}
use my.Base.Num.{Num, nat, safe_nat}
use my.Base.Text.{Text, text_eq, is_hex}
use my.Ranges.{Range}
use my.Ranges.Profile
use my.Ranges.Profile.{Slot, equals, matching_ranges}

pub data Kind : Type 0 where
  boot state unknown : Kind

pub record Origin : Type 0 where
  pub kind : Kind
  pub sha256 : Option Text

-- A number of `minUtilization`: `finite negative m d` is m / (d + 1) with its sign.
pub data Fraction : Type 0 where
  finite : Bool → ℕ → ℕ → Fraction
  not_finite : Fraction

-- The fields that the validation reads; a field that is `undefined` is `none`.
pub record LoadProfile : Type 0 where
  pub version : Num
  pub info_hash : Text
  pub unit_bytes : Num
  pub ranges : Option (List Slot)
  pub origin : Option Origin
  pub min_utilization : Option Fraction
  pub observed_units : Option Num
  pub covered_units : Option Num
  pub download_units : Option Num

abbrev pub kind_eq : Kind → Kind → Bool
kind_eq boot boot = true
kind_eq state state = true
kind_eq unknown unknown = true
kind_eq _ _ = false

abbrev pub is_known : Kind → Bool
is_known unknown = false
is_known _ = true

abbrev sha256_eq : Option Text → Option Text → Bool
sha256_eq none none = true
sha256_eq (some a) (some b) = text_eq a b
sha256_eq _ _ = false

-- sameOrigin(a,b), for kinds that are known
unfoldable pub same_origin : Origin → Origin → Bool
same_origin a b = kind_eq a.kind b.kind && (kind_eq a.kind boot || sha256_eq a.sha256 b.sha256)

-- The test of `sha256`: a hash for a state, `undefined` for a boot.
abbrev pub sha256_ok : Kind → Option Text → Bool
sha256_ok state (some s) = is_hex 64 s
sha256_ok state none = false
sha256_ok boot (some s) = false
sha256_ok boot none = true
sha256_ok unknown s = true

abbrev fraction_ok : Option Fraction → Bool
fraction_ok none = true
fraction_ok (some not_finite) = false
fraction_ok (some (finite negative m d)) = not negative && ltb 0 m && leb m (d + 1)

abbrev at_most : ℕ → Option ℕ → Bool
at_most units none = false
at_most units (some n) = leb n units

abbrev count_ok : ℕ → Option Num → Bool
count_ok units none = true
count_ok units (some x) = at_most units (safe_nat x)

-- `{...p,version:1}`
abbrev pub as_profile : LoadProfile → Profile.Profile
as_profile p = record {
  version = nat 1;
  info_hash = p.info_hash;
  unit_bytes = p.unit_bytes;
  ranges = p.ranges;
}

abbrev pub is_some {ℓ} : {A : Type ℓ} → Option A → Bool
is_some none = false
is_some (some a) = true

-- The kinds seen so far.
abbrev pub has_kind : Kind → List Kind → Bool
has_kind k [] = false
has_kind k (j ∷ js) = kind_eq k j || has_kind k js

-- The first test of a profile, the origin's kind included.
unfoldable pub fields_ok : Text → List Kind → LoadProfile → Origin → Bool
fields_ok info_hash kinds p origin =
    equals p.version 2
    && text_eq p.info_hash info_hash
    && equals p.unit_bytes 65536
    && is_known origin.kind
    && not (has_kind origin.kind kinds)

unfoldable pub hashes_ok : LoadProfile → Origin → Bool
hashes_ok p origin = is_hex 40 p.info_hash && sha256_ok origin.kind origin.sha256

unfoldable pub numbers_ok : ℕ → LoadProfile → Bool
numbers_ok units p =
    fraction_ok p.min_utilization
    && count_ok units p.observed_units
    && count_ok units p.covered_units
    && count_ok units p.download_units

-- The tests of one profile that has an origin.
unfoldable pub profile_ok : Text → ℕ → List Kind → LoadProfile → Origin → Bool
profile_ok info_hash units kinds p origin =
    fields_ok info_hash kinds p origin
    && hashes_ok p origin
    && is_some (matching_ranges (some (as_profile p)) info_hash units)
    && numbers_ok units p

-- The loop over the profiles; an element that is not truthy is `none`.
unfoldable pub profiles_ok : Text → ℕ → List Kind → List (Option LoadProfile) → Bool
profiles_ok info_hash units kinds [] = true
profiles_ok info_hash units kinds (none ∷ ps) = false
profiles_ok info_hash units kinds (some p ∷ ps) = elim p.origin [
  | none ↦ false
  | some o ↦ profile_ok info_hash units kinds p o && profiles_ok info_hash units (o.kind ∷ kinds) ps
]

-- validateLoadProfiles(value,infoHash,units): whether the value, if it is an array, is returned.
unfoldable pub validate : Option (List (Option LoadProfile)) → Text → ℕ → Bool
validate none info_hash units = false
validate (some value) info_hash units = leb (length value) 2 && profiles_ok info_hash units [] value

-- `profiles.find(value=>sameOrigin(value.origin,origin))`
unfoldable pub find_profile : Origin → List LoadProfile → Option LoadProfile
find_profile o [] = none
find_profile o (p ∷ ps) = elim p.origin [
  | none ↦ find_profile o ps
  | some q ↦ if same_origin q o then some p else find_profile o ps
]
