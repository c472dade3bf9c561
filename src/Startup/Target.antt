-- ===== src/Startup/Target.antt =====
-- `startupPrefetchOptions` and `startupRanges` of startup-prefetch.js.
use my.Base.{
  ℕ, ◌+◌, ◌-◌, ◌*◌, ◌/◌, min, max, Bool, ◌&&◌, Option, none, some, List, [], ◌∷◌, ltb, leb,
  if◌then◌else◌,
}
use my.Base.Num.{Num, max_safe, safe_nat}
use my.Base.Failure.{invalid_profile, Result, ok, err, ◌>>=◌, ◌>>◌, require, or_throw}
use my.Ranges.{Range}
use my.Ranges.Profile.{sort}

-- The options as given: a field that is absent takes its default, and `scope` is whether it is
-- absent or 'profile'.
pub record Given : Type 0 where
  pub known_keys : Bool
  pub scope_ok : Bool
  pub max_attempts : Option Num
  pub post_restore_budget_ms : Option Num
  pub window_pieces : Option Num

pub record Options : Type 0 where
  pub max_attempts : ℕ
  pub post_restore_budget_ms : ℕ
  pub window_pieces : ℕ

abbrev with_default : ℕ → Option Num → Option ℕ
with_default d none = some d
with_default d (some x) = safe_nat x

-- startupPrefetchOptions(value), for a value that is an object
unfoldable pub prefetch_options : Given → Result Options
prefetch_options g = do
  require (g.known_keys && g.scope_ok) invalid_profile
  attempts ← or_throw (with_default 3 g.max_attempts) invalid_profile
  require (leb 1 attempts && leb attempts 3) invalid_profile
  budget ← or_throw (with_default 10000 g.post_restore_budget_ms) invalid_profile
  require (leb budget 60000) invalid_profile
  window ← or_throw (with_default 8 g.window_pieces) invalid_profile
  require (leb 1 window && leb window 16) invalid_profile
  ok (record { max_attempts = attempts; post_restore_budget_ms = budget; window_pieces = window })

abbrev pub piece : ℕ
piece = 262144

-- Where unit `u` begins in the encrypted disk: 62 bytes more than its 64 Ki, after a header of 198.
abbrev pub unit_begin : ℕ → ℕ
unit_begin u = 198 + u * 65598

-- An offset and a length.
abbrev pub Extent : Type 0
Extent = ℕ × ℕ

unfoldable pub extent : ℕ → Range → Result Extent
extent disk (first, last) =
    let begin = unit_begin first in
    let end = min disk (unit_begin (last + 1)) in
    if leb begin max_safe && leb end max_safe && ltb begin end
    then ok (begin, end - begin)
    else err invalid_profile

-- `profile.ranges.filter(Boolean).map(...)`, which throws at the first range that is refused
unfoldable pub extents : ℕ → List (Option Range) → Result (List Extent)
extents disk [] = ok []
extents disk (none ∷ rs) = extents disk rs
extents disk (some r ∷ rs) = do e ← extent disk r; es ← extents disk rs; ok (e ∷ es)

-- The first and the last piece that an extent lies in.
abbrev pub interval : Extent → Range
interval (start, len) = (start / piece, (start + len - 1) / piece)

unfoldable pub intervals : List Extent → List Range
intervals [] = []
intervals (e ∷ es) = interval e ∷ intervals es

-- The loop that joins intervals that meet, with the last of `merged`.
unfoldable pub merge_from : Range → List Range → List Range
merge_from (a, b) [] = (a, b) ∷ []
merge_from (a, b) ((c, d) ∷ rs) =
    let joined = merge_from (a, max b d) rs in
    let apart = (a, b) ∷ merge_from (c, d) rs in if leb c (b + 1) then joined else apart

unfoldable pub merge : List Range → List Range
merge [] = []
merge (r ∷ rs) = merge_from r rs

unfoldable pub bytes : ℕ → List Range → ℕ
bytes disk [] = 0
bytes disk ((first, last) ∷ rs) = min disk ((last + 1) * piece) - first * piece + bytes disk rs

-- startupRanges(profile,diskSize): the extents to fetch, and how many bytes their pieces hold.
unfoldable pub startup_ranges : ℕ → List (Option Range) → Result (List Extent × ℕ)
startup_ranges disk rs = do es ← extents disk rs; ok (es, bytes disk (merge (sort (intervals es))))
