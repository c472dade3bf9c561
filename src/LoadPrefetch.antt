-- ===== src/LoadPrefetch.antt =====
-- `profiles`, `setLoadPrefetch` and `startPrefetch` of src/disk/web/torrent-remote.js: what is fetched
-- ahead of a boot or of a resumed state. What the calls of the bridge answer is an argument.
pub mod Offered
pub mod Scopes
pub mod Started
mod Tests
use my.Base.{
  ℕ, ◌+◌, ◌*◌, ◌/◌, Bool, true, false, not, ◌&&◌, Option, none, some, List, [], ◌∷◌, ◌++◌, map, any,
  min, ◌==◌, if◌then◌else◌,
}
use my.Base.Int.{ℤ, pos, ◌-ℤ◌}
use my.Base.Failure
use my.Base.Failure.{
  Code, Result, ok, err, invalid_profile, publication_unavailable, transport_timeout, other_code,
}
use my.Ranges.{Range}
use my.LoadProfiles.{Origin, Kind, state, kind_eq, same_origin}
use my.Startup.Target.{unit_begin}

-- A profile that has been validated, with its ranges that are not null.
pub record Profile : Type 0 where
  pub origin : Origin
  pub ranges : List Range

pub data Scope : Type 0 where
  nothing profile whole auto unknown : Scope

-- An offset and a length, as the bridge is given them.
abbrev pub Extent : Type 0
Extent = ℕ × ℤ

pub data Call : Type 0 where
  discard_startup stop_prefetch : Call
  background : Bool → Call
  prefetch : List Extent → Call

-- `profile_cache` has the units for which profiles were read, and those.
pub record Remote : Type 0 where
  pub has_state : Bool
  pub has_profile : Bool
  pub size : ℕ
  pub scope : Scope
  pub origin : Option Origin
  pub logical_size : ℕ
  pub profile_cache : Option (ℕ × List Profile)
  pub calls : List Call

abbrev pub Reply : Type 0
Reply = Result (Unit {0})

-- What is answered: to the two calls that end what is running, to the reading and the validation of the
-- published profiles, and to the call that starts something.
pub record Answers : Type 0 where
  pub disabled : Reply
  pub stopped : Reply
  pub fetched : Result (List Profile)
  pub started : Reply

-- `await this.io.call(...)`, and what comes after it.
unfoldable pub call : Call → Reply → (Remote → Remote × Reply) → Remote → Remote × Reply
call c (err code) next r = (record r { calls = r.calls ++ c ∷ [] }, err code)
call c (ok t) next r = next (record r { calls = r.calls ++ c ∷ [] })

abbrev pub is_state : Profile → Bool
is_state p = kind_eq p.origin.kind state

unfoldable pub take_profiles : ℕ → Result (List Profile) → Remote → Remote × Result (List Profile)
take_profiles units (err code) r = (r, err code)
take_profiles units (ok ps) r =
    if not r.has_state && any is_state ps
    then (r, err invalid_profile)
    else (record r { profile_cache = some (units, ps) }, ok ps)

unfoldable pub cached :
    Option (ℕ × List Profile) → ℕ → Result (List Profile) → Remote → Remote × Result (List Profile)
cached none units fetched r = take_profiles units fetched r
cached (some (n, ps)) units fetched r =
    if n == units then (r, ok ps) else take_profiles units fetched r

-- profiles(units)
unfoldable pub profiles : ℕ → Result (List Profile) → Remote → Remote × Result (List Profile)
profiles units fetched r =
    if r.has_profile then cached r.profile_cache units fetched r else (r, ok [])

-- Math.ceil(size/65536)
abbrev pub units_of : ℕ → ℕ
units_of size = (size + 65535) / 65536

unfoldable pub find : Origin → List Profile → Option Profile
find origin [] = none
find origin (p ∷ ps) = if same_origin p.origin origin then some p else find origin ps

abbrev pub extent : ℕ → Range → Extent
extent size (first, last) =
    (unit_begin first, pos (min size (unit_begin (last + 1))) -ℤ pos (unit_begin first))

-- The codes for which optional hints are left out.
abbrev pub is_optional : Code → Bool
is_optional Failure.invalid_profile = true
is_optional Failure.publication_unavailable = true
is_optional Failure.transport_timeout = true
is_optional _ = false

abbrev pub done : Remote → Remote × Reply
done r = (r, ok tt)

unfoldable pub start_found : Reply → Option Profile → Remote → Remote × Reply
start_found started none r = (r, err invalid_profile)
start_found started (some p) r = call (prefetch (map (extent r.size) p.ranges)) started done r

unfoldable pub start_profile : Reply → Origin → Remote × Result (List Profile) → Remote × Reply
start_profile started origin (r, err code) = (r, err code)
start_profile started origin (r, ok ps) = start_found started (find origin ps) r

-- The two tests at the end of setLoadPrefetch.
unfoldable pub start_scope : Answers → Origin → ℕ → Scope → Remote → Remote × Reply
start_scope a origin size profile r =
    start_profile a.started origin (profiles (units_of size) a.fetched r)
start_scope a origin size whole r = call (background true) a.started done r
start_scope a origin size _ r = (r, ok tt)

abbrev pub chosen : Option Profile → Scope
chosen none = whole
chosen (some p) = profile

-- What "auto" comes to, once the profiles have been read.
unfoldable pub resolve_auto : Answers → Origin → ℕ → Remote × Result (List Profile) → Remote × Reply
resolve_auto a origin size (r, err code) =
    if is_optional code
    then start_scope a origin size whole (record r { scope = whole })
    else (r, err code)
resolve_auto a origin size (r, ok ps) =
    start_scope a origin size (chosen (find origin ps))
      (record r { scope = chosen (find origin ps) })

unfoldable pub start : Answers → Origin → ℕ → Scope → Remote → Remote × Reply
start a origin size auto r = resolve_auto a origin size (profiles (units_of size) a.fetched r)
start a origin size scope r = start_scope a origin size scope r

unfoldable pub stop_all : Answers → Origin → ℕ → Scope → Remote → Remote × Reply
stop_all a origin size scope r =
    call (background false) a.disabled (call stop_prefetch a.stopped (start a origin size scope))
      (record r {
        scope = scope;
        origin = some origin;
        logical_size = size;
        calls = r.calls ++ discard_startup ∷ [];
      })

-- setLoadPrefetch(origin,scope,{size})
unfoldable pub set_load_prefetch : Answers → Origin → ℕ → Scope → Remote → Remote × Reply
set_load_prefetch a origin size unknown r = (r, err invalid_profile)
set_load_prefetch a origin size scope r = stop_all a origin size scope r

abbrev pub is_nothing : Scope → Bool
is_nothing nothing = true
is_nothing _ = false

-- startPrefetch(). A profile is in use only after its origin has been set; without one `sameOrigin`
-- throws, after calls that are left out here.
unfoldable pub start_prefetch_for : Answers → Scope → Option Origin → Remote → Remote × Reply
start_prefetch_for a profile (some origin) r = set_load_prefetch a origin r.logical_size profile r
start_prefetch_for a profile none r = (r, err other_code)
start_prefetch_for a scope origin r = call (background (not (is_nothing scope))) a.started done r

abbrev pub start_prefetch : Answers → Remote → Remote × Reply
start_prefetch a r = start_prefetch_for a r.scope r.origin r
