-- ===== src/LoadPrefetch/Tests.antt =====
-- A disk with a profile of its boot, which is found, and a profile that cannot be read.
use my.Base.{List, ◌≡◌, refl, true, none, some, [], ◌∷◌, ◌++◌}
use my.Base.Int.{pos}
use my.Base.Failure.{ok, err, publication_unavailable}
use my.LoadProfiles.{state, Origin, boot}
use my.LoadPrefetch.{
  Profile, auto, profile, whole, Remote, Answers, background, prefetch, call, take_profiles, cached,
  profiles, start_profile, start_scope, resolve_auto, start, stop_all, set_load_prefetch,
}
use my.LoadPrefetch.Started.{ends}

abbrev boots : Origin
boots = record { kind = boot; sha256 = none }

abbrev remote : Remote
remote = record {
  has_state = true;
  has_profile = true;
  size = 100000;
  scope = whole;
  origin = none;
  logical_size = 0;
  profile_cache = none;
  calls = [];
}

-- The profile of the boot comes after one of a state.
abbrev published : List Profile
published =
    record { origin = record { kind = state; sha256 = none }; ranges = (0, 0) ∷ [] }
    ∷ record { origin = boots; ranges = (1, 1) ∷ [] }
    ∷ []

abbrev answers : Answers
answers = record { disabled = ok tt; stopped = ok tt; fetched = ok published; started = ok tt }

abbrev after : Remote
after = record remote {
  scope = profile;
  origin = some boots;
  logical_size = 131072;
  profile_cache = some (2, published);
  calls = ends ++ prefetch ((65796, pos 34204) ∷ []) ∷ [];
}

unavailable_runs :
    (set_load_prefetch
      (record answers { fetched = err publication_unavailable })
      boots
      131072
      auto
      remote).0.calls
    ≡ ends ++ background true ∷ []
unfolding set_load_prefetch stop_all call start resolve_auto profiles cached take_profiles
    start_scope
unavailable_runs = refl

-- An explicit profile is no optional hint.
unavailable_fails :
    (set_load_prefetch
      (record answers { fetched = err publication_unavailable })
      boots
      131072
      profile
      remote).1
    ≡ err publication_unavailable
unfolding set_load_prefetch stop_all call start profiles cached take_profiles start_scope
    start_profile
unavailable_fails = refl
