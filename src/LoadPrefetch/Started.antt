-- ===== src/LoadPrefetch/Started.antt =====
-- torrent-remote.js: what runs after setLoadPrefetch is what its scope says.
use my.Base.{ℕ, ◌≡◌, true, false, List, [], ◌∷◌, ◌++◌, map}
use my.LoadProfiles.{Origin, same_origin}
use my.LoadPrefetch.Offered.{Among}
use my.LoadPrefetch.{
  Profile, Scope, nothing, profile, whole, Call, discard_startup, stop_prefetch, background,
  prefetch, Remote, extent,
}

-- The calls that start what a scope names, for the disk of a remote with these profiles.
pub data Starts (size : ℕ) (origin : Origin) (known : List Profile)
    : Scope → List Call → Type 0 where
  starts_nothing : Starts size origin known nothing []
  starts_whole : Starts size origin known whole (background true ∷ [])
  starts_profile :
      (p : Profile)
      → Among p known
      → same_origin p.origin origin ≡ true
      → Starts size origin known profile (prefetch (map (extent size) p.ranges) ∷ [])

-- After `before`, the remote has made the calls that start its scope.
pub record Runs (size : ℕ) (origin : Origin) (known : List Profile) (before : List Call)
    (r : Remote) : Type 0 where
  pub calls : List Call
  pub made : r.calls ≡ before ++ calls
  pub starts : Starts size origin known r.scope calls

-- The calls that end whatever was running.
abbrev pub ends : List Call
ends = discard_startup ∷ background false ∷ stop_prefetch ∷ []
