-- ===== src/LoadPrefetch/Offered.antt =====
-- torrent-remote.js: the profiles that a remote has, which are those that `profiles` returns.
use my.Base.{
  ◌++◌, ℕ, ◌≡◌, refl, ap, ◌∙◌, true, false, Option, none, some, List, [], ◌∷◌, inl, inr, Bool, not,
  ◌&&◌, ◌⊎◌, ◌==◌, any, if◌then◌else◌, if_cases, Bool-cases, arith,
}
use mathlib.Core.Path.{subst}
use my.Base.Failure.{Result, ok, err}
use my.LoadProfiles.{Origin, same_origin}
use my.LoadPrefetch.{
  Reply, Call, call, Profile, Remote, take_profiles, cached, profiles, find, is_state,
}

-- The profiles that a remote has for these units, if they can be read: those of the cache where it was
-- filled for as many units, else the published ones.
abbrev listed : Result (List Profile) → List Profile
listed (ok ps) = ps
listed (err code) = []

abbrev cached_or : Option (ℕ × List Profile) → ℕ → List Profile → List Profile
cached_or none units ps = ps
cached_or (some (n, qs)) units ps = if n == units then qs else ps

abbrev pub offered : ℕ → Result (List Profile) → Remote → List Profile
offered units fetched r =
    if r.has_profile then cached_or r.profile_cache units (listed fetched) else []

abbrev pub Among : Profile → List Profile → Type 0
Among p [] = ⊥
Among p (q ∷ qs) = (q ≡ p) ⊎ Among p qs

pub find-Among :
    (origin : Origin) (ps : List Profile) (p : Profile)
    → find origin ps ≡ some p
    → Among p ps × (same_origin p.origin origin ≡ true)
unfolding find
find-Among origin [] p h = cc
find-Among origin (q ∷ ps) p h = elim (Bool-cases (same_origin q.origin origin)) [
  | inl e ↦ let t : q ≡ p = cc in (inl t, subst (λ x. same_origin x.origin origin ≡ true) t e)
  | inr e ↦ let f = find-Among origin ps p (rw e at h) in (inr f.0, f.1)
]

-- Reading the profiles changes nothing but the cache.
pub record Same (r k : Remote) : Type 0 where
  pub calls : k.calls ≡ r.calls
  pub size : k.size ≡ r.size
  pub scope : k.scope ≡ r.scope
  pub has_profile : k.has_profile ≡ r.has_profile

pub profiles-Same :
    (units : ℕ) (fetched : Result (List Profile)) (r : Remote) → Same r (profiles units fetched r).0
unfolding profiles cached take_profiles
profiles-Same units fetched r = record {
  calls = ground arith;
  size = ground arith;
  scope = ground arith;
  has_profile = ground arith;
}

take_profiles-offered :
    (units : ℕ) (fetched : Result (List Profile)) (r : Remote) (ps : List Profile)
    → (take_profiles units fetched r).1 ≡ ok ps
    → ps ≡ listed fetched
unfolding take_profiles
take_profiles-offered units (ok qs) r ps h = ground arith
take_profiles-offered units (err code) r ps h = absurd (ground arith)

cached-offered :
    (o : Option (ℕ × List Profile)) (units : ℕ) (fetched : Result (List Profile)) (r : Remote)
    (ps : List Profile)
    → (cached o units fetched r).1 ≡ ok ps
    → ps ≡ cached_or o units (listed fetched)
unfolding cached
cached-offered none units fetched r ps h = take_profiles-offered units fetched r ps h
cached-offered (some (n, qs)) units fetched r ps h = elim (Bool-cases (n == units)) [
  | inl e ↦ rw e (let g = rw e at h in ground arith)
  | inr e ↦ rw e (take_profiles-offered units fetched r ps (rw e at h))
]

read-offered :
    (has : Bool) (units : ℕ) (fetched : Result (List Profile)) (r : Remote) (ps : List Profile)
    → (if has then cached r.profile_cache units fetched r else (r, ok [])).1 ≡ ok ps
    → ps ≡ (if has then cached_or r.profile_cache units (listed fetched) else [])
read-offered true units fetched r ps h = cached-offered r.profile_cache units fetched r ps h
read-offered false units fetched r ps h = ground arith

-- What is read is what the remote has,
pub profiles-offered :
    (units : ℕ) (fetched : Result (List Profile)) (r : Remote) (ps : List Profile)
    → (profiles units fetched r).1 ≡ ok ps
    → ps ≡ offered units fetched r
unfolding profiles
profiles-offered units fetched r ps h = read-offered r.has_profile units fetched r ps h

take_profiles-again :
    (units : ℕ) (fetched : Result (List Profile)) (r : Remote)
    → cached_or r.profile_cache units (listed fetched) ≡ listed fetched
    → cached_or (take_profiles units fetched r).0.profile_cache units (listed fetched)
      ≡ listed fetched
unfolding take_profiles
take_profiles-again units (err code) r h = h
take_profiles-again units (ok ps) r h =
    if_cases (λ (m : Remote × Result (List Profile)). cached_or m.0.profile_cache units ps ≡ ps)
      (not r.has_state && any is_state ps) _ _ (λ _. h) (λ _. ground arith)

cached-again :
    (o : Option (ℕ × List Profile)) (units : ℕ) (fetched : Result (List Profile)) (r : Remote)
    → r.profile_cache ≡ o
    → cached_or (cached o units fetched r).0.profile_cache units (listed fetched)
      ≡ cached_or o units (listed fetched)
unfolding cached
cached-again none units fetched r e = take_profiles-again units fetched r (rw e refl)
cached-again (some (n, qs)) units fetched r e = elim (Bool-cases (n == units)) [
  | inl f ↦ rw f (rw e (rw f refl))
  | inr f ↦ rw f (take_profiles-again units fetched r (rw e (rw f refl)))
]

read-again :
    (has : Bool) (units : ℕ) (fetched : Result (List Profile)) (r : Remote)
    → (if has
        then cached_or
            (if has then cached r.profile_cache units fetched r else (r, ok [])).0.profile_cache
            units
            (listed fetched)
        else [])
      ≡ (if has then cached_or r.profile_cache units (listed fetched) else [])
read-again true units fetched r = cached-again r.profile_cache units fetched r refl
read-again false units fetched r = refl

-- and is what it has afterwards.
pub profiles-again :
    (units : ℕ) (fetched : Result (List Profile)) (r : Remote)
    → offered units fetched (profiles units fetched r).0 ≡ offered units fetched r
profiles-again units fetched r =
    ap
      (λ b.
        if b
        then cached_or (profiles units fetched r).0.profile_cache units (listed fetched)
        else [])
      (profiles-Same units fetched r).has_profile
    ∙ (unfold profiles in read-again r.has_profile units fetched r)

-- A call that succeeds ends in such a remote.
abbrev pub Succeeds : (Remote → Type 0) → Remote × Reply → Type 0
Succeeds P (r, ok t) = P r
Succeeds P (r, err code) = Unit

pub call-Succeeds :
    (P : Remote → Type 0) (c : Call) (reply : Reply) (next : Remote → Remote × Reply) (r : Remote)
    → Succeeds P (next (record r { calls = r.calls ++ c ∷ [] }))
    → Succeeds P (call c reply next r)
unfolding call
call-Succeeds P c (ok t) next r h = h
call-Succeeds P c (err code) next r h = tt
