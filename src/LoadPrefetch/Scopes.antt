-- ===== src/LoadPrefetch/Scopes.antt =====
-- torrent-remote.js: what scope setLoadPrefetch leaves a remote with, "auto" for one.
use my.Base.{
  ℕ, ◌≡◌, ◌≢◌, refl, sym, ap, ◌∙◌, Bool, true, false, not, ◌&&◌, Option, none, some, List, [], ◌∷◌,
  ◌++◌, inl, inr, ◌==◌, any, map, All, if◌then◌else◌, Bool-cases, arith,
}
use mathlib.Core.Path.{subst}
use my.Base.Failure.{Code, invalid_profile, Result, ok, err}
use my.LoadProfiles.{Origin, same_origin}
use my.LoadPrefetch.{
  Profile, Scope, nothing, profile, whole, auto, unknown, discard_startup, stop_prefetch,
  background, prefetch, Remote, Reply, Answers, done, is_state, take_profiles, cached, profiles,
  units_of, find, extent, is_optional, start_found, start_profile, start_scope, chosen,
  resolve_auto, start, stop_all,
}
use my.LoadPrefetch.Offered.{offered, Succeeds, call-Succeeds, profiles-Same, profiles-offered}

-- Why the published profiles are not taken, if they are not.
abbrev refusal : Bool → Result (List Profile) → Option Code
refusal has_state (err code) = some code
refusal has_state (ok ps) = if not has_state && any is_state ps then some invalid_profile else none

abbrev missed : Option (ℕ × List Profile) → ℕ → Option Code → Option Code
missed none units c = c
missed (some (n, ps)) units c = if n == units then none else c

-- The error with which the profiles of a remote cannot be read, if they cannot.
abbrev pub unread : ℕ → Result (List Profile) → Remote → Option Code
unread units fetched r =
    if r.has_profile then missed r.profile_cache units (refusal r.has_state fetched) else none

-- The scope that is asked for, and the one that it comes to.
pub data Resolves (origin : Origin) (known : List Profile) (failure : Option Code)
    : Scope → Scope → Type 0 where
  as_asked : {s : Scope} → s ≢ auto → Resolves origin known failure s s
  with_profile :
      {p : Profile} → find origin known ≡ some p → Resolves origin known failure auto profile
  without :
      All (λ p. same_origin p.origin origin ≡ false) known
      → Resolves origin known failure auto whole
  unreadable :
      {c : Code}
      → failure ≡ some c
      → is_optional c ≡ true
      → Resolves origin known failure auto whole

take_profiles-refusal :
    (units : ℕ) (fetched : Result (List Profile)) (r : Remote) (c : Code)
    → (take_profiles units fetched r).1 ≡ err c
    → refusal r.has_state fetched ≡ some c
unfolding take_profiles
take_profiles-refusal units (ok qs) r c h = ground arith
take_profiles-refusal units (err code) r c h = ground arith

cached-missed :
    (o : Option (ℕ × List Profile)) (units : ℕ) (fetched : Result (List Profile)) (r : Remote)
    (c : Code)
    → (cached o units fetched r).1 ≡ err c
    → missed o units (refusal r.has_state fetched) ≡ some c
unfolding cached
cached-missed none units fetched r c h = take_profiles-refusal units fetched r c h
cached-missed (some (n, qs)) units fetched r c h = elim (Bool-cases (n == units)) [
  | inl e ↦ rw e (let g = rw e at h in ground arith)
  | inr e ↦ rw e (take_profiles-refusal units fetched r c (rw e at h))
]

read-unread :
    (has : Bool) (units : ℕ) (fetched : Result (List Profile)) (r : Remote) (c : Code)
    → (if has then cached r.profile_cache units fetched r else (r, ok [])).1 ≡ err c
    → (if has then missed r.profile_cache units (refusal r.has_state fetched) else none) ≡ some c
read-unread true units fetched r c h = cached-missed r.profile_cache units fetched r c h
read-unread false units fetched r c h = ground arith

profiles-unread :
    (units : ℕ) (fetched : Result (List Profile)) (r : Remote) (c : Code)
    → (profiles units fetched r).1 ≡ err c
    → unread units fetched r ≡ some c
unfolding profiles
profiles-unread units fetched r c h = read-unread r.has_profile units fetched r c h

find-none :
    (origin : Origin) (ps : List Profile)
    → find origin ps ≡ none
    → All (λ p. same_origin p.origin origin ≡ false) ps
unfolding find
find-none origin [] h = tt
find-none origin (p ∷ ps) h = ground (arith, find-none origin ps)

-- What starts something leaves the scope as it is.
abbrev Leaves : Scope → Remote → Type 0
Leaves s r = r.scope ≡ s

found-Leaves :
    (started : Reply) (o : Option Profile) (r : Remote) (s : Scope)
    → r.scope ≡ s
    → Succeeds (Leaves s) (start_found started o r)
unfolding start_found
found-Leaves started none r s e = tt
found-Leaves started (some p) r s e =
    call-Succeeds (Leaves s) (prefetch (map (extent r.size) p.ranges)) started done r e

profile-Leaves :
    (started : Reply) (origin : Origin) (k : Remote) (ps : Result (List Profile)) (s : Scope)
    → k.scope ≡ s
    → Succeeds (Leaves s) (start_profile started origin (k, ps))
unfolding start_profile
profile-Leaves started origin k (err c) s e = tt
profile-Leaves started origin k (ok ps) s e = found-Leaves started (find origin ps) k s e

scope-Leaves :
    (a : Answers) (origin : Origin) (size : ℕ) (t : Scope) (r : Remote) (s : Scope)
    → r.scope ≡ s
    → Succeeds (Leaves s) (start_scope a origin size t r)
unfolding start_scope
scope-Leaves a origin size profile r s e =
    let read = profiles (units_of size) a.fetched r in
    profile-Leaves a.started origin read.0 read.1 s
      ((profiles-Same (units_of size) a.fetched r).scope ∙ e)
scope-Leaves a origin size whole r s e =
    call-Succeeds (Leaves s) (background true) a.started done r e
scope-Leaves a origin size nothing r s e = e
scope-Leaves a origin size auto r s e = e
scope-Leaves a origin size unknown r s e = e

Succeeds-map :
    (P Q : Remote → Type 0) (m : Remote × Reply)
    → ((r : Remote) → P r → Q r)
    → Succeeds P m
    → Succeeds Q m
Succeeds-map P Q (r, ok t) f h = f r h
Succeeds-map P Q (r, err c) f h = tt

module _ (origin : Origin) (known : List Profile) (failure : Option Code) where
  -- A start with the scope that is stored.
  stored-Resolves :
      (a : Answers) (size : ℕ) (asked t s : Scope) (r : Remote)
      → Resolves origin known failure asked s
      → r.scope ≡ s
      → Succeeds (λ k. Resolves origin known failure asked k.scope) (start_scope a origin size t r)
  stored-Resolves a size asked t s r h e =
      Succeeds-map (Leaves s) (λ k. Resolves origin known failure asked k.scope)
        (start_scope a origin size t r)
        (λ k l. subst (λ x. Resolves origin known failure asked x) (sym l) h)
        (scope-Leaves a origin size t r s e)

  chosen-Resolves :
      (o : Option Profile) → find origin known ≡ o → Resolves origin known failure auto (chosen o)
  chosen-Resolves none e = without (find-none origin known e)
  chosen-Resolves (some p) e = with_profile e

  auto-Resolves :
      (a : Answers) (size : ℕ) (k : Remote) (ps : Result (List Profile))
      → ((qs : List Profile) → ps ≡ ok qs → qs ≡ known)
      → ((c : Code) → ps ≡ err c → failure ≡ some c)
      → Succeeds
          (λ k. Resolves origin known failure auto k.scope)
          (resolve_auto a origin size (k, ps))
  unfolding resolve_auto
  auto-Resolves a size k (err c) q f = elim (Bool-cases (is_optional c)) [
    | inl e ↦ rw e (
        stored-Resolves a size auto whole whole (record k { scope = whole })
          (unreadable (f c refl) e) refl)
    | inr e ↦ rw e tt
  ]
  auto-Resolves a size k (ok ps) q f =
      let s = chosen (find origin ps) in
      stored-Resolves a size auto s s (record k { scope = s })
        (chosen-Resolves (find origin ps) (ap (find origin) (sym (q ps refl)))) refl

  start-Resolves :
      (a : Answers) (size : ℕ) (scope : Scope) (r : Remote)
      → ((qs : List Profile) → (profiles (units_of size) a.fetched r).1 ≡ ok qs → qs ≡ known)
      → ((c : Code) → (profiles (units_of size) a.fetched r).1 ≡ err c → failure ≡ some c)
      → r.scope ≡ scope
      → Succeeds (λ k. Resolves origin known failure scope k.scope) (start a origin size scope r)
  unfolding start
  start-Resolves a size auto r q f e =
      let read = profiles (units_of size) a.fetched r in auto-Resolves a size read.0 read.1 q f
  start-Resolves a size nothing r q f e =
      stored-Resolves a size nothing nothing nothing r (as_asked (λ z. cc)) e
  start-Resolves a size profile r q f e =
      stored-Resolves a size profile profile profile r (as_asked (λ z. cc)) e
  start-Resolves a size whole r q f e =
      stored-Resolves a size whole whole whole r (as_asked (λ z. cc)) e
  start-Resolves a size unknown r q f e =
      stored-Resolves a size unknown unknown unknown r (as_asked (λ z. cc)) e

-- Where all calls succeed, the scope is the one asked for; for "auto" it is that of a profile where
-- the remote has one, and the whole disk where it has none or cannot read them.
pub stop_all-Resolves :
    (a : Answers) (origin : Origin) (size : ℕ) (scope : Scope) (r : Remote)
    → Succeeds
        (λ k.
          Resolves origin
            (offered (units_of size) a.fetched r)
            (unread (units_of size) a.fetched r)
            scope
            k.scope)
        (stop_all a origin size scope r)
unfolding stop_all
stop_all-Resolves a origin size scope r =
    let known = offered (units_of size) a.fetched r in
    let failure = unread (units_of size) a.fetched r in
    let P : Remote → Type 0 = λ k. Resolves origin known failure scope k.scope in
    let opened : Remote = record r {
      scope = scope;
      origin = some origin;
      logical_size = size;
      calls = (r.calls ++ discard_startup ∷ []) ++ background false ∷ [] ++ stop_prefetch ∷ [];
    } in
    call-Succeeds P (background false) a.disabled _ _ (
      call-Succeeds P stop_prefetch a.stopped (start a origin size scope) _ (
        start-Resolves origin known failure a size scope opened
          (profiles-offered (units_of size) a.fetched opened)
          (profiles-unread (units_of size) a.fetched opened) refl))
